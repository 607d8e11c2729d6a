-- ===== src/Usmap/File/Laws.antt =====
-- parseUsmapBytes of internal/recipe/usmap.go, whatever bytes it is given.
use morgue.Common.{
  ℕ, ◌+◌, ◌*◌, ◌≤◌, ◌≡◌, refl, ◌⊎◌, not, Bytes, Result, ok, err, length, ltb, ltb-false→le, leb,
  ◌==◌, ℤ, pos, negsuc, arith, subst,
}
use morgue.Cursor.{Cursor, ◌>>=◌}
use morgue.Cursor.Ensures.{
  Ensures, Outcome, Outcome-if, Outcome-same, IsInside, done, stopped, Ensures-pure, Ensures-fail,
  Ensures-wrapped, Ensures-if, Ensures-mono, Ensures-bind, Ensures-then,
}
use morgue.ByteReader.{Error, remaining}
use morgue.ByteReader.Laws.{
  Ensures-uint8, Ensures-uint16, Ensures-uint32, Ensures-int32, Ensures-skip,
}
use morgue.Usmap.{lift, usmap_max_enums}
use morgue.Usmap.Bounds.{IsBody, parse_usmap_body-IsBody}
use morgue.Usmap.File.{
  Zstd, UsmapData, UsmapHeader, usmap_magic, usmap_max_decomp_size, decompress_usmap,
  skip_custom_versions, skip_versioning_block, read_versioning, parse_usmap_header, value_of, start,
  compressed_bytes, parse_usmap_rest, parse_usmap_bytes,
}

-- A decompressed body has the declared size, and came by one of the two supported methods.
decompress_usmap-size :
    (zstd : Zstd) (method : ℕ) (comp : Bytes) (decomp_size : ℕ) {body : Bytes}
    → decompress_usmap zstd method comp decomp_size ≡ ok body
    → (length body ≡ decomp_size) × ((method ≡ 0) ⊎ (method ≡ 3))
unfolding decompress_usmap
decompress_usmap-size zstd method comp decomp_size h = ground arith

Ensures-lift {κ μ} :
    {A : Type κ} (P : A → ℕ → Type μ) (r : Result Error A)
    → ((a : A) → r ≡ ok a → P a 0)
    → Ensures P (lift r)
unfolding lift
Ensures-lift P (ok a) h = Ensures-pure P (h a refl)
Ensures-lift P (err e) h = Ensures-fail P e

value_of-Outcome {κ μ} :
    {A : Type κ} (P : A → ℕ → Type μ) (r : Cursor) (x : Result Error (A × Cursor)) (a : A)
    → Outcome P r x
    → value_of x ≡ ok a
    → (n : ℕ) × P a n × (r.pos + n ≤ length r.bytes)
unfolding value_of
value_of-Outcome P r _ a (done {a = b} n h e i) eq =
    (n, subst (λ x. P x n) (cc) h, subst IsInside e i)
value_of-Outcome P r _ a (stopped e) eq = cc

-- What the header lets through.
record IsHeader (h : UsmapHeader) : Type 0 where
  version_known : h.version ≤ 4
  size_cap : h.decomp_size ≤ usmap_max_decomp_size

skip_custom_versions-any : (count : ℤ) → Ensures (λ _ n. 4 ≤ n) (skip_custom_versions count)
unfolding skip_custom_versions
skip_custom_versions-any (negsuc n) = Ensures-fail _ _
skip_custom_versions-any (pos n) =
    Ensures-if _ (ltb usmap_max_enums n) (λ _. Ensures-fail _ _)
      λ _.
        Ensures-then _ _ (Ensures-wrapped _ _ (Ensures-skip (n * 20)))
          λ _ m h. Ensures-mono _ (λ _ k g. omega (arith, g)) (Ensures-wrapped _ _ (Ensures-skip 4))

read_versioning-any : (version : ℕ) → Ensures (λ _ n. 0 ≤ n) (read_versioning version)
unfolding read_versioning skip_versioning_block
read_versioning-any version =
    Ensures-if (λ _ n. 0 ≤ n) (leb 1 version)
      (λ _. Ensures-bind _ _ _ (Ensures-wrapped _ _ Ensures-uint32) λ flag n h.
        Ensures-if (λ _ m. 0 ≤ n + m) (not (flag == 0))
          (λ _. Ensures-then _ _ (Ensures-wrapped _ _ (Ensures-skip 8)) λ _ m g.
            Ensures-bind _ _ _ (Ensures-wrapped _ _ Ensures-int32)
              λ count k f. Ensures-mono _ (λ _ l e. omega arith) (skip_custom_versions-any count))
          (λ _. Ensures-pure _ (omega arith)))
      (λ _. Ensures-pure _ (omega arith))

parse_usmap_header-IsHeader : Ensures (λ h n. IsHeader h × (12 ≤ n)) parse_usmap_header
unfolding parse_usmap_header
parse_usmap_header-IsHeader = Ensures-bind _ _ _ (Ensures-wrapped _ _ Ensures-uint16) λ magic n h.
    Ensures-if _ (not (magic == usmap_magic)) (λ _. Ensures-fail _ _)
      λ _. Ensures-bind _ _ _ (Ensures-wrapped _ _ Ensures-uint8) λ version m g.
        Ensures-if _ (ltb 4 version) (λ _. Ensures-fail _ _)
          λ known. Ensures-then _ _ (read_versioning-any version) λ _ k f.
            Ensures-bind _ _ _ (Ensures-wrapped _ _ Ensures-uint8) λ method l e.
              Ensures-bind _ _ _ (Ensures-wrapped _ _ Ensures-uint32) λ comp_size i d.
                Ensures-bind _ _ _ (Ensures-wrapped _ _ Ensures-uint32) λ decomp_size j c.
                  Ensures-if _ (ltb usmap_max_decomp_size decomp_size) (λ _. Ensures-fail _ _)
                    λ small. Ensures-pure _ (
                      record {
                        version_known = ltb-false→le 4 version known;
                        size_cap = ltb-false→le _ _ small;
                      },
                      omega (arith, h, g, e, d, c),
                    )

-- What a parsed file is: a known version, a supported method, and a body as in `IsBody`, parsed from
-- at most the 512 MiB of the cap.
pub record IsParsed (d : UsmapData) : Type 0 where
  pub version_known : d.version ≤ 4
  pub method_supported : (d.compression_method ≡ 0) ⊎ (d.compression_method ≡ 3)
  pub size : ℕ
  pub body_size : size ≤ usmap_max_decomp_size
  pub body_valid : IsBody d.body size

module _ (zstd : Zstd) where
  parse_usmap_rest-IsParsed :
      (h : UsmapHeader) → IsHeader h → Ensures (λ d _. IsParsed d) (parse_usmap_rest zstd h)
  unfolding parse_usmap_rest
  parse_usmap_rest-IsParsed h v =
      Ensures-bind (λ _ _. Unit {0}) _ _ (compressed h.comp_size)
        λ comp _ _.
          Ensures-bind
            (λ body _. (length body ≤ usmap_max_decomp_size) × ((h.method ≡ 0) ⊎ (h.method ≡ 3))) _
            _ (Ensures-lift _ _ λ body e. body_fits comp body e)
            λ body _ g.
              Ensures-bind (λ b _. (n : ℕ) × IsBody b n × (0 + n ≤ length body)) _ _
                (Ensures-lift _ _ λ b e.
                  value_of-Outcome IsBody (start body) _ b
                    ((parse_usmap_body-IsBody h.version).ensures (start body) (omega arith)) e)
                λ b _ f. Ensures-pure _ (record {
                  version_known = v.version_known;
                  method_supported = g.1;
                  size = f.0;
                  body_size = omega (arith, f.2, g.0);
                  body_valid = f.1;
                })
    where
      compressed : (n : ℕ) → Ensures (λ _ _. Unit {0}) (compressed_bytes n)
      compressed n = record {
        ensures = λ r i.
            unfold compressed_bytes in
            Outcome-if _ (ltb (remaining r) n) (λ _. stopped _) (λ _. Outcome-same _ r tt i);
      }

      body_fits :
          (comp body : Bytes)
          → decompress_usmap zstd h.method comp h.decomp_size ≡ ok body
          → (length body ≤ usmap_max_decomp_size) × ((h.method ≡ 0) ⊎ (h.method ≡ 3))
      body_fits comp body e =
          let (size, method) = decompress_usmap-size zstd h.method comp h.decomp_size e in
          (omega (arith, size, v.size_cap), method)

  -- Whatever bytes it is given, `parse_usmap_bytes` fails or returns data with a version of at most 4,
  -- compression None or Zstd, and a body as `IsBody` describes it, taken from at most 512 MiB.
  pub parse_usmap_bytes-IsParsed :
      (raw : Bytes) (d : UsmapData) → parse_usmap_bytes zstd raw ≡ ok d → IsParsed d
  unfolding parse_usmap_bytes
  parse_usmap_bytes-IsParsed raw d e =
      (value_of-Outcome (λ d _. IsParsed d) (start raw) _ d
        (whole.ensures (start raw) (omega arith)) e).1
    where
      whole : Ensures (λ d _. IsParsed d) (parse_usmap_header >>= parse_usmap_rest zstd)
      whole =
          Ensures-bind _ _ _ parse_usmap_header-IsHeader λ h n g. parse_usmap_rest-IsParsed h g.0
