-- ===== src/Usmap/File/Written.antt =====
-- The documented layout of a .usmap file, and parseUsmapBytes of internal/recipe/usmap.go on it.
use morgue.Common.{
  ℕ, ◌-◌, ◌*◌, ◌^◌, ◌≤◌, ◌<◌, ◌≡◌, refl, ap, ◌∙◌, Bool, true, false, not, Option, none, some, Bytes,
  [], ◌++◌, Result, ok, length, length-append, take_append, drop_append, ltb, le→ltb-false, leb,
  ◌==◌, ==_refl, pos, arith, if◌then◌else◌,
}
use morgue.Cursor.{Cursor, ◌>>=◌, pure, wrapped}
use morgue.Cursor.Words.{word_bytes, int32_bytes}
use morgue.Cursor.Reads.{
  Reads, between, Reads-pure, Reads-wrapped, Reads-bind, Reads-then, Reads-last, Reads-else_branch,
  bind_ok,
}
use morgue.ByteReader.{Error, wrap, remaining, uint32}
use morgue.ByteReader.Laws.{Reads-uint8, Reads-uint16, Reads-uint32, Reads-int32, Reads-skip}
use morgue.Usmap.{parse_usmap_body, lift, usmap_max_enums}
use morgue.Usmap.Format.{WireBody, write_body, body_meaning, IsWireBody}
use morgue.Usmap.RoundTrip.{parse_usmap_body-write_body}
use morgue.Usmap.File.{
  Zstd, usmap_magic, usmap_max_decomp_size, decompress_usmap, skip_custom_versions,
  skip_versioning_block, read_versioning, parse_usmap_header, value_of, start, compressed_bytes,
  parse_usmap_rest, parse_usmap_bytes,
}

-- The versioning block: two int32 versions, `count` custom versions of 20 bytes each, and NetCL.
pub record Versioning : Type 0 where
  pub package_versions : Bytes
  pub count : ℕ
  pub custom_versions : Bytes
  pub net_cl : Bytes

pub record IsVersioning (v : Versioning) : Type 0 where
  pub package_size : length v.package_versions ≡ 8
  pub count_cap : v.count ≤ usmap_max_enums
  pub custom_size : length v.custom_versions ≡ v.count * 20
  pub net_cl_size : length v.net_cl ≡ 4

abbrev pub Fitting : Option Versioning → Type 0
Fitting none = Unit
Fitting (some v) = IsVersioning v

unfoldable pub write_versioning : Option Versioning → Bytes
write_versioning none = word_bytes 4 0
write_versioning (some v) =
    word_bytes 4 1
    ++ (v.package_versions ++ (int32_bytes (pos v.count) ++ (v.custom_versions ++ v.net_cl)))

unfoldable pub write_header : ℕ → Option Versioning → ℕ → ℕ → ℕ → Bytes
unfolding write_versioning
write_header version v method comp_size decomp_size =
    word_bytes 2 usmap_magic
    ++ (word_bytes 1 version
        ++ ((if leb 1 version then write_versioning v else [])
            ++ (word_bytes 1 method ++ (word_bytes 4 comp_size ++ word_bytes 4 decomp_size))))

-- How a body is stored: as it is, or by Zstd with a decoder that returns it.
pub data Stored (zstd : Zstd) (body : Bytes) : ℕ → Bytes → Type 0 where
  plain : Stored zstd body 0 body
  compressed :
      {comp : Bytes}
      → zstd.new_reader ≡ true
      → zstd.decode_all comp ≡ some body
      → Stored zstd body 3 comp

Reads-skip_custom_versions :
    (n : ℕ) (custom net_cl : Bytes)
    → n ≤ usmap_max_enums
    → length custom ≡ n * 20
    → length net_cl ≡ 4
    → Reads (skip_custom_versions (pos n)) (custom ++ net_cl) tt
unfolding skip_custom_versions
Reads-skip_custom_versions n custom net_cl cap h g =
    Reads-else_branch _ _ (ltb usmap_max_enums n) (le→ltb-false _ _ cap) (
      Reads-then (Reads-wrapped _ (Reads-skip (n * 20) custom h))
        (Reads-wrapped _ (Reads-skip 4 net_cl g)))

Reads-versioning :
    (b : Bool) (v : Option Versioning)
    → Fitting v
    → Reads
        (if b
          then (do
            has_versioning ← wrapped (wrap "usmap: read versioning flag") uint32
            if not (has_versioning == 0) then skip_versioning_block else pure tt)
          else pure tt)
        (if b then write_versioning v else [])
        tt
unfolding write_versioning skip_versioning_block
Reads-versioning false v h = Reads-pure
Reads-versioning true none h =
    Reads-last _ (Reads-wrapped _ (Reads-uint32 0 (omega arith))) Reads-pure
Reads-versioning true (some v) h = Reads-bind _ (Reads-wrapped _ (Reads-uint32 1 (omega arith))) (
    Reads-then (Reads-wrapped _ (Reads-skip 8 v.package_versions h.package_size)) (
      Reads-bind _ (Reads-wrapped _ (Reads-int32 (pos v.count) (omega (arith, h.count_cap))))
        (Reads-skip_custom_versions v.count _ _ h.count_cap h.custom_size h.net_cl_size)))

Reads-header :
    (version : ℕ) (v : Option Versioning) (method comp_size decomp_size : ℕ)
    → version ≤ 4
    → Fitting v
    → method < 256
    → comp_size < 2 ^ 32
    → decomp_size ≤ usmap_max_decomp_size
    → Reads parse_usmap_header (write_header version v method comp_size decomp_size) (record {
      version = version;
      method = method;
      comp_size = comp_size;
      decomp_size = decomp_size;
    })
unfolding parse_usmap_header write_header read_versioning
Reads-header version v method comp_size decomp_size hv hf hm hc hd =
    Reads-bind _ (Reads-wrapped _ (Reads-uint16 usmap_magic (omega arith))) (
      Reads-bind _ (Reads-wrapped _ (Reads-uint8 version (omega arith))) (
        Reads-else_branch _ _ (ltb 4 version) (le→ltb-false 4 version hv) (
          Reads-then (Reads-versioning (leb 1 version) v hf) (
            Reads-bind _ (Reads-wrapped _ (Reads-uint8 method hm)) (
              Reads-bind _ (Reads-wrapped _ (Reads-uint32 comp_size hc)) (
                Reads-last _ (Reads-wrapped _ (Reads-uint32 decomp_size (omega arith))) (
                  Reads-else_branch _ _ (ltb usmap_max_decomp_size decomp_size)
                    (le→ltb-false _ _ hd) Reads-pure)))))))

compressed_bytes_ok :
    (front comp rest : Bytes)
    → compressed_bytes (length comp) (between front (comp ++ rest))
      ≡ ok (comp, between front (comp ++ rest))
unfolding compressed_bytes remaining
compressed_bytes_ok front comp rest =
    rw (drop_append front (comp ++ rest), take_append comp rest, enough)
  where
    enough : ltb (length (front ++ (comp ++ rest)) - length front) (length comp) ≡ false
    enough =
        le→ltb-false _ _
          (omega (arith, length-append front (comp ++ rest), length-append comp rest))

decompress_usmap-Stored :
    (zstd : Zstd) (body comp : Bytes) (method : ℕ)
    → Stored zstd body method comp
    → decompress_usmap zstd method comp (length body) ≡ ok body
unfolding decompress_usmap
decompress_usmap-Stored zstd body _ _ plain = rw (==_refl (length body))
decompress_usmap-Stored zstd body comp _ (compressed ready decoded) =
    rw (ready, decoded, ==_refl (length body))

method-lt :
    {zstd : Zstd} {body comp : Bytes} {method : ℕ} → Stored zstd body method comp → method < 256
method-lt plain = omega arith
method-lt (compressed _ _) = omega arith

lift_ok {κ} :
    {A : Type κ} {r : Result Error A} {a : A} (c : Cursor) → r ≡ ok a → lift r c ≡ ok (a, c)
lift_ok c e = ap (λ x. lift x c) e ∙ unfold lift pure in refl

module _ (zstd : Zstd) (version : ℕ) (v : Option Versioning) (b : WireBody)
    (extra rest : Bytes) where
  -- The decompressed body; the parser ignores what stands behind its tables.
  abbrev pub image : Bytes
  image = write_body version b ++ extra

  body_ok :
      IsWireBody version b
      → value_of (parse_usmap_body version (start image)) ≡ ok (body_meaning version b)
  unfolding value_of
  body_ok h = rw ((parse_usmap_body-write_body version b h).reads [] extra)

  -- A file of a version up to 4 whose header is written in the documented layout, with or without a
  -- versioning block, and whose body is stored plain or by Zstd and fits its caps, parses to what the
  -- body stands for, whatever bytes follow the tables and the compressed body.
  pub parse_usmap_bytes-write :
      (method : ℕ) (comp : Bytes)
      → version ≤ 4
      → Fitting v
      → IsWireBody version b
      → Stored zstd image method comp
      → length comp < 2 ^ 32
      → length image ≤ usmap_max_decomp_size
      → parse_usmap_bytes zstd
          (write_header version v method (length comp) (length image) ++ (comp ++ rest))
        ≡ ok (record {
          version = version;
          compression_method = method;
          body = body_meaning version b;
        })
  unfolding parse_usmap_bytes
  parse_usmap_bytes-write method comp hv hf hb stored hc hd =
      ap value_of (
        bind_ok parse_usmap_header (parse_usmap_rest zstd) (header.reads [] (comp ++ rest)) ∙ after)
      ∙ unfold value_of in refl
    where
      hdr : Bytes
      hdr = write_header version v method (length comp) (length image)

      header : Reads parse_usmap_header hdr (record {
        version = version;
        method = method;
        comp_size = length comp;
        decomp_size = length image;
      })
      header =
          Reads-header version v method (length comp) (length image) hv hf (method-lt stored) hc hd

      here : Cursor
      here = between hdr (comp ++ rest)

      after :
          parse_usmap_rest zstd
            (record {
              version = version;
              method = method;
              comp_size = length comp;
              decomp_size = length image;
            })
            here
          ≡ ok (
            record {
              version = version;
              compression_method = method;
              body = body_meaning version b;
            },
            here,
          )
      after =
          unfold parse_usmap_rest in
          bind_ok (compressed_bytes (length comp)) _ (compressed_bytes_ok hdr comp rest)
          ∙ bind_ok (lift _) _
              (lift_ok here (decompress_usmap-Stored zstd image comp method stored))
          ∙ bind_ok (lift _) _ (lift_ok here (body_ok hb))
          ∙ unfold pure in refl
