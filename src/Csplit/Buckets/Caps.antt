-- ===== src/Csplit/Buckets/Caps.antt =====
-- The names of the buckets and the size of the split files of internal/recipe/csplit.go.
use native.Mathlib.Nat.{suc-mul}
use morgue.Common.{
  ℕ, zero, suc, ◌+◌, ◌*◌, ◌/◌, ◌%◌, ◌^◌, ◌≤◌, ◌<◌, ◌≡◌, ◌⊎◌, inl, inr, refl, sym, ap, ◌∙◌, subst,
  [], ◌∷◌, ◌++◌, Bool, true, false, not, ◌||◌, Option, none, some, Result, ok, length,
  length-append, All, ltb, leb, text_eq, text_eq_refl, if◌then◌else◌, codes, arith, branches,
}
use morgue.Csplit.Text.{Text, cut_prefix, to_lower, trim_space}
use morgue.Csplit.Outcomes.{and_then}
use morgue.Csplit.Buckets.{
  BucketWriter, new_bucket_writer, bucket_of, hex_digit, hex_3, without_0x, parse_hex, bucket_for,
  open_file, opened, write_to, write, close_open, append_block, file_path, split_soft_cap, line_end,
}
use morgue.Csplit.Buckets.Contents.{final_content, if_at, Appends, write-Appends}

-- A digit of %x.
abbrev pub IsLowerHex : ℕ → Type 0
IsLowerHex c = ((b'0' ≤ c) × (c ≤ b'9')) ⊎ ((b'a' ≤ c) × (c ≤ b'f'))

hex_digit-IsLowerHex : (n : ℕ) → n < 16 → IsLowerHex (hex_digit n)
hex_digit-IsLowerHex n h =
    branches IsLowerHex (ltb n 10) (λ e. inl (ground arith)) (λ e. inr (ground arith))

hex_3-IsLowerHex : (n : ℕ) → n < 4096 → All IsLowerHex (hex_3 n)
hex_3-IsLowerHex n h = (
  hex_digit-IsLowerHex (n / 256) (omega arith),
  (
    hex_digit-IsLowerHex (n / 16 % 16) (omega arith),
    (hex_digit-IsLowerHex (n % 16) (omega arith), tt),
  ),
)

-- A bucket is a directory name of three lower case hexadecimal digits, whatever the address is.
pub bucket_for-IsLowerHex :
    (addr : Text) → (length (bucket_for addr) ≡ 3) × All IsLowerHex (bucket_for addr)
unfolding bucket_for bucket_of
bucket_for-IsLowerHex addr =
    let s = to_lower (trim_space addr) in
    of_number (parse_hex (without_0x (cut_prefix (codes "0x") s) s))
  where
    of_number : (o : Option ℕ) → (length (bucket_of o) ≡ 3) × All IsLowerHex (bucket_of o)
    of_number none = (refl, hex_3-IsLowerHex 0 (omega arith))
    of_number (some v) = (refl, hex_3-IsLowerHex (v / 2 ^ 12 % 2 ^ 12) (omega arith))

not_empty : (s : Text) → length s ≡ 3 → text_eq s [] ≡ false
unfolding text_eq
not_empty [] h = absurd (omega (arith, h))
not_empty (c ∷ s) h = refl

or_true : (x y : Bool) → (x || true || y) ≡ true
or_true true y = refl
or_true false y = refl

module _ (dir : Text) (open_error : Text → Option Text)
    (opens : (path : Text) → open_error path ≡ none) where
  -- A block of another bucket than the last one goes to the file with the index zero.
  write_changed :
      (b : BucketWriter) (addr block : Text)
      → text_eq (bucket_for addr) b.cur_bucket ≡ false
      → (b' : BucketWriter) × (write dir open_error b addr block
          ≡ ok (b', file_path dir (bucket_for addr) 0))
        × (b'.cur_bucket ≡ bucket_for addr)
  unfolding write open_file opened write_to append_block
  write_changed b addr block h = (
    _,
    ap
          (λ (t : Bool).
            write_to dir open_error
              (if not b.cur_open || not t || leb split_soft_cap b.cur_written
                then open_file dir open_error b bucket (if not t then 0 else suc b.cur_index)
                else ok b)
              block)
          h
        ∙ ap
            (λ (t : Bool).
              write_to dir open_error (if t then open_file dir open_error b bucket 0 else ok b)
                block)
            (or_true (not b.cur_open) (leb split_soft_cap b.cur_written))
        ∙ ap (λ o. write_to dir open_error (opened dir open_error o (close_open b) bucket 0) block)
            (opens (file_path dir bucket 0)),
    refl,
  )
    where
      bucket : Text
      bucket = bucket_for addr

  module _ (first second block : Text) where
    -- Functions of two buckets, one after the other, `n` times.
    abbrev pub alternate : ℕ → BucketWriter → Result Text BucketWriter
    alternate zero b = ok b
    alternate (suc n) b =
        and_then (write dir open_error b first block)
          (λ x. and_then (write dir open_error x.0 second block) (λ y. alternate n y.0))

    abbrev first_file : BucketWriter → Text
    first_file b = final_content b (file_path dir (bucket_for first) 0)

    at_itself : (path : Text) → if_at path path block ≡ block
    at_itself path = ap (λ (t : Bool). if t then block else []) (text_eq_refl path)

    -- What a write to the bucket of `first` adds to its file, and what no write takes from it.
    grows :
        (b b' : BucketWriter) (addr rel : Text)
        → write dir open_error b addr block ≡ ok (b', rel)
        → length (first_file b) + length (if_at rel (file_path dir (bucket_for first) 0) block)
          ≤ length (first_file b')
    grows b b' addr rel e =
        let path = file_path dir (bucket_for first) 0 in
        let same = subst (Appends b block) e (write-Appends dir open_error b addr block) path in
        omega (
          arith,
          ap length same,
          length-append (final_content b path) (if_at rel path (block ++ line_end block)),
          shorter (text_eq rel path),
        )
      where
        shorter :
            (t : Bool)
            → length (if t then block else []) ≤ length (if t then block ++ line_end block else [])
        shorter true = omega (arith, length-append block (line_end block))
        shorter false = omega arith

    alternate-grows :
        (n : ℕ) (b : BucketWriter)
        → text_eq (bucket_for first) (bucket_for second) ≡ false
        → text_eq (bucket_for second) (bucket_for first) ≡ false
        → text_eq (bucket_for first) b.cur_bucket ≡ false
        → (b' : BucketWriter) × (alternate n b ≡ ok b')
          × (length (first_file b) + n * length block ≤ length (first_file b'))
    unfolding and_then
    alternate-grows zero b h k c = (b, refl, omega arith)
    alternate-grows (suc n) b h k c =
        let (b1, e1, c1) = write_changed b first block c in
        let (b2, e2, c2) =
          write_changed b1 second block
            (subst (λ t. text_eq (bucket_for second) t ≡ false) (sym c1) k) in
        let (b', e, g) =
          alternate-grows n b2 h k (subst (λ t. text_eq (bucket_for first) t ≡ false) (sym c2) h) in
        (
          b',
          ap
                (λ r.
                  and_then r
                    (λ x. and_then (write dir open_error x.0 second block) (λ y. alternate n y.0)))
                e1
              ∙ ap (λ r. and_then r (λ y. alternate n y.0)) e2
              ∙ e,
          omega (
            arith,
            grows b b1 first (file_path dir (bucket_for first) 0) e1,
            ap length (at_itself (file_path dir (bucket_for first) 0)),
            grows b1 b2 second (file_path dir (bucket_for second) 0) e2,
            suc-mul n (length block),
            g,
          ),
        )

    -- If the functions of a file alternate between two buckets, every one goes to the file with the
    -- index zero of its bucket, so that this file gets as long as there are functions, whatever
    -- splitSoftCap is.
    pub write_unbounded :
        (n : ℕ)
        → text_eq (bucket_for first) (bucket_for second) ≡ false
        → text_eq (bucket_for second) (bucket_for first) ≡ false
        → (b' : BucketWriter) × (alternate n (new_bucket_writer []) ≡ ok b')
          × (n * length block ≤ length (final_content b' (file_path dir (bucket_for first) 0)))
    unfolding new_bucket_writer
    write_unbounded n h k =
        let (b', e, g) =
          alternate-grows n (new_bucket_writer []) h k
            (not_empty (bucket_for first) (bucket_for-IsLowerHex first).0) in
        (b', e, omega (arith, g))
