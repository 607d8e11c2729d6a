-- ===== src/Csplit/Buckets/Contents.antt =====
-- What the split files of internal/recipe/csplit.go hold: the writer only appends.
use morgue.Common.{
  ℕ, ◌≡◌, refl, sym, ap, ◌∙◌, [], ◌∷◌, ◌++◌, append_assoc, append-nil, Bool, true, false, not, ◌||◌,
  Option, none, some, Result, ok, err, inl, inr, Bool-cases, branches, leb, text_eq, text_eq→eq,
  text_eq_refl, true-false, ◌⊎◌, if◌then◌else◌, suc,
}
use morgue.Csplit.Text.{Text}
use morgue.Csplit.Buckets.{
  Files, content, append_file, BucketWriter, close_open, append_block, line_end, open_file,
  write_to, write, opened, split_soft_cap, bucket_for, file_path,
}

-- A file's content once the writer is closed.
unfoldable pub final_content : BucketWriter → Text → Text
final_content b path = content path (close_open b).files

abbrev pub if_at : Text → Text → Text → Text
if_at rel path s = if text_eq rel path then s else []

content-append_file :
    (path rel s : Text) (files : Files)
    → content path (append_file rel s files) ≡ content path files ++ if_at rel path s
unfolding content append_file
content-append_file path rel s [] = refl
content-append_file path rel s ((p, c) ∷ files) = elim (Bool-cases (text_eq p rel)) [
  | inl e ↦
      ap (λ (b : Bool). content path (if b then (p, c ++ s) ∷ files else (p, c) ∷ rest)) e
      ∙ here (text_eq p path)
      ∙ ap (λ q. (if text_eq p path then c else content path files) ++ if_at q path s)
          (text_eq→eq p rel e)
  | inr e ↦
      ap (λ (b : Bool). content path (if b then (p, c ++ s) ∷ files else (p, c) ∷ rest)) e
      ∙ elsewhere e (Bool-cases (text_eq p path)) (content-append_file path rel s files)
]
  where
    rest : Files
    rest = append_file rel s files

    here :
        (b : Bool)
        → (if b then c ++ s else content path files)
          ≡ (if b then c else content path files) ++ (if b then s else [])
    here true = refl
    here false = sym (append-nil (content path files))

    apart : text_eq p rel ≡ false → text_eq p path ≡ true → text_eq rel path ≡ false
    apart n e = elim (Bool-cases (text_eq rel path)) [
      | inl h ↦ absurd (
          true-false (
            sym (text_eq_refl p)
            ∙ ap (text_eq p) (text_eq→eq p path e ∙ sym (text_eq→eq rel path h))
            ∙ n))
      | inr h ↦ h
    ]

    elsewhere :
        text_eq p rel ≡ false
        → (text_eq p path ≡ true) ⊎ (text_eq p path ≡ false)
        → content path rest ≡ content path files ++ if_at rel path s
        → (if text_eq p path then c else content path rest)
          ≡ (if text_eq p path then c else content path files) ++ if_at rel path s
    elsewhere n (inl e) later =
        ap (λ (b : Bool). if b then c else content path rest) e
        ∙ sym (append-nil c)
        ∙ ap (λ (b : Bool). c ++ (if b then s else [])) (sym (apart n e))
        ∙ ap (λ (b : Bool). (if b then c else content path files) ++ if_at rel path s) (sym e)
    elsewhere n (inr e) later =
        ap (λ (b : Bool). if b then c else content path rest) e
        ∙ later
        ∙ ap (λ (b : Bool). (if b then c else content path files) ++ if_at rel path s) (sym e)

if_at_append :
    (rel path s t : Text) → if_at rel path (s ++ t) ≡ if_at rel path s ++ if_at rel path t
if_at_append rel path s t = by_test (text_eq rel path)
  where
    by_test :
        (b : Bool) → (if b then s ++ t else []) ≡ (if b then s else []) ++ (if b then t else [])
    by_test true = refl
    by_test false = refl

final_content-append_block :
    (b : BucketWriter) (block path : Text)
    → b.cur_open ≡ true
    → final_content (append_block b block) path
      ≡ final_content b path ++ if_at b.cur_rel path (block ++ line_end block)
unfolding final_content append_block close_open
final_content-append_block b block path h =
    ap
      (λ (o : Bool).
        content path
          (closing o (b.cur_buf ++ (block ++ line_end block))
            (append_block b block).cur_written).files)
      h
    ∙ content-append_file path b.cur_rel (b.cur_buf ++ (block ++ line_end block)) b.files
    ∙ ap (λ s. content path b.files ++ s)
        (if_at_append b.cur_rel path b.cur_buf (block ++ line_end block))
    ∙ sym (
        append_assoc (content path b.files) (if_at b.cur_rel path b.cur_buf)
          (if_at b.cur_rel path (block ++ line_end block)))
    ∙ ap (λ s. s ++ if_at b.cur_rel path (block ++ line_end block))
        (sym (content-append_file path b.cur_rel b.cur_buf b.files)
          ∙ sym (ap (λ (o : Bool). content path (closing o b.cur_buf b.cur_written).files) h))
  where
    closing : Bool → Text → ℕ → BucketWriter
    closing o s n = close_open (record b { cur_open = o; cur_buf = s; cur_written = n })

-- A writer that has just opened a file has the contents of the files that it was given.
Same : BucketWriter → Result Text BucketWriter → Type 0
Same b (err e) = Unit
Same b (ok b') =
    (b'.cur_open ≡ true) × ((path : Text) → final_content b' path ≡ final_content b path)

-- Where a block goes: the contents before, and the block behind that of its file.
abbrev pub Appends : BucketWriter → Text → Result Text (BucketWriter × Text) → Type 0
Appends b block (err e) = Unit
Appends b block (ok (b', rel)) =
    (path : Text)
    → final_content b' path ≡ final_content b path ++ if_at rel path (block ++ line_end block)

module _ (dir : Text) (open_error : Text → Option Text) where
  opened-Same :
      (o : Option Text) (b : BucketWriter) (bucket : Text) (index : ℕ)
      → Same b (opened dir open_error o (close_open b) bucket index)
  unfolding opened Same final_content close_open
  opened-Same (some e) b bucket index = tt
  opened-Same none b bucket index = (
    refl,
    λ path.
        content-append_file path (file_path dir bucket index) [] (close_open b).files
        ∙ ap (λ s. content path (close_open b).files ++ s)
            (nothing (text_eq (file_path dir bucket index) path))
        ∙ append-nil (content path (close_open b).files),
  )
    where
      nothing : (t : Bool) → if◌then◌else◌ {A = Text} t [] [] ≡ []
      nothing true = refl
      nothing false = refl

  write_to-Appends :
      (b : BucketWriter) (r : Result Text BucketWriter) (block : Text)
      → Same b r
      → Appends b block (write_to dir open_error r block)
  unfolding write_to Same
  write_to-Appends b (err e) block h = tt
  write_to-Appends b (ok b') block (opens, same) = λ path.
      final_content-append_block b' block path opens
      ∙ ap (λ s. s ++ if_at b'.cur_rel path (block ++ line_end block)) (same path)

  -- A write that succeeds appends its block to the file whose path it returns, with a line end if it
  -- has none, and no file loses anything, whichever files are opened, closed and opened again.
  pub write-Appends :
      (b : BucketWriter) (addr block : Text) → Appends b block (write dir open_error b addr block)
  unfolding write open_file Same
  write-Appends b addr block = write_to-Appends b _ block (
      branches (Same b) (not b.cur_open || changed || leb split_soft_cap b.cur_written)
        (λ _. opened-Same _ b bucket (if changed then 0 else suc b.cur_index))
        (λ e. (was_open b.cur_open changed (leb split_soft_cap b.cur_written) e, λ path. refl)))
    where
      bucket : Text
      bucket = bucket_for addr

      changed : Bool
      changed = not (text_eq bucket b.cur_bucket)

      was_open : (o c full : Bool) → (not o || c || full) ≡ false → o ≡ true
      was_open true c full e = refl
      was_open false c full e = cc
