-- ===== src/Cursor.antt =====
-- A position in a buffer: byteReader (internal/recipe/uasset.go) and reader
-- (internal/odin/reader.go) are this record, and their methods are computations over it.
pub mod Words
pub mod Reads
pub mod Ensures
use morgue.Common.{
  ℕ, zero, suc, ◌+◌, ◌*◌, ◌<◌, List, [], ◌∷◌, Bytes, Result, ok, err, length, take, drop, ltb,
  if◌then◌else◌, map_err,
}

pub record Cursor : Type 0 where
  pub bytes : Bytes
  pub pos : ℕ

-- A method that can fail with an `E`, and else returns an `A` and moves the cursor.
abbrev pub Run {ℓ κ} : Type ℓ → Type κ → Type (ℓ ⊔ κ)
Run E A = Cursor → Result E (A × Cursor)

unfoldable pub pure {ℓ κ} : {E : Type ℓ} {A : Type κ} → A → Run E A
pure a r = ok (a, r)

unfoldable pub fail {ℓ κ} : {E : Type ℓ} {A : Type κ} → E → Run E A
fail e r = err e

module _ {ℓ κ κ'} {E : Type ℓ} {A : Type κ} {B : Type κ'} where
  infixl 5 ◌>>=◌ ◌>>◌
  unfoldable pub ◌>>=◌ : Run E A → (A → Run E B) → Run E B
  ◌>>=◌ m f r = elim (m r) [ err e ↦ err e | ok (a, r') ↦ f a r' ]

  unfoldable pub ◌>>◌ : Run E A → Run E B → Run E B
  ◌>>◌ m k r = elim (m r) [ err e ↦ err e | ok (a, r') ↦ k r' ]

-- `fmt.Errorf("…: %w", err)` around the error of a call.
unfoldable pub wrapped {ℓ κ} : {E : Type ℓ} {A : Type κ} → (E → E) → Run E A → Run E A
wrapped f m r = map_err f (m r)

abbrev pub advance : ℕ → Cursor → Cursor
advance n r = record r { pos = r.pos + n }

-- `b[pos : pos+n]`, which the callers have checked to lie in the buffer, and `pos += n`.
unfoldable pub fetch {ℓ} : {E : Type ℓ} → ℕ → Run E Bytes
fetch n r = ok (take n (drop r.pos r.bytes), advance n r)

-- A loop of `n` rounds counted from `i`, which appends the result of each round to a list.
unfoldable pub repeat {ℓ κ} : {E : Type ℓ} {A : Type κ} → (ℕ → Run E A) → ℕ → ℕ → Run E (List A)
repeat step zero i = pure []
repeat step (suc n) i = do a ← step i; rest ← repeat step n (i + 1); pure (a ∷ rest)

-- A run to look at: what it computes to unfolds the operations above.
unfoldable pub run {ℓ κ} : {E : Type ℓ} {A : Type κ} → Run E A → Cursor → Result E (A × Cursor)
unfolding pure fail ◌>>=◌ ◌>>◌ wrapped fetch repeat
run p r = p r
