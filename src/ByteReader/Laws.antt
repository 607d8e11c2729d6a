-- ===== src/ByteReader/Laws.antt =====
-- The methods of byteReader (internal/recipe/uasset.go), on input that is written for them and on any.
use native.Mathlib.Decide.{dec_le}
use morgue.Common.{
  ℕ, ◌+◌, ◌^◌, ◌≤◌, ◌<◌, ◌≡◌, refl, ◌++◌, Bytes, length, length-append, ℤ, Fits, unsigned,
  unsigned-lt, signed-unsigned, arith, ◌∙◌, ok, err, subst, sym, ap, signed,
}
use morgue.Cursor.{Cursor, ◌>>=◌, ◌>>◌, fetch, pure}
use morgue.Cursor.Words.{
  little_endian, word_bytes, length-word_bytes, little_endian-word_bytes, int32_bytes,
}
use morgue.Cursor.Reads.{Reads, between, Reads-fetch, Reads-map, advance-between, then_ok, then_err}
use morgue.Cursor.Ensures.{
  Ensures, Outcome, done, stopped, Ensures-fetch, Ensures-bind, Ensures-pure,
}
use morgue.ByteReader.{
  Error, Read, past_end, need, take_bytes, move, skip, uint8, uint16, uint32, uint64, int32,
}

need_ok : (r : Cursor) (n : ℕ) → r.pos + n ≤ length r.bytes → need n r ≡ ok (tt, r)
unfolding need
need_ok r n h = ground arith

inside_between : (front bs rest : Bytes) → length front + length bs ≤ length (front ++ (bs ++ rest))
inside_between front bs rest =
    omega (arith, length-append front (bs ++ rest), length-append bs rest)

pub Reads-take_bytes : (bs : Bytes) → Reads (take_bytes (length bs)) bs bs
unfolding take_bytes
Reads-take_bytes bs = record {
  reads = λ front rest.
      then_ok _ _ (need_ok (between front (bs ++ rest)) (length bs) (inside_between front bs rest))
      ∙ (Reads-fetch bs).reads front rest;
}

pub Reads-skip : (n : ℕ) (bs : Bytes) → length bs ≡ n → Reads (skip n) bs tt
unfolding skip move
Reads-skip n bs h =
    subst (λ k. Reads (need k >> move k) bs tt) h
      (record {
        reads = λ front rest.
            then_ok _ (move (length bs))
              (need_ok (between front (bs ++ rest)) (length bs) (inside_between front bs rest))
            ∙ ap (λ r. ok (tt, r)) (advance-between front bs rest);
      })

-- The bytes of a word, read by the method for its width.
Reads-word {κ} :
    {A : Type κ} (f : ℕ → A) (k v : ℕ)
    → v < 256 ^ k
    → Reads (take_bytes k >>= λ b. pure (f (little_endian b))) (word_bytes k v) (f v)
Reads-word f k v h =
    subst (λ n. Reads (take_bytes n >>= λ b. pure (f (little_endian b))) (word_bytes k v) (f v))
      (length-word_bytes k v)
      (subst
        (λ w.
          Reads (take_bytes (length (word_bytes k v)) >>= λ b. pure (f (little_endian b)))
            (word_bytes k v) (f w))
        (little_endian-word_bytes k v h)
        (Reads-map (λ b. f (little_endian b)) (Reads-take_bytes (word_bytes k v))))

pub Reads-uint8 : (v : ℕ) → v < 256 → Reads uint8 (word_bytes 1 v) v
unfolding uint8
Reads-uint8 v h = Reads-word (λ n. n) 1 v h

pub Reads-uint16 : (v : ℕ) → v < 2 ^ 16 → Reads uint16 (word_bytes 2 v) v
unfolding uint16
Reads-uint16 v h = Reads-word (λ n. n) 2 v h

pub Reads-uint32 : (v : ℕ) → v < 2 ^ 32 → Reads uint32 (word_bytes 4 v) v
unfolding uint32
Reads-uint32 v h = Reads-word (λ n. n) 4 v h

pub Reads-uint64 : (v : ℕ) → v < 2 ^ 64 → Reads uint64 (word_bytes 8 v) v
unfolding uint64
Reads-uint64 v h = Reads-word (λ n. n) 8 v h

pub Reads-int32 : (z : ℤ) → Fits (2 ^ 31) z → Reads int32 (int32_bytes z) z
unfolding int32
Reads-int32 z h =
    subst (Reads int32 (int32_bytes z)) (signed-unsigned (2 ^ 31) z h)
      (Reads-word (signed (2 ^ 31)) 4 (unsigned (2 ^ 31) z) (unsigned-lt (2 ^ 31) z h))

need_err : (r : Cursor) (n : ℕ) → length r.bytes < r.pos + n → (e : Error) × (need n r ≡ err e)
unfolding need
need_err r n h = (past_end r.pos n (length r.bytes), ground arith)

-- What follows `need(n)` runs where the next `n` bytes lie in the buffer.
Ensures-need {κ μ} :
    {A : Type κ} (P : A → ℕ → Type μ) (n : ℕ) (q : Read A)
    → ((r : Cursor) → r.pos + n ≤ length r.bytes → Outcome P r (q r))
    → Ensures P (need n >> q)
Ensures-need P n q h = record {
  ensures = λ r i. elim (dec_le (r.pos + n) (length r.bytes)) [
    | yes fits ↦ subst (Outcome P r) (sym (then_ok (need n) q (need_ok r n fits))) (h r fits)
    | no short ↦
        let (e, failed) = need_err r n (omega arith) in
        subst (Outcome P r) (sym (then_err (need n) q failed)) (stopped e)
  ];
}

pub Ensures-take_bytes : (n : ℕ) → Ensures (λ bs m. (length bs ≡ n) × (m ≡ n)) (take_bytes n)
unfolding take_bytes
Ensures-take_bytes n = Ensures-need _ n (fetch n) (Ensures-fetch n)

-- A skip moves by its argument, or fails.
pub Ensures-skip : (n : ℕ) → Ensures (λ _ m. m ≡ n) (skip n)
unfolding skip move
Ensures-skip n = Ensures-need _ n (move n) (λ r fits. done n refl refl fits)

Ensures-word {κ} :
    {A : Type κ} (k : ℕ) (f : Bytes → A) → Ensures (λ _ m. m ≡ k) (take_bytes k >>= λ b. pure (f b))
Ensures-word k f =
    Ensures-bind (λ bs m. (length bs ≡ k) × (m ≡ k)) _ _ (Ensures-take_bytes k)
      λ bs m h. Ensures-pure _ (omega (arith, h.1))

pub Ensures-uint8 : Ensures (λ _ m. m ≡ 1) uint8
unfolding uint8
Ensures-uint8 = Ensures-word 1 little_endian

pub Ensures-uint16 : Ensures (λ _ m. m ≡ 2) uint16
unfolding uint16
Ensures-uint16 = Ensures-word 2 little_endian

pub Ensures-uint32 : Ensures (λ _ m. m ≡ 4) uint32
unfolding uint32
Ensures-uint32 = Ensures-word 4 little_endian

pub Ensures-uint64 : Ensures (λ _ m. m ≡ 8) uint64
unfolding uint64
Ensures-uint64 = Ensures-word 8 little_endian

pub Ensures-int32 : Ensures (λ _ m. m ≡ 4) int32
unfolding int32
Ensures-int32 = Ensures-word 4 (λ b. signed (2 ^ 31) (little_endian b))
