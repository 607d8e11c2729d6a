-- ===== src/Uasset/Written.antt =====
-- The format of a name table of an Unreal package, and how the reader of internal/recipe/uasset.go finds
-- one string of it.
use morgue.Common.{
  ℕ, zero, suc, ◌+◌, ◌^◌, ◌≤◌, ◌<◌, ◌≡◌, refl, sym, ap, ◌∙◌, subst, [], ◌∷◌, ◌++◌, Bool, true,
  false, ◌||◌, Option, none, some, Bytes, All, length, length-append, take, drop, take_append,
  drop_append, append-nil, ltb, le→ltb-false, ◌==◌, if◌then◌else◌, ℤ, pos, negsuc, Fits, signed,
  unsigned, signed-unsigned, unsigned-lt, arith,
}
use morgue.Cursor.Words.{little_endian, int32_bytes, length-word_bytes, little_endian-word_bytes}
use morgue.Uasset.{
  Text, int32_at, strip_nul, is_printable, is_empty, plausible_body, with_length,
  plausible_of_length, plausible_fstring_at,
}
use morgue.Uasset.Names.{IsFName}

-- An entry of the table: a name with or without a NUL, and four hash bytes or none.
pub record NameRecord : Type 0 where
  pub name : Text
  pub nul : Bool
  pub hash : Option ℤ

abbrev pub body_of : NameRecord → Bytes
body_of r = r.name ++ (if r.nul then 0 ∷ [] else [])

abbrev pub write_hash : Option ℤ → Bytes
write_hash none = []
write_hash (some z) = int32_bytes z

unfoldable pub write_record : NameRecord → Bytes
write_record r = int32_bytes (pos (length (body_of r))) ++ (body_of r ++ write_hash r.hash)

-- Hash bytes that are no length: as an int32 they are zero or negative.
abbrev pub IsHash : Option ℤ → Type 0
IsHash none = Unit
IsHash (some (pos n)) = n ≡ 0
IsHash (some (negsuc n)) = n < 2 ^ 31

pub record IsRecord (r : NameRecord) : Type 0 where
  pub named : IsFName r.name
  pub short : length (body_of r) ≤ 1024
  pub hashed : IsHash r.hash

-- The buffer from `at` on.
pub record Tail (buf : Bytes) (at : ℕ) (tail : Bytes) : Type 0 where
  pub dropped : drop at buf ≡ tail
  pub ends : at + length tail ≡ length buf

drop_nil : (n : ℕ) → drop {A = ℕ} n [] ≡ []
drop_nil zero = refl
drop_nil (suc n) = refl

drop_add : (m n : ℕ) (xs : Bytes) → drop (m + n) xs ≡ drop n (drop m xs)
drop_add zero n xs = ap (λ k. drop k xs) (omega arith)
drop_add (suc m) n [] = drop_nil (suc m + n) ∙ sym (drop_nil n)
drop_add (suc m) n (x ∷ xs) = ap (λ k. drop k (x ∷ xs)) sum ∙ drop_add m n xs
  where
    sum : suc m + n ≡ suc (m + n)
    sum = omega arith

pub Tail-append :
    (buf : Bytes) (at : ℕ) (bs tail : Bytes)
    → Tail buf at (bs ++ tail)
    → Tail buf (at + length bs) tail
Tail-append buf at bs tail t = record {
  dropped = drop_add at (length bs) buf ∙ ap (drop (length bs)) t.dropped ∙ drop_append bs tail;
  ends = omega (arith, t.ends, length-append bs tail);
}

pub Tail-int32_at :
    (buf : Bytes) (at : ℕ) (z : ℤ) (tail : Bytes)
    → Fits (2 ^ 31) z
    → Tail buf at (int32_bytes z ++ tail)
    → int32_at buf at ≡ z
Tail-int32_at buf at z tail h t =
    ap (λ bs. signed (2 ^ 31) (little_endian (take 4 bs))) t.dropped
    ∙ ap (λ bs. signed (2 ^ 31) (little_endian bs))
        (take_four (int32_bytes z) (length-word_bytes 4 (unsigned (2 ^ 31) z)))
    ∙ ap (signed (2 ^ 31))
        (little_endian-word_bytes 4 (unsigned (2 ^ 31) z) (omega (arith, unsigned-lt (2 ^ 31) z h)))
    ∙ signed-unsigned (2 ^ 31) z h
  where
    take_four : (bs : Bytes) → length bs ≡ 4 → take 4 (bs ++ tail) ≡ bs
    take_four bs e = subst (λ n. take n (bs ++ tail) ≡ bs) e (take_append bs tail)

pub Tail-plausible :
    (buf : Bytes) (at : ℕ) (body tail : Bytes) (s : Text)
    → 1 ≤ length body
    → length body ≤ 1024
    → plausible_body body ≡ some s
    → Tail buf at (int32_bytes (pos (length body)) ++ (body ++ tail))
    → plausible_fstring_at buf at ≡ some (s, 4 + length body)
unfolding plausible_fstring_at plausible_of_length
Tail-plausible buf at body tail s full short good t =
    ap (λ (b : Bool). if b then none else plausible_of_length buf at (int32_at buf at)) enough
    ∙ ap (plausible_of_length buf at)
        (Tail-int32_at buf at (pos (length body)) (body ++ tail) (omega (arith, short)) t)
    ∙ ap
        (λ (b : Bool).
          if b
          then none
          else with_length (length body) (plausible_body (take (length body) (drop (at + 4) buf))))
        fits
    ∙ ap (λ bs. with_length (length body) (plausible_body bs))
        (ap (take (length body)) behind.dropped ∙ take_append body tail)
    ∙ ap (with_length (length body)) good
    ∙ unfold with_length in refl
  where
    size : at + 4 + length body + length tail ≡ length buf
    size = omega (
      arith,
      t.ends,
      length-append (int32_bytes (pos (length body))) (body ++ tail),
      length-append body tail,
      length-word_bytes 4 (unsigned (2 ^ 31) (pos (length body))),
    )

    enough : ltb (length buf) (at + 4) ≡ false
    enough = le→ltb-false _ _ (omega (arith, size))

    fits :
        (length body == 0 || (ltb 1024 (length body) || ltb (length buf) (at + 4 + length body)))
        ≡ false
    fits = ground (arith, size, full, short)

    behind : Tail buf (at + 4) (body ++ tail)
    behind =
        subst (λ n. Tail buf (at + n) (body ++ tail))
          (length-word_bytes 4 (unsigned (2 ^ 31) (pos (length body))))
          (Tail-append buf at (int32_bytes (pos (length body))) (body ++ tail) t)

strip_nul-name : (s : Text) → All (λ c. (32 ≤ c) × (c < 127)) s → strip_nul s ≡ s
unfolding strip_nul
strip_nul-name [] h = refl
strip_nul-name (c ∷ []) (h, tt) = ground (arith, h)
strip_nul-name (c ∷ (d ∷ s)) (h, hs) = ap (λ t. c ∷ t) (strip_nul-name (d ∷ s) hs)

strip_nul-append : (s : Text) → strip_nul (s ++ 0 ∷ []) ≡ s
unfolding strip_nul
strip_nul-append [] = refl
strip_nul-append (c ∷ []) = refl
strip_nul-append (c ∷ (d ∷ s)) = ap (λ t. c ∷ t) (strip_nul-append (d ∷ s))

is_printable-name : (s : Text) → All (λ c. (32 ≤ c) × (c < 127)) s → is_printable s ≡ true
unfolding is_printable
is_printable-name [] h = refl
is_printable-name (c ∷ s) (h, hs) = ground (arith, h, is_printable-name s hs)

is_empty-name : (s : Text) → 1 ≤ length s → is_empty s ≡ false
unfolding is_empty
is_empty-name [] h = ground (arith, h)
is_empty-name (c ∷ s) h = refl

strip_nul-body : (r : NameRecord) → IsRecord r → strip_nul (body_of r) ≡ r.name
strip_nul-body r v = go (r.nul)
  where
    go : (b : Bool) → strip_nul (r.name ++ (if b then 0 ∷ [] else [])) ≡ r.name
    go true = strip_nul-append r.name
    go false = ap strip_nul (append-nil r.name) ∙ strip_nul-name r.name v.named.printable

pub plausible_body-record : (r : NameRecord) → IsRecord r → plausible_body (body_of r) ≡ some r.name
unfolding plausible_body
plausible_body-record r v =
    ap (λ s. if is_empty s then none else if is_printable s then some s else none)
      (strip_nul-body r v)
    ∙ ap (λ (b : Bool). if b then none else if is_printable r.name then some r.name else none)
        (is_empty-name r.name v.named.not_empty)
    ∙ ap (λ (b : Bool). if b then some r.name else none)
        (is_printable-name r.name v.named.printable)

pub body_of-full : (r : NameRecord) → IsRecord r → 1 ≤ length (body_of r)
body_of-full r v =
    omega (arith, v.named.not_empty, length-append r.name (if r.nul then 0 ∷ [] else []))
