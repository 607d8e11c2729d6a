-- ===== src/Uasset/RoundTrip.antt =====
-- The name table reader of internal/recipe/uasset.go on a table that is written in its format.
use morgue.Common.{
  ℕ, suc, ◌+◌, ◌-◌, ◌^◌, ◌≤◌, ◌<◌, ◌≡◌, refl, sym, ap, ◌∙◌, subst, List, [], ◌∷◌, ◌++◌, map, Bool,
  true, false, ◌||◌, Option, none, some, Bytes, All, length, length-append, drop_append,
  append_assoc, ltb, le→ltb-false, ◌==◌, if◌then◌else◌, ℤ, pos, negsuc, Fits, unsigned, arith,
}
use morgue.Cursor.Words.{int32_bytes, length-word_bytes}
use morgue.Cursor.Reads.{write_all}
use morgue.Uasset.{
  Text, int32_at, peek_fstring_len, no_length, NameEntry, last_entry, entry, by_next, behind_name,
  entry_of, read_entry, add_name, names_of, read_names, read_name_table,
}
use morgue.Uasset.Written.{
  NameRecord, body_of, write_hash, write_record, IsHash, IsRecord, Tail, Tail-append, Tail-int32_at,
  Tail-plausible, plausible_body-record, body_of-full,
}

-- The loop goes on at `next`, where the tail stands.
record GoesOn (buf : Bytes) (s : Text) (x : NameEntry) (tail : Bytes) : Type 0 where
  next : ℕ
  hash : Bool
  same : x ≡ entry s next hash
  there : Tail buf next tail

peek_fstring_len-Tail :
    (buf : Bytes) (at : ℕ) (z : ℤ) (tail : Bytes)
    → Fits (2 ^ 31) z
    → Tail buf at (int32_bytes z ++ tail)
    → peek_fstring_len buf at ≡ some z
unfolding peek_fstring_len
peek_fstring_len-Tail buf at z tail h t =
    ap (λ (b : Bool). if b then none else some (int32_at buf at)) enough
    ∙ ap some (Tail-int32_at buf at z tail h t)
  where
    enough : ltb (length buf) (at + 4) ≡ false
    enough = le→ltb-false _ _ (
        omega (
          arith,
          t.ends,
          length-append (int32_bytes z) tail,
          length-word_bytes 4 (unsigned (2 ^ 31) z),
        ))

behind_hash :
    (buf : Bytes) (s : Text) (at : ℕ) (z : ℤ) (tail : Bytes)
    → IsHash (some z)
    → Tail buf at (int32_bytes z ++ tail)
    → GoesOn buf s (behind_name buf s at) tail
unfolding behind_name by_next no_length
behind_hash buf s at z tail h t = record {
  next = at + 4;
  hash = true;
  same =
      ap (by_next buf s at) (peek_fstring_len-Tail buf at z tail (fits z h) t)
      ∙ ap (λ (b : Bool). if b then entry s (at + 4) true else entry s at false) (refused z h);
  there =
      subst (λ n. Tail buf (at + n) tail) (length-word_bytes 4 (unsigned (2 ^ 31) z))
        (Tail-append buf at (int32_bytes z) tail t);
}
  where
    fits : (z : ℤ) → IsHash (some z) → Fits (2 ^ 31) z
    fits (pos n) h = omega (arith, h)
    fits (negsuc n) h = omega (arith, h)

    refused : (z : ℤ) → IsHash (some z) → no_length z (length buf - at - 4) ≡ true
    refused (pos n) h = ground (arith, h)
    refused (negsuc n) h = refl

behind_none :
    (buf : Bytes) (s : Text) (at n : ℕ) (tail : Bytes)
    → 1 ≤ n
    → n < 2 ^ 31
    → n ≤ length tail
    → Tail buf at (int32_bytes (pos n) ++ tail)
    → GoesOn buf s (behind_name buf s at) (int32_bytes (pos n) ++ tail)
unfolding behind_name by_next no_length
behind_none buf s at n tail full small room t = record {
  next = at;
  hash = false;
  same =
      ap (by_next buf s at) (peek_fstring_len-Tail buf at (pos n) tail small t)
      ∙ ap (λ (b : Bool). if b then entry s (at + 4) true else entry s at false) accepted;
  there = t;
}
  where
    accepted : (n == 0 || ltb (length buf - at - 4) n) ≡ false
    accepted = ground (
      arith,
      full,
      room,
      t.ends,
      length-append (int32_bytes (pos n)) tail,
      length-word_bytes 4 (unsigned (2 ^ 31) (pos n)),
    )

record_parts :
    (r : NameRecord) (tail : Bytes)
    → write_record r ++ tail
      ≡ int32_bytes (pos (length (body_of r))) ++ (body_of r ++ (write_hash r.hash ++ tail))
unfolding write_record
record_parts r tail =
    append_assoc (int32_bytes (pos (length (body_of r)))) (body_of r ++ write_hash r.hash) tail
    ∙ ap (λ bs. int32_bytes (pos (length (body_of r))) ++ bs)
        (append_assoc (body_of r) (write_hash r.hash) tail)

-- A round of the loop on a record, up to what stands behind the name.
read_entry-record :
    (buf : Bytes) (at : ℕ) (r : NameRecord) (tail : Bytes)
    → IsRecord r
    → Tail buf at (write_record r ++ tail)
    → (behind : ℕ) × (read_entry buf at ≡ behind_name buf r.name behind)
      × Tail buf behind (write_hash r.hash ++ tail)
unfolding read_entry entry_of
read_entry-record buf at r tail v t = (
  at + (4 + n),
  ap (entry_of buf at) (
        Tail-plausible buf at (body_of r) (write_hash r.hash ++ tail) r.name (body_of-full r v)
          v.short (plausible_body-record r v) whole)
      ∙ ap (λ (b : Bool). if b then last_entry r.name else behind_name buf r.name (at + (4 + n)))
          (le→ltb-false _ _ (omega (arith, behind.ends))),
  behind,
)
  where
    n : ℕ
    n = length (body_of r)

    whole : Tail buf at (int32_bytes (pos n) ++ (body_of r ++ (write_hash r.hash ++ tail)))
    whole = subst (Tail buf at) (record_parts r tail) t

    behind : Tail buf (at + (4 + n)) (write_hash r.hash ++ tail)
    behind =
        subst (λ m. Tail buf m (write_hash r.hash ++ tail))
          (omega (arith, length-word_bytes 4 (unsigned (2 ^ 31) (pos n))))
          (Tail-append buf (at + length (int32_bytes (pos n))) (body_of r)
            (write_hash r.hash ++ tail)
            (Tail-append buf at (int32_bytes (pos n)) (body_of r ++ (write_hash r.hash ++ tail))
              whole))

names_of-GoesOn :
    (loop : ℕ → List Text × Bool) (buf : Bytes) (s : Text) (x : NameEntry) (tail : Bytes)
    (ss : List Text)
    → (g : GoesOn buf s x tail) → (loop g.next).0 ≡ ss
    → (names_of loop x).0 ≡ s ∷ ss
unfolding names_of add_name
names_of-GoesOn loop buf s x tail ss g h = ap (λ y. (names_of loop y).0) g.same ∙ ap (λ t. s ∷ t) h

-- The last round has its name, whatever follows.
names_of-last :
    (buf : Bytes) (s : Text) (at : ℕ)
    → (names_of (read_names buf 0) (behind_name buf s at)).0 ≡ s ∷ []
unfolding names_of add_name behind_name by_next read_names
names_of-last buf s at = go (peek_fstring_len buf at)
  where
    go : (o : Option ℤ) → (names_of (read_names buf 0) (by_next buf s at o)).0 ≡ s ∷ []
    go none = refl
    go (some z) = pick (no_length z (length buf - at - 4))
      where
        pick :
            (b : Bool)
            → (names_of
                (read_names buf 0)
                (if b then entry s (at + 4) true else entry s at false)).0
              ≡ s ∷ []
        pick true = refl
        pick false = refl

abbrev tail_of : List NameRecord → Bytes → Bytes
tail_of rs rest = write_all write_record rs ++ rest

read_names-records :
    (buf : Bytes) (rs : List NameRecord) (at : ℕ) (rest : Bytes)
    → All IsRecord rs
    → Tail buf at (tail_of rs rest)
    → (read_names buf (length rs) at).0 ≡ map (λ (r : NameRecord). r.name) rs
unfolding read_names
read_names-records buf [] at rest h t = refl
read_names-records buf (r ∷ rs) at rest (v, h) t =
    let (behind, e, t') =
      read_entry-record buf at r (tail_of rs rest) v
        (subst (Tail buf at) (append_assoc (write_record r) (write_all write_record rs) rest) t) in
    ap (λ x. (names_of (read_names buf (length rs)) x).0) e
    ∙ go r.hash v.hashed rs h behind t' (λ next t''. read_names-records buf rs next rest h t'')
  where
    go :
        (hash : Option ℤ)
        → IsHash hash
        → (rs : List NameRecord) → All IsRecord rs
        → (behind : ℕ) → Tail buf behind (write_hash hash ++ tail_of rs rest)
        → ((next : ℕ)
            → Tail buf next (tail_of rs rest)
            → (read_names buf (length rs) next).0 ≡ map (λ (r : NameRecord). r.name) rs)
        → (names_of (read_names buf (length rs)) (behind_name buf r.name behind)).0
          ≡ r.name ∷ map (λ (r : NameRecord). r.name) rs
    go (some z) hash rs h behind t' ih =
        let g = behind_hash buf r.name behind z (tail_of rs rest) hash t' in
        names_of-GoesOn (read_names buf (length rs)) buf r.name (behind_name buf r.name behind)
          (tail_of rs rest) _ g (ih g.next g.there)
    go none hash [] h behind t' ih = names_of-last buf r.name behind
    go none hash (r2 ∷ rs) (v2, h) behind t' ih =
        let back = body_of r2 ++ (write_hash r2.hash ++ tail_of rs rest) in
        let parts =
          append_assoc (write_record r2) (write_all write_record rs) rest
          ∙ record_parts r2 (tail_of rs rest) in
        let g =
          behind_none buf r.name behind (length (body_of r2)) back (body_of-full r2 v2)
            (omega (arith, v2.short))
            (omega (arith, length-append (body_of r2) (write_hash r2.hash ++ tail_of rs rest)))
            (subst (Tail buf behind) parts t') in
        names_of-GoesOn (read_names buf (suc (length rs))) buf r.name
          (behind_name buf r.name behind) _ _ g
          (ih g.next (subst (Tail buf g.next) (sym parts) g.there))

-- A name table that is written entry by entry, each a name of printable ASCII characters, with a
-- NUL or without, in 1024 bytes at most and not empty, and followed by nothing or by four hash
-- bytes that are zero or negative as an int32, is read back name by name, whatever stands before
-- and behind the table, if as many names are asked for as it has.
pub read_name_table-write :
    (front rest : Bytes) (rs : List NameRecord)
    → All IsRecord rs
    → (read_name_table (front ++ (write_all write_record rs ++ rest)) (length front) (length rs)).0
      ≡ map (λ (r : NameRecord). r.name) rs
unfolding read_name_table
read_name_table-write front rest rs h =
    ap (λ (b : Bool). (if b then ([], false) else read_names buf (length rs) (length front)).0)
      inside
    ∙ read_names-records buf rs (length front) rest h (record {
      dropped = drop_append front (tail_of rs rest);
      ends = omega (arith, length-append front (tail_of rs rest));
    })
  where
    buf : Bytes
    buf = front ++ tail_of rs rest

    inside : ltb (length buf) (length front) ≡ false
    inside = le→ltb-false _ _ (omega (arith, length-append front (tail_of rs rest)))
