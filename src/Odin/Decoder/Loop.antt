-- ===== src/Odin/Decoder/Loop.antt =====
-- The loop of `run` in internal/odin/decoder.go, whatever blob it is given.
use morgue.Common.{
  ℕ, zero, suc, ◌+◌, ◌-◌, ◌≤◌, ◌≡◌, refl, sym, ap, ◌∙◌, inl, inr, List, [], ◌∷◌, ◌++◌, true, false,
  Bool-cases, Option, none, some, Bytes, Result, ok, err, All, length, length-append, ◌==◌,
  if◌then◌else◌, ℤ, pos, arith, subst,
}
use morgue.Cursor.{Cursor}
use morgue.Cursor.Ensures.{
  Ensures, Outcome, IsInside, done, stopped, Ensures-pure, Ensures-mono, Ensures-bind,
}
use morgue.Odin.Reader.{Panic, end}
use morgue.Odin.Reader.Moves.{
  Anything, Ensures-byte, Ensures-sbyte, Ensures-int16, Ensures-uint16, Ensures-int32,
  Ensures-uint32, Ensures-int64, Ensures-uint64, Ensures-single, Ensures-double, Ensures-char,
  Ensures-string,
}
use morgue.Odin.Decoder.{
  raw, uint8, Tok, Decoder, new_decoder, Handler, cases, select, round, continue, run_loop, decode,
}
use morgue.Odin.Decoder.Tokens.{
  depth_at, depth_after, Added, same, one, Adds, start_reference_node-Adds, start_struct_node-Adds,
  close_node-Adds, close_array-Adds, start_array-Adds, primitive_array-Adds, add_val-Added,
  value_case-Adds, as_value-any, placeholder-any, read_guid_hex-any, stray_type_name-Adds,
  stray_type_id-Adds, unnamed_internal_reference-Adds,
}

flat : (z : ℤ) → (z ≡ z) × (z ≡ z)
flat z = (refl, refl)

infixr 4 ◌&◌
abbrev ◌&◌ : {A B : Type 0} → A → B → A × B
a & b = (a, b)

cases-Adds : All (λ (c : ℕ × Handler). Adds c.1) cases
unfolding cases
cases-Adds =
    start_reference_node-Adds true
    & start_reference_node-Adds false
    & start_struct_node-Adds true
    & start_struct_node-Adds false
    & close_node-Adds
    & start_array-Adds
    & close_array-Adds
    & primitive_array-Adds
    & value_case-Adds _ _ true flat (as_value-any _ _ Ensures-int32)
    & unnamed_internal_reference-Adds
    & value_case-Adds _ _ true flat (as_value-any _ _ Ensures-int32)
    & value_case-Adds _ _ false flat (as_value-any _ _ Ensures-int32)
    & value_case-Adds _ _ true flat (as_value-any _ _ read_guid_hex-any)
    & value_case-Adds _ _ false flat (as_value-any _ _ read_guid_hex-any)
    & value_case-Adds _ _ true flat (as_value-any _ _ Ensures-sbyte)
    & value_case-Adds _ _ false flat (as_value-any _ _ Ensures-sbyte)
    & value_case-Adds _ _ true flat (as_value-any _ _ Ensures-byte)
    & value_case-Adds _ _ false flat (as_value-any _ _ Ensures-byte)
    & value_case-Adds _ _ true flat (as_value-any _ _ Ensures-int16)
    & value_case-Adds _ _ false flat (as_value-any _ _ Ensures-int16)
    & value_case-Adds _ _ true flat (as_value-any _ _ Ensures-uint16)
    & value_case-Adds _ _ false flat (as_value-any _ _ Ensures-uint16)
    & value_case-Adds _ _ true flat (as_value-any _ _ Ensures-int32)
    & value_case-Adds _ _ false flat (as_value-any _ _ Ensures-int32)
    & value_case-Adds _ _ true flat (as_value-any _ _ Ensures-uint32)
    & value_case-Adds _ _ false flat (as_value-any _ _ Ensures-uint32)
    & value_case-Adds _ _ true flat (as_value-any _ _ Ensures-int64)
    & value_case-Adds _ _ false flat (as_value-any _ _ Ensures-int64)
    & value_case-Adds _ _ true flat (as_value-any _ _ Ensures-uint64)
    & value_case-Adds _ _ false flat (as_value-any _ _ Ensures-uint64)
    & value_case-Adds _ _ true flat (as_value-any _ _ Ensures-single)
    & value_case-Adds _ _ false flat (as_value-any _ _ Ensures-single)
    & value_case-Adds _ _ true flat (as_value-any _ _ Ensures-double)
    & value_case-Adds _ _ false flat (as_value-any _ _ Ensures-double)
    & value_case-Adds _ _ true flat placeholder-any
    & value_case-Adds _ _ false flat placeholder-any
    & value_case-Adds _ _ true flat (as_value-any _ _ Ensures-char)
    & value_case-Adds _ _ false flat (as_value-any _ _ Ensures-char)
    & value_case-Adds _ _ true flat (as_value-any _ _ Ensures-string)
    & value_case-Adds _ _ false flat (as_value-any _ _ Ensures-string)
    & value_case-Adds _ _ true flat placeholder-any
    & value_case-Adds _ _ false flat placeholder-any
    & value_case-Adds _ _ true flat (as_value-any _ _ Ensures-byte)
    & value_case-Adds _ _ false flat (as_value-any _ _ Ensures-byte)
    & value_case-Adds _ _ true flat (Ensures-pure Anything tt)
    & value_case-Adds _ _ false flat (Ensures-pure Anything tt)
    & stray_type_name-Adds
    & stray_type_id-Adds
    & value_case-Adds _ _ false flat (Ensures-pure Anything tt)
    & value_case-Adds _ _ true flat (as_value-any _ _ Ensures-string)
    & value_case-Adds _ _ false flat (as_value-any _ _ Ensures-string)
    & tt

select-Adds : (t : ℕ) (cs : List (ℕ × Handler)) → All (λ c. Adds c.1) cs → Adds (select t cs)
unfolding select
select-Adds t [] h = λ d. Ensures-pure _ (add_val-Added raw [] (uint8 t) d _ flat)
select-Adds t ((tag, handler) ∷ rest) (h, hs) = elim (Bool-cases (t == tag)) [
  | inl e ↦ subst (λ b. Adds (if b then handler else select t rest)) (sym e) h
  | inr e ↦ subst (λ b. Adds (if b then handler else select t rest)) (sym e) (select-Adds t rest hs)
]

round-Adds : (d : Decoder) → Ensures (λ d' n. Added d d' (n - 1) × (1 ≤ n)) (round d)
unfolding round
round-Adds d = Ensures-bind _ _ _ Ensures-byte λ t n h.
    Ensures-mono _ (λ d' m a. (subst (Added d d') (omega (arith, h)) a, omega (arith, h)))
      (select-Adds t cases cases-Adds d)

abbrev pub raw_total : List Tok → ℕ
raw_total [] = 0
raw_total (t ∷ ts) = length t.raw_arr + raw_total ts

-- Each token stands at the depth that those before it give, from `z` on; `z'` is the depth behind them.
abbrev pub Consistent : ℤ → List Tok → ℤ → Type 0
Consistent z [] z' = z' ≡ z
Consistent z (t ∷ ts) z' = (t.depth ≡ depth_at t.kind z) × Consistent (depth_after t.kind z) ts z'

Consistent-append :
    (z z' : ℤ) (ts : List Tok) (t : Tok) {z'' : ℤ}
    → Consistent z ts z'
    → t.depth ≡ depth_at t.kind z'
    → z'' ≡ depth_after t.kind z'
    → Consistent z (ts ++ t ∷ []) z''
Consistent-append z z' [] t h e e' = (e ∙ ap (depth_at t.kind) h, e' ∙ ap (depth_after t.kind) h)
Consistent-append z z' (u ∷ ts) t (h, hs) e e' =
    (h, Consistent-append (depth_after u.kind z) z' ts t hs e e')

raw_total-append :
    (ts : List Tok) (t : Tok) → raw_total (ts ++ t ∷ []) ≡ raw_total ts + length t.raw_arr
raw_total-append [] t = omega arith
raw_total-append (u ∷ ts) t = omega (arith, raw_total-append ts t)

-- A decoder that has read `n` bytes.
pub record IsDecoded (d : Decoder) (n : ℕ) : Type 0 where
  pub consistent : Consistent (pos 0) d.toks d.depth
  pub size : length d.toks + raw_total d.toks ≤ n

Added-IsDecoded :
    (d d' : Decoder) (n k m : ℕ) → IsDecoded d m → Added d d' k → k + 1 ≤ n → IsDecoded d' (m + n)
Added-IsDecoded d d' n k m v (same e e') h = record {
  consistent =
      subst (λ ts. Consistent (pos 0) ts d'.depth) (sym e)
        (subst (Consistent (pos 0) d.toks) (sym e') v.consistent);
  size = subst (λ ts. length ts + raw_total ts ≤ m + n) (sym e) (omega (arith, v.size));
}
Added-IsDecoded d d' n k m v (one t e r z z') h = record {
  consistent =
      subst (λ ts. Consistent (pos 0) ts d'.depth) (sym e)
        (Consistent-append (pos 0) d.depth d.toks t v.consistent z z');
  size =
      subst (λ ts. length ts + raw_total ts ≤ m + n) (sym e)
        (omega (arith, v.size, r, raw_total-append d.toks t, length-append d.toks (t ∷ [])));
}

-- The loop has ended, with a panic or a decoder that has read `n` bytes.
pub data Ended (n : ℕ) : Option (Result Panic Decoder) → Type 0 where
  finished : {d : Decoder} → IsDecoded d n → Ended n (some (ok d))
  panicked : (e : Panic) → Ended n (some (err e))

module _ (d : Decoder) (r : Cursor) (v : IsDecoded d r.pos) (i : IsInside r) where
  at_end :
      (x : Option (Result Panic Decoder))
      → end r ≡ true
      → Ended (length r.bytes) (if end r then some (ok d) else x)
  at_end x e =
      subst (λ b. Ended (length r.bytes) (if b then some (ok d) else x)) (sym e)
        (finished (record { consistent = v.consistent; size = omega (arith, v.size) }))

  not_at_end :
      {x : Option (Result Panic Decoder)}
      → end r ≡ false
      → Ended (length r.bytes) x
      → Ended (length r.bytes) (if end r then some (ok d) else x)
  not_at_end {x} e h = subst (λ b. Ended (length r.bytes) (if b then some (ok d) else x)) (sym e) h

run_loop-Ended :
    (fuel : ℕ) (d : Decoder) (r : Cursor)
    → IsDecoded d r.pos
    → IsInside r
    → length r.bytes ≤ fuel + r.pos
    → Ended (length r.bytes) (run_loop fuel d r)
unfolding run_loop
run_loop-Ended zero d r v i h = at_end d r v i none (unfold end in ground arith)
run_loop-Ended (suc fuel) d r v i h = elim (Bool-cases (end r)) [
  | inl e ↦ at_end d r v i _ e
  | inr e ↦
      not_at_end d r v i e (go (λ d' r'. run_loop-Ended fuel d' r') ((round-Adds d).ensures r i))
]
  where
    go :
        ((d' : Decoder) (r' : Cursor)
          → IsDecoded d' r'.pos
          → IsInside r'
          → length r'.bytes ≤ fuel + r'.pos
          → Ended (length r'.bytes) (run_loop fuel d' r'))
        → {x : Result Panic (Decoder × Cursor)} → Outcome (λ d' n. Added d d' (n - 1) × (1 ≤ n)) r x
        → Ended (length r.bytes) (continue (run_loop fuel) x)
    go ih (stopped e) = panicked e
    go ih (done {a = d'} {r' = r'} n a e j) =
        let moved : r'.pos ≡ r.pos + n = ap (λ (c : Cursor). c.pos) e in
        let held : r'.bytes ≡ r.bytes = ap (λ (c : Cursor). c.bytes) e in
        subst (λ b. Ended (length b) (run_loop fuel d' r')) held
          (ih d' r'
            (subst (IsDecoded d') (sym moved)
              (Added-IsDecoded d d' n (n - 1) r.pos v a.0 (omega (arith, a.1))))
            j (omega (arith, moved, ap length held, a.1)))

Ended-total :
    (n : ℕ) (o : Option (Result Panic Decoder))
    → Ended n o
    → (x : Result Panic Decoder) × (o ≡ some x)
Ended-total n _ (finished {d} v) = (ok d, refl)
Ended-total n _ (panicked e) = (err e, refl)

Ended-ok :
    (n : ℕ) (o : Option (Result Panic Decoder)) (d : Decoder)
    → Ended n o
    → o ≡ some (ok d)
    → IsDecoded d n
Ended-ok n _ d (finished v) e = subst (λ d'. IsDecoded d' n) (cc) v
Ended-ok n _ d (panicked p) e = cc

decode-Ended : (blob : Bytes) → Ended (length blob) (decode blob)
unfolding decode
decode-Ended blob =
    run_loop-Ended (length blob) new_decoder (record { bytes = blob; pos = 0 })
      (record { consistent = refl; size = omega arith }) (omega arith) (omega arith)

-- The decoder ends on every blob, with tokens or a panic: a round for each byte is enough.
pub decode_total : (blob : Bytes) → (x : Result Panic Decoder) × (decode blob ≡ some x)
decode_total blob = Ended-total _ _ (decode-Ended blob)

-- Whatever blob it decodes, the tokens stand at the depths that the node and array markers before them
-- give, from 0 on, and there are no more tokens and bytes in their arrays together than the blob has
-- bytes.
pub decode-IsDecoded :
    (blob : Bytes) (d : Decoder) → decode blob ≡ some (ok d) → IsDecoded d (length blob)
decode-IsDecoded blob d e = Ended-ok _ _ d (decode-Ended blob) e
