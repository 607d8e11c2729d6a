-- ===== src/Odin/Decoder/Tokens.antt =====
-- What each case of the switch of `run` in internal/odin/decoder.go adds to the decoder, whatever blob
-- it reads.
use morgue.Common.{
  ℕ, ◌*◌, ◌≤◌, ◌≡◌, refl, sym, List, [], ◌∷◌, ◌++◌, Bool, true, false, Option, none, some, ok,
  length, get_elem?, ltb, ◌==◌, ℤ, pos, inc, dec, arith, min,
}
use morgue.Cursor.{Cursor}
use morgue.Cursor.Ensures.{
  Ensures, Outcome, Outcome-if, Outcome-same, IsInside, done, stopped, Ensures-pure, Ensures-fail,
  Ensures-if, Ensures-mono, Ensures-bind, Ensures-then, Ensures-repeat,
}
use morgue.Odin.Reader.{Text, Panic, Read, state, end, remaining}
use morgue.Odin.Reader.Moves.{Anything, Ensures-byte, Ensures-int32, Ensures-int64, Ensures-string}
use morgue.Odin.Decoder.{
  Kind, node_start, node_end, array_start, array_end, Value, Tok, Decoder, add_val, type_of_marker,
  read_type, skip_n, read_guid_hex, Handler, open_node, name_of, start_reference_node,
  start_struct_node, close, start_array, raw_byte, read_raw, primitive_array, value_case, as_value,
  placeholder, stray_type_name, stray_type_id, unnamed_internal_reference,
}

-- How a token moves the depth: the depth that it is added at, and the depth behind it.
abbrev pub depth_at : Kind → ℤ → ℤ
depth_at node_end z = dec z
depth_at array_end z = dec z
depth_at _ z = z

abbrev pub depth_after : Kind → ℤ → ℤ
depth_after node_start z = inc z
depth_after array_start z = inc z
depth_after node_end z = dec z
depth_after array_end z = dec z
depth_after _ z = z

-- What a round of `n` bytes makes of a decoder.
pub data Added (d : Decoder) (d' : Decoder) (n : ℕ) : Type 0 where
  same : d'.toks ≡ d.toks → d'.depth ≡ d.depth → Added d d' n
  one :
      (t : Tok)
      → d'.toks ≡ d.toks ++ t ∷ []
      → length t.raw_arr ≤ n
      → t.depth ≡ depth_at t.kind d.depth
      → d'.depth ≡ depth_after t.kind d.depth
      → Added d d' n

abbrev pub Adds : Handler → Type 0
Adds h = (d : Decoder) → Ensures (Added d) (h d)

pub anything {κ} : {A : Type κ} {p : Read A} {P : A → ℕ → Type 0} → Ensures P p → Ensures Anything p
anything h = Ensures-mono _ (λ _ _ _. tt) h

name_of-any : (named : Bool) → Ensures Anything (name_of named)
unfolding name_of
name_of-any true = anything Ensures-string
name_of-any false = Ensures-pure Anything tt

type_of_marker-any : (t : ℕ) (cache : List (ℤ × Text)) → Ensures Anything (type_of_marker t cache)
unfolding type_of_marker
type_of_marker-any t cache =
    Ensures-if _ (t == 0x2F)
      (λ _. Ensures-then Anything _ (anything Ensures-byte) λ _ _ _.
        Ensures-bind Anything _ _ (anything Ensures-int32) λ _ _ _.
          Ensures-bind Anything _ _ (anything Ensures-string) λ _ _ _. Ensures-pure Anything tt)
      λ _.
        Ensures-if _ (t == 0x30)
          (λ _. Ensures-then Anything _ (anything Ensures-byte) λ _ _ _.
            Ensures-bind Anything _ _ (anything Ensures-int32) λ _ _ _. Ensures-pure Anything tt)
          λ _.
            Ensures-if _ (t == 0x2E)
              (λ _.
                Ensures-then Anything _ (anything Ensures-byte) λ _ _ _. Ensures-pure Anything tt)
              λ _. Ensures-pure Anything tt

read_type-any : (cache : List (ℤ × Text)) → Ensures Anything (read_type cache)
unfolding read_type
read_type-any cache = record { ensures = λ r i. go r i (get_elem? r.bytes r.pos) }
  where
    go :
        (r : Cursor)
        → IsInside r
        → (o : Option ℕ)
        → Outcome {E = Panic} {A = Text × List (ℤ × Text)} Anything r
            (elim o [ none ↦ ok (([], cache), r) | some t ↦ type_of_marker t cache r ])
    go r i none = Outcome-same Anything r tt i
    go r i (some t) = (type_of_marker-any t cache).ensures r i

open_node-Added :
    (name ty : Text) (d : Decoder) (cache : List (ℤ × Text)) (n : ℕ)
    → Added d (open_node name ty (record d { type_cache = cache })) n
unfolding open_node
open_node-Added name ty d cache n = one _ refl (omega arith) refl refl

pub start_reference_node-Adds : (named : Bool) → Adds (start_reference_node named)
unfolding start_reference_node
start_reference_node-Adds named d = Ensures-bind Anything _ _ (name_of-any named) λ name n _.
    Ensures-bind Anything _ _ (read_type-any d.type_cache) λ ty m _.
      Ensures-then Anything _ (anything Ensures-int32)
        λ _ k _. Ensures-pure _ (open_node-Added name ty.0 d ty.1 _)

pub start_struct_node-Adds : (named : Bool) → Adds (start_struct_node named)
unfolding start_struct_node
start_struct_node-Adds named d = Ensures-bind Anything _ _ (name_of-any named) λ name n _.
    Ensures-bind Anything _ _ (read_type-any d.type_cache)
      λ ty m _. Ensures-pure _ (open_node-Added name ty.0 d ty.1 _)

pub close_node-Adds : Adds (close node_end)
unfolding close
close_node-Adds d = Ensures-pure _ (one _ refl (omega arith) refl refl)

pub close_array-Adds : Adds (close array_end)
unfolding close
close_array-Adds d = Ensures-pure _ (one _ refl (omega arith) refl refl)

pub start_array-Adds : Adds start_array
unfolding start_array
start_array-Adds d =
    Ensures-bind Anything _ _ (anything Ensures-int64)
      λ length n _. Ensures-pure _ (one _ refl (omega arith) refl refl)

raw_byte-one : Ensures (λ _ m. Unit {0} × (1 ≤ m)) raw_byte
unfolding raw_byte
raw_byte-one = record {
  ensures = λ r i.
      Outcome-if _ (end r) (λ _. stopped _)
        (λ _. (Ensures-mono _ (λ _ m h. (tt, omega (arith, h))) Ensures-byte).ensures r i);
}

state-any {κ} : {A : Type κ} (f : Cursor → A) → Ensures Anything (state f)
unfolding state
state-any f = record { ensures = λ r i. Outcome-same Anything r tt i }

read_raw-size : (count bytes_per : ℤ) → Ensures (λ t m. length t.2 ≤ m) (read_raw count bytes_per)
unfolding read_raw
read_raw-size (pos count) (pos bytes_per) =
    Ensures-bind Anything _ _ (state-any remaining) λ left n _.
      Ensures-if _ (ltb left (count * bytes_per)) (λ _. Ensures-fail _ _)
        λ _.
          Ensures-bind _ _ _
            (Ensures-repeat (λ _. Unit {0}) 1 _ (λ _. raw_byte-one) (count * bytes_per) 0)
            λ bs m h. Ensures-pure _ (omega (arith, h.1, h.2))
read_raw-size _ _ = Ensures-fail _ _

pub primitive_array-Adds : Adds primitive_array
unfolding primitive_array
primitive_array-Adds d = Ensures-bind Anything _ _ (anything Ensures-int32) λ count n _.
    Ensures-bind Anything _ _ (anything Ensures-int32) λ bytes_per m _.
      Ensures-bind _ _ _ (read_raw-size count bytes_per)
        λ t k h. Ensures-pure _ (one _ refl (omega (arith, h)) refl refl)

-- A kind of token that stands at the current depth and leaves it.
abbrev pub IsFlat : Kind → Type 0
IsFlat kind = (z : ℤ) → (depth_at kind z ≡ z) × (depth_after kind z ≡ z)

pub add_val-Added :
    (kind : Kind) (name : Text) (v : Value) (d : Decoder) (n : ℕ)
    → IsFlat kind
    → Added d (add_val kind name v d) n
unfolding add_val
add_val-Added kind name v d n flat =
    one _ refl (omega arith) (sym (flat d.depth).0) (sym (flat d.depth).1)

pub value_case-Adds :
    (kind : Kind) (read : Read Value) (named : Bool)
    → IsFlat kind
    → Ensures Anything read
    → Adds (value_case kind read named)
unfolding value_case
value_case-Adds kind read named flat h d = Ensures-bind Anything _ _ (name_of-any named) λ name n _.
    Ensures-bind Anything _ _ h λ v m _. Ensures-pure _ (add_val-Added kind name v d _ flat)

pub as_value-any {κ} :
    {A : Type κ} (f : A → Value) (read : Read A) {P : A → ℕ → Type 0}
    → Ensures P read
    → Ensures Anything (as_value f read)
unfolding as_value
as_value-any f read h = Ensures-bind _ _ _ h λ v n _. Ensures-pure Anything tt

skip_n-any : (n : ℕ) → Ensures Anything (skip_n n)
unfolding skip_n remaining
skip_n-any n = record { ensures = λ r i. done _ tt refl (omega arith) }

pub placeholder-any : Ensures Anything placeholder
unfolding placeholder
placeholder-any = Ensures-then Anything _ (skip_n-any 16) λ _ _ _. Ensures-pure Anything tt

pub read_guid_hex-any : Ensures Anything read_guid_hex
unfolding read_guid_hex
read_guid_hex-any = Ensures-bind Anything _ _ (state-any remaining) λ left n _.
    Ensures-bind Anything _ _
      (anything (
        Ensures-repeat (λ _. Unit {0}) 0 _
          (λ _. Ensures-mono _ (λ _ m _. (tt, omega arith)) Ensures-byte) (min 16 left) 0))
      λ bs m _. Ensures-pure Anything tt

pub stray_type_name-Adds : Adds stray_type_name
unfolding stray_type_name
stray_type_name-Adds d = Ensures-then Anything _ (anything Ensures-int32) λ _ _ _.
    Ensures-then Anything _ (anything Ensures-string) λ _ _ _. Ensures-pure _ (same refl refl)

pub stray_type_id-Adds : Adds stray_type_id
unfolding stray_type_id
stray_type_id-Adds d =
    Ensures-then Anything _ (anything Ensures-int32) λ _ _ _. Ensures-pure _ (same refl refl)

pub unnamed_internal_reference-Adds : Adds unnamed_internal_reference
unfolding unnamed_internal_reference
unnamed_internal_reference-Adds d =
    Ensures-then Anything _ (anything Ensures-int32)
      λ _ _ _. Ensures-pure _ (add_val-Added _ _ _ d _ (λ z. (refl, refl)))
