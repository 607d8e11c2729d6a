-- ===== src/Odin/Tree/Lookup.antt =====
-- The fields of the maps that internal/odin/tree.go fills.
use morgue.Common.{
  ℕ, ◌≡◌, ◌⊎◌, refl, ap, ◌∙◌, inl, inr, List, [], ◌∷◌, true, false, Bool-cases, if◌then◌else◌,
  Option, some, text_eq, text_eq→eq, text_eq_refl, codes,
}
use morgue.Odin.Reader.{Text}
use morgue.Odin.Json.{Json, array, Fields, no_fields, field, set_field, get_field, items_of}
use morgue.Odin.Tree.{named, unnamed, set_items, fill_container}

get_field-set_same :
    (key : Text) (val : Json) (m : Fields) → get_field key (set_field key val m) ≡ some val
unfolding get_field set_field
get_field-set_same key val no_fields = rw (text_eq_refl key)
get_field-set_same key val (field k v m) = elim (Bool-cases (text_eq k key)) [
  | inl e ↦ rw (e, text_eq_refl key)
  | inr e ↦ rw (e, e, get_field-set_same key val m)
]

get_field-set_other :
    (key key' : Text) (val : Json) (m : Fields)
    → text_eq key key' ≡ false
    → get_field key' (set_field key val m) ≡ get_field key' m
unfolding get_field set_field
get_field-set_other key key' val no_fields h = rw h
get_field-set_other key key' val (field k v m) h = elim (Bool-cases (text_eq k key)) [
  | inl e ↦ rw (e, text_eq→eq k key e, h)
  | inr e ↦ rw (e, get_field-set_other key key' val m h)
]

-- The value of the last item with the name `key`, or `old`.
abbrev pub last_named : Text → List (Text × Json) → Option Json → Option Json
last_named key [] old = old
last_named key ((name, val) ∷ items) old =
    last_named key items (if text_eq name key then some val else old)

text_eq-empty : (c : ℕ) (key : Text) → text_eq [] (c ∷ key) ≡ false
unfolding text_eq
text_eq-empty c key = refl

get_field-named :
    (c : ℕ) (key : Text) (items : List (Text × Json)) (m : Fields)
    → get_field (c ∷ key) (named items m) ≡ last_named (c ∷ key) items (get_field (c ∷ key) m)
unfolding named
get_field-named c key [] m = refl
get_field-named c key (([], val) ∷ items) m =
    rw (text_eq-empty c key) (get_field-named c key items m)
get_field-named c key ((d ∷ name, val) ∷ items) m =
    get_field-named c key items (set_field (d ∷ name) val m)
    ∙ ap (last_named (c ∷ key) items) (one (Bool-cases (text_eq (d ∷ name) (c ∷ key))))
  where
    one :
        (text_eq (d ∷ name) (c ∷ key) ≡ true) ⊎ (text_eq (d ∷ name) (c ∷ key) ≡ false)
        → get_field (c ∷ key) (set_field (d ∷ name) val m)
          ≡ (if text_eq (d ∷ name) (c ∷ key) then some val else get_field (c ∷ key) m)
    one (inl e) = rw (e, text_eq→eq (d ∷ name) (c ∷ key) e, get_field-set_same (c ∷ key) val m)
    one (inr e) = rw (e, get_field-set_other (d ∷ name) (c ∷ key) val m e)

-- What stands under "$items": an unnamed item by itself, several as an array.
abbrev pub collected : List Json → Option Json → Option Json
collected [] old = old
collected (v ∷ []) old = some v
collected (v ∷ (w ∷ ws)) old = some (array (items_of (v ∷ w ∷ ws)))

set_items-get_same :
    (vs : List Json) (m : Fields)
    → get_field (codes "$items") (set_items vs m) ≡ collected vs (get_field (codes "$items") m)
unfolding set_items
set_items-get_same [] m = refl
set_items-get_same (v ∷ []) m = get_field-set_same (codes "$items") v m
set_items-get_same (v ∷ (w ∷ ws)) m =
    get_field-set_same (codes "$items") (array (items_of (v ∷ w ∷ ws))) m

set_items-get_other :
    (vs : List Json) (m : Fields) (key : Text)
    → text_eq (codes "$items") key ≡ false
    → get_field key (set_items vs m) ≡ get_field key m
unfolding set_items
set_items-get_other [] m key h = refl
set_items-get_other (v ∷ []) m key h = get_field-set_other (codes "$items") key v m h
set_items-get_other (v ∷ (w ∷ ws)) m key h =
    get_field-set_other (codes "$items") key (array (items_of (v ∷ w ∷ ws))) m h

-- What fillContainer leaves in the map `m`: under a name other than "$items" the value of the last item
-- of that name, or else what was there; and under "$items" the only unnamed item, or the array of
-- several in their order, or else what a field of that name has.
pub fill_container-get :
    (items : List (Text × Json)) (m : Fields)
    → ((c : ℕ) (key : Text)
        → text_eq (codes "$items") (c ∷ key) ≡ false
        → get_field (c ∷ key) (fill_container items m)
          ≡ last_named (c ∷ key) items (get_field (c ∷ key) m))
      × (get_field (codes "$items") (fill_container items m)
          ≡ collected
              (unnamed items)
              (last_named (codes "$items") items (get_field (codes "$items") m)))
unfolding fill_container
fill_container-get items m = (
  λ c key h.
      set_items-get_other (unnamed items) (named items m) (c ∷ key) h
      ∙ get_field-named c key items m,
  set_items-get_same (unnamed items) (named items m)
      ∙ ap (collected (unnamed items)) (get_field-named b'$' (codes "items") items m),
)
