-- ===== src/Odin/Tree.antt =====
-- The tree builder of internal/odin/tree.go, from the decoder's tokens to a structured value.
pub mod Total
pub mod Shape
pub mod Documents
pub mod Lookup
use morgue.Common.{
  ℕ, zero, suc, ◌+◌, List, [], ◌∷◌, map, Bool, true, false, if◌then◌else◌, Option, none, some,
  length, drop, codes,
}
use morgue.Odin.Reader.{Text}
use morgue.Odin.Decoder.{
  Kind, node_start, node_end, array_start, array_end, primarray, null, internalref, extref, eos,
  raw, nil, text, Tok,
}
use morgue.Odin.Json.{Json, leaf, object, array, Fields, no_fields, field, set_field, items_of}
use morgue.Odin.Scalars.{Floats, scalar_value, ref_value, prim_array_to_value, atoi}

-- The treeBuilder: the tokens from the index on, and the type stack with its top first.
pub record TreeBuilder : Type 0 where
  pub toks : List Tok
  pub type_stack : List Text

-- What the switch of nextItem does with a token.
pub data Role : Type 0 where
  skipped terminator node list primitives internal_reference external_reference nothing scalar :
      Role

unfoldable pub role : Kind → Role
role eos = skipped
role raw = skipped
role node_end = terminator
role array_end = terminator
role node_start = node
role array_start = list
role primarray = primitives
role internalref = internal_reference
role extref = external_reference
role null = nothing
role _ = scalar

abbrev top : List Text → Text
top [] = []
top (ty ∷ tys) = ty

-- primArrayValue, whose type is the node that it stands in.
unfoldable pub prim_array_value : Floats → Tok → TreeBuilder → Json
unfolding atoi prim_array_to_value
prim_array_value floats t b =
    prim_array_to_value floats t.raw_arr (atoi t.type_str) (top b.type_stack)

-- `m[name] = val` for the named items; the unnamed ones come under "$items".
unfoldable pub named : List (Text × Json) → Fields → Fields
unfolding set_field
named [] m = m
named (([], val) ∷ items) m = named items m
named ((c ∷ name, val) ∷ items) m = named items (set_field (c ∷ name) val m)

unfoldable pub unnamed : List (Text × Json) → List Json
unnamed [] = []
unnamed (([], val) ∷ items) = val ∷ unnamed items
unnamed ((c ∷ name, val) ∷ items) = unnamed items

-- The switch of fillContainer over the number of unnamed items.
unfoldable pub set_items : List Json → Fields → Fields
unfolding set_field items_of
set_items [] m = m
set_items (v ∷ []) m = set_field (codes "$items") v m
set_items (v ∷ (w ∷ ws)) m = set_field (codes "$items") (array (items_of (v ∷ w ∷ ws))) m

-- fillContainer on the items that its loop has got from nextItem.
unfoldable pub fill_container : List (Text × Json) → Fields → Fields
unfolding named unnamed set_items
fill_container items m = set_items (unnamed items) (named items m)

-- A call of nextItem: no answer where the fuel ran out, else an item or none, and the builder then.
abbrev pub Next : Type 0
Next = TreeBuilder → Option (Option (Text × Json) × TreeBuilder)

abbrev pub Drain : Type 0
Drain = TreeBuilder → Option (List (Text × Json) × TreeBuilder)

unfoldable pub prepend :
    Text × Json
    → Option (List (Text × Json) × TreeBuilder)
    → Option (List (Text × Json) × TreeBuilder)
prepend item none = none
prepend item (some (items, b)) = some (item ∷ items, b)

-- What the loop does with the outcome of a call.
unfoldable pub continue_with :
    Drain → Option (Option (Text × Json) × TreeBuilder) → Option (List (Text × Json) × TreeBuilder)
unfolding prepend
continue_with rest none = none
continue_with rest (some (none, b)) = some ([], b)
continue_with rest (some (some item, b)) = prepend item (rest b)

-- The loop of fillContainer and of buildArrayBody: items up to the first call that gives none.
unfoldable pub drain : ℕ → Next → Drain
unfolding continue_with
drain zero next b = none
drain (suc n) next b = continue_with (drain n next) (next b)

-- `if b.i < len(b.toks) && b.toks[b.i].kind == kind { b.i++ }`, for the closing kind.
unfoldable pub pass : (Kind → Bool) → List Tok → List Tok
pass closes [] = []
pass closes (t ∷ ts) = if closes t.kind then ts else t ∷ ts

abbrev pub is_node_end : Kind → Bool
is_node_end node_end = true
is_node_end _ = false

abbrev pub is_array_end : Kind → Bool
is_array_end array_end = true
is_array_end _ = false

-- `if start.typeStr != ""` sets "$type".
unfoldable pub type_field : Text → Fields
type_field [] = no_fields
type_field (c ∷ ty) = field (codes "$type") (leaf (text (c ∷ ty))) no_fields

-- buildNodeBody behind the loop: `$type`, the items, the type stack popped and the end passed.
unfoldable pub finish_node :
    Tok → Option (List (Text × Json) × TreeBuilder) → Option (Json × TreeBuilder)
unfolding fill_container pass type_field
finish_node start none = none
finish_node start (some (items, b)) = some (
  object (fill_container items (type_field start.type_str)),
  record { toks = pass is_node_end b.toks; type_stack = drop 1 b.type_stack },
)

unfoldable pub build_node_body : Drain → Tok → TreeBuilder → Option (Json × TreeBuilder)
unfolding finish_node
build_node_body items start b =
    finish_node start (items (record b { type_stack = start.type_str ∷ b.type_stack }))

unfoldable pub finish_array :
    Option (List (Text × Json) × TreeBuilder) → Option (Json × TreeBuilder)
unfolding items_of pass
finish_array none = none
finish_array (some (items, b)) = some (
  array (items_of (map (λ (i : Text × Json). i.1) items)),
  record b { toks = pass is_array_end b.toks },
)

unfoldable pub build_array_body : Drain → TreeBuilder → Option (Json × TreeBuilder)
unfolding finish_array
build_array_body items b = finish_array (items b)

unfoldable pub with_name :
    Text → Option (Json × TreeBuilder) → Option (Option (Text × Json) × TreeBuilder)
with_name name none = none
with_name name (some (v, b)) = some (some (name, v), b)

-- The root map of buildTree.
unfoldable pub root : Option (List (Text × Json) × TreeBuilder) → Option Json
unfolding fill_container
root none = none
root (some (items, b)) = some (object (fill_container items no_fields))

module _ (floats : Floats) where
  -- The cases of nextItem: `b` stands on the token `t`, and `b'` behind it.
  unfoldable pub item_of :
      Role
      → Next
      → Drain
      → Tok
      → TreeBuilder
      → TreeBuilder
      → Option (Option (Text × Json) × TreeBuilder)
  unfolding build_node_body build_array_body prim_array_value ref_value scalar_value with_name
  item_of skipped again items t b b' = again b'
  item_of terminator again items t b b' = some (none, b)
  item_of node again items t b b' = with_name t.name (build_node_body items t b')
  item_of list again items t b b' = with_name t.name (build_array_body items b')
  item_of primitives again items t b b' = some (some (t.name, prim_array_value floats t b'), b')
  item_of internal_reference again items t b b' = some (some (t.name, ref_value floats true t), b')
  item_of external_reference again items t b b' = some (some (t.name, ref_value floats false t), b')
  item_of nothing again items t b b' = some (some (t.name, leaf nil), b')
  item_of scalar again items t b b' = some (some (t.name, scalar_value floats t), b')

  unfoldable pub next_item : ℕ → Next
  unfolding item_of drain role
  next_item zero b = none
  next_item (suc n) b = elim (b.toks) [
    | [] ↦ some (none, b)
    | t ∷ ts ↦
        item_of (role t.kind) (next_item n) (drain n (next_item n)) t b (record b { toks = ts })
  ]

  -- buildTree, with fuel for a call for each token and one for the end.
  unfoldable pub build_tree : List Tok → Option Json
  unfolding next_item drain root
  build_tree toks =
      let n = length toks + 1 in
      root (drain n (next_item n) (record { toks = toks; type_stack = [] }))
