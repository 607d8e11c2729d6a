-- ===== src/Odin/Tree/Total.antt =====
-- The loops of the tree builder of internal/odin/tree.go, whatever tokens they are given.
use morgue.Common.{
  ℕ, zero, suc, ◌+◌, ◌≤◌, ◌<◌, ◌≡◌, refl, List, [], ◌∷◌, Bool, true, false, if◌then◌else◌, Option,
  none, some, length, arith,
}
use morgue.Odin.Reader.{Text}
use morgue.Odin.Decoder.{Kind, Tok}
use morgue.Odin.Json.{Json, object, no_fields}
use morgue.Odin.Scalars.{Floats}
use morgue.Odin.Tree.{
  TreeBuilder, Role, skipped, terminator, node, list, primitives, internal_reference,
  external_reference, nothing, scalar, role, fill_container, Next, Drain, prepend, continue_with,
  drain, pass, is_node_end, is_array_end, finish_node, build_node_body, finish_array,
  build_array_body, with_name, item_of, next_item, root, build_tree,
}

-- A call at `ts` with the type stack `st` gives an item and passes a token at least, or stops; the
-- stack is as it was.
data Answer (ts : List Tok) (st : List Text)
    : Option (Option (Text × Json) × TreeBuilder) → Type 0 where
  gave :
      {i : Text × Json} {ts' : List Tok}
      → length ts' < length ts
      → Answer ts st (some (some i, record { toks = ts'; type_stack = st }))
  stopped :
      {ts' : List Tok}
      → length ts' ≤ length ts
      → Answer ts st (some (none, record { toks = ts'; type_stack = st }))

data Drained (ts : List Tok) (st : List Text)
    : Option (List (Text × Json) × TreeBuilder) → Type 0 where
  drained :
      {is : List (Text × Json)} {ts' : List Tok}
      → length ts' ≤ length ts
      → Drained ts st (some (is, record { toks = ts'; type_stack = st }))

data Built (ts : List Tok) (st : List Text) : Option (Json × TreeBuilder) → Type 0 where
  built :
      {v : Json} {ts' : List Tok}
      → length ts' ≤ length ts
      → Built ts st (some (v, record { toks = ts'; type_stack = st }))

prepend-Drained :
    (i : Text × Json) (ts ts' : List Tok) (st : List Text)
    {x : Option (List (Text × Json) × TreeBuilder)}
    → length ts' ≤ length ts
    → Drained ts' st x
    → Drained ts st (prepend i x)
unfolding prepend
prepend-Drained i ts ts' st h (drained g) = drained (omega (arith, h, g))

continue_with-Drained :
    (rest : Drain) (m : ℕ) (ts : List Tok) (st : List Text)
    {x : Option (Option (Text × Json) × TreeBuilder)}
    → length ts ≤ m
    → ((us : List Tok)
        → length us < m
        → Drained us st (rest (record { toks = us; type_stack = st })))
    → Answer ts st x
    → Drained ts st (continue_with rest x)
unfolding continue_with
continue_with-Drained rest m ts st room h (gave {i} {ts'} less) =
    prepend-Drained i ts ts' st (omega (arith, less)) (h ts' (omega (arith, less, room)))
continue_with-Drained rest m ts st room h (stopped less) = drained less

drain-Drained :
    (k m : ℕ) (next : Next) (ts : List Tok) (st : List Text)
    → length ts < k
    → length ts < m
    → ((us : List Tok)
        → length us < m
        → Answer us st (next (record { toks = us; type_stack = st })))
    → Drained ts st (drain k next (record { toks = ts; type_stack = st }))
unfolding drain
drain-Drained zero m next ts st room small h = ground (arith, room)
drain-Drained (suc k) m next ts st room small h =
    continue_with-Drained (drain k next) (length ts) ts st (omega arith)
      (λ us less.
        drain-Drained k m next us st (omega (arith, less, room)) (omega (arith, less, small)) h)
      (h ts small)

pass-length : (closes : Kind → Bool) (ts : List Tok) → length (pass closes ts) ≤ length ts
unfolding pass
pass-length closes [] = omega arith
pass-length closes (t ∷ ts) = go (closes t.kind)
  where
    go : (b : Bool) → length (if b then ts else t ∷ ts) ≤ length (t ∷ ts)
    go true = omega arith
    go false = omega arith

build_node_body-Built :
    (items : Drain) (start : Tok) (ts : List Tok) (st : List Text)
    → Drained ts
        (start.type_str ∷ st)
        (items (record { toks = ts; type_stack = start.type_str ∷ st }))
    → Built ts st (build_node_body items start (record { toks = ts; type_stack = st }))
unfolding build_node_body finish_node
build_node_body-Built items start ts st h = go h
  where
    go :
        {x : Option (List (Text × Json) × TreeBuilder)}
        → Drained ts (start.type_str ∷ st) x
        → Built ts st (finish_node start x)
    go (drained {ts' = ts'} less) = built (omega (arith, less, pass-length is_node_end ts'))

build_array_body-Built :
    (items : Drain) (ts : List Tok) (st : List Text)
    → Drained ts st (items (record { toks = ts; type_stack = st }))
    → Built ts st (build_array_body items (record { toks = ts; type_stack = st }))
unfolding build_array_body finish_array
build_array_body-Built items ts st h = go h
  where
    go :
        {x : Option (List (Text × Json) × TreeBuilder)}
        → Drained ts st x
        → Built ts st (finish_array x)
    go (drained {ts' = ts'} less) = built (omega (arith, less, pass-length is_array_end ts'))

with_name-Answer :
    (name : Text) (t : Tok) (ts : List Tok) (st : List Text) {x : Option (Json × TreeBuilder)}
    → Built ts st x
    → Answer (t ∷ ts) st (with_name name x)
unfolding with_name
with_name-Answer name t ts st (built less) = gave (omega (arith, less))

weaken :
    (t : Tok) (ts : List Tok) (st : List Text) {x : Option (Option (Text × Json) × TreeBuilder)}
    → Answer ts st x
    → Answer (t ∷ ts) st x
weaken t ts st (gave less) = gave (omega (arith, less))
weaken t ts st (stopped less) = stopped (omega (arith, less))

module _ (floats : Floats) where
  item_of-Answer :
      (r : Role) (again : Next) (items : Drain) (t : Tok) (ts : List Tok) (st : List Text)
      → Answer ts st (again (record { toks = ts; type_stack = st }))
      → ((st' : List Text) → Drained ts st' (items (record { toks = ts; type_stack = st' })))
      → Answer (t ∷ ts) st (
          item_of floats r again items t
            (record { toks = t ∷ ts; type_stack = st })
            (record { toks = ts; type_stack = st }))
  unfolding item_of
  item_of-Answer skipped again items t ts st h g = weaken t ts st h
  item_of-Answer terminator again items t ts st h g = stopped (omega arith)
  item_of-Answer node again items t ts st h g =
      with_name-Answer t.name t ts st (build_node_body-Built items t ts st (g (t.type_str ∷ st)))
  item_of-Answer list again items t ts st h g =
      with_name-Answer t.name t ts st (build_array_body-Built items ts st (g st))
  item_of-Answer primitives again items t ts st h g = gave (omega arith)
  item_of-Answer internal_reference again items t ts st h g = gave (omega arith)
  item_of-Answer external_reference again items t ts st h g = gave (omega arith)
  item_of-Answer nothing again items t ts st h g = gave (omega arith)
  item_of-Answer scalar again items t ts st h g = gave (omega arith)

  next_item-Answer :
      (n : ℕ) (ts : List Tok) (st : List Text)
      → length ts < n
      → Answer ts st (next_item floats n (record { toks = ts; type_stack = st }))
  unfolding next_item
  next_item-Answer zero ts st h = ground (arith, h)
  next_item-Answer (suc n) [] st h = stopped (omega arith)
  next_item-Answer (suc n) (t ∷ ts) st h =
      item_of-Answer (role t.kind) (next_item floats n) (drain n (next_item floats n)) t ts st
        (next_item-Answer n ts st (omega (arith, h)))
        (λ st'.
          drain-Drained n n (next_item floats n) ts st' (omega (arith, h)) (omega (arith, h))
            (λ us less. next_item-Answer n us st' less))

  root-total :
      (ts : List Tok) (st : List Text) {x : Option (List (Text × Json) × TreeBuilder)}
      → Drained ts st x
      → (v : Json) × (root x ≡ some v)
  unfolding root
  root-total ts st (drained {is} less) = (object (fill_container is no_fields), refl)

  -- The builder gives a value on every list of tokens, well-formed or not: one call of `nextItem` to a
  -- token, and one for the end, are enough.
  pub build_tree_total : (toks : List Tok) → (v : Json) × (build_tree floats toks ≡ some v)
  unfolding build_tree
  build_tree_total toks = root-total toks [] (
      drain-Drained (length toks + 1) (length toks + 1) (next_item floats (length toks + 1)) toks []
        (omega arith) (omega arith) (λ us less. next_item-Answer (length toks + 1) us [] less))
