-- ===== src/Odin/Tree/Documents.antt =====
-- The tree builder of internal/odin/tree.go on the tokens of documents.
use morgue.Common.{
  ℕ, zero, suc, ◌+◌, ◌≤◌, ◌<◌, ◌≡◌, refl, sym, ap, ◌∙◌, List, [], ◌∷◌, ◌++◌, append_assoc,
  append-nil, true, if◌then◌else◌, none, some, All, length, length-append, arith,
}
use morgue.Odin.Reader.{Text}
use morgue.Odin.Decoder.{Kind, node_end, array_end, Tok}
use morgue.Odin.Json.{object, no_fields}
use morgue.Odin.Scalars.{Floats}
use morgue.Odin.Tree.{
  TreeBuilder, Role, skipped, terminator, node, list, primitives, internal_reference,
  external_reference, nothing, scalar, role, top, fill_container, Next, Drain, prepend,
  continue_with, drain, pass, is_node_end, is_array_end, finish_node, build_node_body, finish_array,
  build_array_body, with_name, item_of, next_item, root, build_tree, prim_array_value,
}
use morgue.Odin.Tree.Shape.{
  Doc, single, node_of, array_of, behind, Docs, done, first, flatten, flatten_all, is_single, IsDoc,
  IsDocs, token_value, meaning, meanings,
}

-- Where a loop over items stops.
abbrev Stops : List Tok → Type 0
Stops [] = Unit
Stops (t ∷ ts) = role t.kind ≡ terminator

abbrev at : List Tok → List Text → TreeBuilder
at ts st = record { toks = ts; type_stack = st }

flatten-nonempty : (d : Doc) → 1 ≤ length (flatten d)
flatten-nonempty (single t) = omega arith
flatten-nonempty (node_of t ds e) = omega arith
flatten-nonempty (array_of t ds e) = omega arith
flatten-nonempty (behind t d) = omega arith

pass-node_end : (e : Tok) (rest : List Tok) → e.kind ≡ node_end → pass is_node_end (e ∷ rest) ≡ rest
unfolding pass
pass-node_end e rest h = ap (λ k. if is_node_end k then rest else e ∷ rest) h

pass-array_end :
    (e : Tok) (rest : List Tok) → e.kind ≡ array_end → pass is_array_end (e ∷ rest) ≡ rest
unfolding pass
pass-array_end e rest h = ap (λ k. if is_array_end k then rest else e ∷ rest) h

Stops-end :
    (e : Tok) (rest : List Tok) {k : Kind} → e.kind ≡ k → role k ≡ terminator → Stops (e ∷ rest)
Stops-end e rest h g = ap role h ∙ g

module _ (floats : Floats) where
  -- A call on a token whose role is known.
  next_item-role :
      (n : ℕ) (r : Role) (t : Tok) (ts : List Tok) (st : List Text)
      → role t.kind ≡ r
      → next_item floats (suc n) (at (t ∷ ts) st)
        ≡ item_of floats r
            (next_item floats n)
            (drain n (next_item floats n))
            t
            (at (t ∷ ts) st)
            (at ts st)
  unfolding next_item
  next_item-role n r t ts st h =
      ap
        (λ r'.
          item_of floats r' (next_item floats n) (drain n (next_item floats n)) t (at (t ∷ ts) st)
            (at ts st))
        h

  next_item-Stops :
      (n : ℕ) (us rest : List Tok) (st : List Text)
      → All (λ t. role t.kind ≡ skipped) us
      → Stops rest
      → length us < n
      → next_item floats n (at (us ++ rest) st) ≡ some (none, at rest st)
  unfolding next_item item_of
  next_item-Stops zero us rest st h g less = ground (arith, less)
  next_item-Stops (suc n) [] [] st h g less = refl
  next_item-Stops (suc n) [] (t ∷ ts) st h g less = next_item-role n terminator t ts st g
  next_item-Stops (suc n) (u ∷ us) rest st (hu, h) g less =
      next_item-role n skipped u (us ++ rest) st hu
      ∙ next_item-Stops n us rest st h g (omega (arith, less))

  -- What a call does on the tokens of a document, with the fuel `n`.
  abbrev Answers : ℕ → Type 0
  Answers n =
      (d : Doc) (rest : List Tok) (st : List Text)
      → IsDoc d
      → length (flatten d) < n
      → next_item floats n (at (flatten d ++ rest) st)
        ≡ some (some (meaning floats st d), at rest st)

  drain-meanings :
      (n : ℕ)
      → Answers n
      → (k : ℕ) (ds : Docs) (rest : List Tok) (st : List Text) → IsDocs ds
      → Stops rest
      → length (flatten_all ds) < n
      → length (flatten_all ds) < k
      → drain k (next_item floats n) (at (flatten_all ds ++ rest) st)
        ≡ some (meanings floats st ds, at rest st)
  unfolding drain continue_with prepend
  drain-meanings n answers zero ds rest st h g less room = ground (arith, room)
  drain-meanings n answers (suc k) (done us) rest st h g less room =
      ap (continue_with (drain k (next_item floats n))) (next_item-Stops n us rest st h g less)
  drain-meanings n answers (suc k) (first d ds) rest st (hd, h) g less room =
      ap (λ ts. continue_with (drain k (next_item floats n)) (next_item floats n (at ts st)))
        (append_assoc (flatten d) (flatten_all ds) rest)
      ∙ ap (continue_with (drain k (next_item floats n))) (
          answers d (flatten_all ds ++ rest) st hd
            (omega (arith, less, length-append (flatten d) (flatten_all ds))))
      ∙ ap (prepend (meaning floats st d)) (
          drain-meanings n answers k ds rest st h g
            (omega (arith, less, length-append (flatten d) (flatten_all ds)))
            (omega (arith, room, flatten-nonempty d, length-append (flatten d) (flatten_all ds))))

  item_of-single :
      (r : Role) (again : Next) (items : Drain) (t : Tok) (b : TreeBuilder) (ts : List Tok)
      (st : List Text)
      → is_single r ≡ true
      → item_of floats r again items t b (at ts st)
        ≡ some (some (t.name, token_value floats (top st) r t), at ts st)
  unfolding item_of prim_array_value
  item_of-single skipped again items t b ts st h = cc
  item_of-single terminator again items t b ts st h = cc
  item_of-single node again items t b ts st h = cc
  item_of-single list again items t b ts st h = cc
  item_of-single primitives again items t b ts st h = refl
  item_of-single internal_reference again items t b ts st h = refl
  item_of-single external_reference again items t b ts st h = refl
  item_of-single nothing again items t b ts st h = refl
  item_of-single scalar again items t b ts st h = refl

  next_item-meaning : (n : ℕ) → Answers n
  unfolding item_of build_node_body build_array_body finish_node finish_array with_name role
  next_item-meaning zero d rest st h less = ground (arith, less)
  next_item-meaning (suc n) (single t) rest st h less =
      next_item-role n (role t.kind) t rest st refl
      ∙ item_of-single (role t.kind) (next_item floats n) (drain n (next_item floats n)) t
          (at (t ∷ rest) st) rest st h
  next_item-meaning (suc n) (behind t d) rest st (ht, h) less =
      next_item-role n skipped t (flatten d ++ rest) st ht
      ∙ next_item-meaning n d rest st h (omega (arith, less))
  next_item-meaning (suc n) (node_of t ds e) rest st (ht, he, h) less =
      next_item-role n node t ((flatten_all ds ++ e ∷ []) ++ rest) st (ap role ht)
      ∙ ap
          (λ ts.
            with_name t.name
              (finish_node t (drain n (next_item floats n) (at ts (t.type_str ∷ st)))))
          (append_assoc (flatten_all ds) (e ∷ []) rest)
      ∙ ap (λ o. with_name t.name (finish_node t o))
          (drain-meanings n (next_item-meaning n) n ds (e ∷ rest) (t.type_str ∷ st) h
            (Stops-end e rest he refl)
            (omega (arith, less, length-append (flatten_all ds) (e ∷ [])))
            (omega (arith, less, length-append (flatten_all ds) (e ∷ []))))
      ∙ ap (λ ts. some (some (meaning floats st (node_of t ds e)), at ts st))
          (pass-node_end e rest he)
  next_item-meaning (suc n) (array_of t ds e) rest st (ht, he, h) less =
      next_item-role n list t ((flatten_all ds ++ e ∷ []) ++ rest) st (ap role ht)
      ∙ ap (λ ts. with_name t.name (finish_array (drain n (next_item floats n) (at ts st))))
          (append_assoc (flatten_all ds) (e ∷ []) rest)
      ∙ ap (λ o. with_name t.name (finish_array o))
          (drain-meanings n (next_item-meaning n) n ds (e ∷ rest) st h (Stops-end e rest he refl)
            (omega (arith, less, length-append (flatten_all ds) (e ∷ [])))
            (omega (arith, less, length-append (flatten_all ds) (e ∷ []))))
      ∙ ap (λ ts. some (some (meaning floats st (array_of t ds e)), at ts st))
          (pass-array_end e rest he)

  -- The tokens of a sequence of documents, well bracketed and with tokens without a value among them,
  -- are built to one map: that of the documents' names and values, each value of a node or an array
  -- built from what stands inside its brackets.
  pub build_tree-flatten :
      (ds : Docs)
      → IsDocs ds
      → build_tree floats (flatten_all ds)
        ≡ some (object (fill_container (meanings floats [] ds) no_fields))
  unfolding build_tree root
  build_tree-flatten ds h =
      let n = length (flatten_all ds) + 1 in
      ap (λ ts. root (drain n (next_item floats n) (at ts []))) (sym (append-nil (flatten_all ds)))
      ∙ ap root (drain-meanings n (next_item-meaning n) n ds [] [] h tt (omega arith) (omega arith))
