-- ===== src/Odin/Tree/Shape.antt =====
-- The documents that the tokens of a well-formed blob stand for, and what the tree builder of
-- internal/odin/tree.go makes of them.
use morgue.Common.{◌≡◌, List, [], ◌∷◌, ◌++◌, map, Bool, true, false, All}
use morgue.Odin.Reader.{Text}
use morgue.Odin.Decoder.{node_start, node_end, array_start, array_end, nil, Tok}
use morgue.Odin.Json.{Json, leaf, object, array, items_of}
use morgue.Odin.Scalars.{Floats, scalar_value, ref_value, prim_array_to_value, atoi}
use morgue.Odin.Tree.{
  Role, skipped, primitives, internal_reference, external_reference, nothing, scalar, role, top,
  type_field, fill_container,
}

-- A value in a document: one token, a node or an array between two tokens, or any of these behind a
-- token that has no value. A sequence of values can end in such tokens.
mutual
  pub data Doc : Type 0 where
    single : Tok → Doc
    node_of array_of : Tok → Docs → Tok → Doc
    behind : Tok → Doc → Doc

  pub data Docs : Type 0 where
    done : List Tok → Docs
    first : Doc → Docs → Docs

abbrev mutual
  pub flatten : Doc → List Tok
  flatten (single t) = t ∷ []
  flatten (node_of t ds e) = t ∷ (flatten_all ds ++ e ∷ [])
  flatten (array_of t ds e) = t ∷ (flatten_all ds ++ e ∷ [])
  flatten (behind t d) = t ∷ flatten d

  pub flatten_all : Docs → List Tok
  flatten_all (done ts) = ts
  flatten_all (first d ds) = flatten d ++ flatten_all ds

abbrev pub is_single : Role → Bool
is_single primitives = true
is_single internal_reference = true
is_single external_reference = true
is_single nothing = true
is_single scalar = true
is_single _ = false

abbrev mutual
  pub IsDoc : Doc → Type 0
  IsDoc (single t) = is_single (role t.kind) ≡ true
  IsDoc (node_of t ds e) = (t.kind ≡ node_start) × (e.kind ≡ node_end) × IsDocs ds
  IsDoc (array_of t ds e) = (t.kind ≡ array_start) × (e.kind ≡ array_end) × IsDocs ds
  IsDoc (behind t d) = (role t.kind ≡ skipped) × IsDoc d

  pub IsDocs : Docs → Type 0
  IsDocs (done ts) = All (λ t. role t.kind ≡ skipped) ts
  IsDocs (first d ds) = IsDoc d × IsDocs ds

module _ (floats : Floats) where
  -- The value of one token in a node of the type `ty`.
  abbrev pub token_value : Text → Role → Tok → Json
  token_value ty primitives t = prim_array_to_value floats t.raw_arr (atoi t.type_str) ty
  token_value ty internal_reference t = ref_value floats true t
  token_value ty external_reference t = ref_value floats false t
  token_value ty scalar t = scalar_value floats t
  token_value ty _ t = leaf nil

  -- The name and the value of a document in nodes of the types `st`, innermost first.
  abbrev mutual
    pub meaning : List Text → Doc → Text × Json
    meaning st (single t) = (t.name, token_value (top st) (role t.kind) t)
    meaning st (node_of t ds e) =
        (t.name, object (fill_container (meanings (t.type_str ∷ st) ds) (type_field t.type_str)))
    meaning st (array_of t ds e) =
        (t.name, array (items_of (map (λ (i : Text × Json). i.1) (meanings st ds))))
    meaning st (behind t d) = meaning st d

    pub meanings : List Text → Docs → List (Text × Json)
    meanings st (done ts) = []
    meanings st (first d ds) = meaning st d ∷ meanings st ds
