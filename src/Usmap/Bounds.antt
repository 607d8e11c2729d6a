-- ===== src/Usmap/Bounds.antt =====
-- parseUsmapBody of internal/recipe/usmap.go, whatever bytes it is given.
use morgue.Common.{
  ℕ, zero, suc, ◌+◌, ◌*◌, ◌≤◌, ◌≡◌, refl, ◌⊎◌, inl, inr, List, [], Option, none, some, ok, err, All,
  length, get_elem?, ltb, ltb-false→le, ℤ, pos, negsuc, arith, leb, ◌==◌, ◌||◌, String,
}
use morgue.Cursor.Ensures.{
  Ensures, Ensures-pure, Ensures-fail, Ensures-wrapped, Ensures-if, Ensures-mono, Ensures-bind,
  Ensures-then, Ensures-repeat,
}
use morgue.ByteReader.{Error, message_ℤ, wrap}
use morgue.ByteReader.Laws.{
  Ensures-take_bytes, Ensures-uint8, Ensures-uint16, Ensures-uint32, Ensures-uint64, Ensures-int32,
}
use morgue.Usmap.EnumNames.{Distinct, set_names-Distinct}
use morgue.Usmap.{
  Text, UsmapPropertyType, Pointer, property_type, nil, to, UsmapProperty, UsmapStruct, UsmapEnum,
  UsmapBody, usmap_max_names, usmap_max_enums, usmap_max_structs, usmap_max_enum_vals,
  usmap_max_props, usmap_max_string_len, resolve, lift, read_name, usmap_name,
  parse_usmap_property_type, parse_usmap_property, parse_usmap_struct, parse_enum_entry,
  parse_usmap_enum, read_count, parse_usmap_body, pt_array, pt_struct, pt_map, pt_set, pt_enum,
  pt_optional,
}

-- The empty string, which stands for "none", or an entry of the name table.
abbrev pub IsName : List Text → Text → Type 0
IsName names s = (s ≡ []) ⊎ ((i : ℕ) × (get_elem? names i ≡ some s))

-- Nested at most `left` deep, and every name in it comes from the table.
mutual
  pub data IsNamed (names : List Text) : ℕ → UsmapPropertyType → Type 0 where
    named :
        {left : ℕ} {type struct_type enum_name : Text} {inner value : Pointer}
        → IsName names struct_type
        → IsName names enum_name
        → IsNamedAt names left inner
        → IsNamedAt names left value
        → IsNamed names (suc left) (property_type type struct_type enum_name inner value)

  pub data IsNamedAt (names : List Text) : ℕ → Pointer → Type 0 where
    nothing : {left : ℕ} → IsNamedAt names left nil
    there : {left : ℕ} {t : UsmapPropertyType} → IsNamed names left t → IsNamedAt names left (to t)

resolve-IsName :
    (names : List Text) (i : ℤ) → Ensures (λ s n. IsName names s × (0 ≤ n)) (lift (resolve names i))
unfolding resolve lift
resolve-IsName names (negsuc zero) = Ensures-pure _ (inl refl, omega arith)
resolve-IsName names (negsuc (suc n)) = Ensures-fail _ _
resolve-IsName names (pos i) = go (get_elem? names i) refl
  where
    go :
        (o : Option Text)
        → get_elem? names i ≡ o
        → Ensures
            (λ s n. IsName names s × (0 ≤ n))
            (lift (elim o [
              | some name ↦ ok name
              | none ↦ err (message_ℤ "usmap: name index out of range" (pos i))
            ]))
    go (some name) e = Ensures-pure _ (inr (i, e), omega arith)
    go none e = Ensures-fail _ _

read_name-IsName :
    (names : List Text) (f : Error → Error)
    → Ensures (λ s n. IsName names s × (4 ≤ n)) (read_name names f)
unfolding read_name
read_name-IsName names f = Ensures-bind _ _ _ (Ensures-wrapped _ f Ensures-int32) λ i n h.
    Ensures-mono _ (λ s m g. (g.0, omega (arith, g.1)))
      (Ensures-wrapped _ f (resolve-IsName names i))

module _ (names : List Text) where
  abbrev TypeAt : ℕ → UsmapPropertyType → ℕ → Type 0
  TypeAt left t n = IsNamed names left t × (1 ≤ n)

  parse_type-IsNamed : (left : ℕ) → Ensures (TypeAt left) (parse_usmap_property_type names left)
  unfolding parse_usmap_property_type
  parse_type-IsNamed zero = Ensures-fail _ _
  parse_type-IsNamed (suc left) =
      Ensures-bind _ _ _ (Ensures-wrapped _ (wrap "type tag") Ensures-uint8) λ tag n h.
        Ensures-if _ (tag == pt_enum)
          (λ _. Ensures-bind _ _ _ (parse_type-IsNamed left) λ inner m g.
            Ensures-bind _ _ _ (read_name-IsName names (wrap "enum name"))
              λ name k g'. Ensures-pure _ (named (inl refl) g'.0 (there g.0) nothing, omega arith))
          λ _.
            Ensures-if _ (tag == pt_struct)
              (λ _.
                Ensures-bind _ _ _ (read_name-IsName names (wrap "struct name"))
                  λ name k g'. Ensures-pure _ (named g'.0 (inl refl) nothing nothing, omega arith))
              λ _.
                Ensures-if _ (tag == pt_array || (tag == pt_set || tag == pt_optional))
                  (λ _. Ensures-bind _ _ _ (parse_type-IsNamed left) λ inner m g.
                    Ensures-pure _ (named (inl refl) (inl refl) (there g.0) nothing, omega arith))
                  λ _.
                    Ensures-if _ (tag == pt_map)
                      (λ _. Ensures-bind _ _ _ (parse_type-IsNamed left) λ inner m g.
                        Ensures-bind _ _ _ (parse_type-IsNamed left) λ value k g'.
                          Ensures-pure _
                            (named (inl refl) (inl refl) (there g.0) (there g'.0), omega arith))
                      λ _. Ensures-pure _ (named (inl refl) (inl refl) nothing nothing, omega arith)

  abbrev pub IsProperty : UsmapProperty → Type 0
  IsProperty p = IsName names p.name × IsNamed names 33 p.type

  abbrev pub IsStruct : UsmapStruct → Type 0
  IsStruct s = IsName names s.name × IsName names s.super_type × All IsProperty s.properties

  parse_usmap_property-IsProperty :
      Ensures (λ p n. IsProperty p × (8 ≤ n)) (parse_usmap_property names)
  unfolding parse_usmap_property
  parse_usmap_property-IsProperty =
      Ensures-bind _ _ _ (Ensures-wrapped _ _ Ensures-uint16) λ idx n h.
        Ensures-bind _ _ _ (Ensures-wrapped _ _ Ensures-uint8) λ array_dim m g.
          Ensures-bind _ _ _ (read_name-IsName names _) λ name k f.
            Ensures-bind _ _ _ (Ensures-wrapped _ _ (parse_type-IsNamed 33))
              λ t l e. Ensures-pure _ ((f.0, e.0), omega (arith, h, g, f.1, e.1))

  parse_usmap_struct-IsStruct : Ensures (λ s n. IsStruct s × (12 ≤ n)) (parse_usmap_struct names)
  unfolding parse_usmap_struct
  parse_usmap_struct-IsStruct = Ensures-bind _ _ _ (read_name-IsName names _) λ name n h.
      Ensures-bind _ _ _ (read_name-IsName names _) λ super m g.
        Ensures-then _ _ (Ensures-wrapped _ _ Ensures-uint16) λ slots k f.
          Ensures-bind _ _ _ (Ensures-wrapped _ _ Ensures-uint16) λ ser_count l e.
            Ensures-if _ (ltb usmap_max_props ser_count) (λ _. Ensures-fail _ _)
              λ _.
                Ensures-bind _ _ _
                  (Ensures-repeat IsProperty 8 _
                    (λ i. Ensures-wrapped _ _ parse_usmap_property-IsProperty) ser_count 0)
                  λ properties j d. Ensures-pure _ ((h.0, g.0, d.0), omega (arith, h.1, g.1, f, e))

  abbrev pub IsEnum : UsmapEnum → Type 0
  IsEnum e = IsName names e.name × All (λ d. IsName names d.1) e.names × Distinct e.names

  parse_enum_entry-IsName :
      (version i j : ℕ)
      → Ensures (λ d n. IsName names d.1 × (4 ≤ n)) (parse_enum_entry version names i j)
  unfolding parse_enum_entry
  parse_enum_entry-IsName version i j =
      Ensures-bind (λ _ n. 0 ≤ n) _ _
        (Ensures-if _ (leb 4 version)
          (λ _. Ensures-mono _ (λ _ n h. omega (arith, h)) (Ensures-wrapped _ _ Ensures-uint64))
          (λ _. Ensures-pure _ (omega arith)))
        λ value n h.
          Ensures-bind _ _ _ (read_name-IsName names _)
            λ name m g. Ensures-pure _ (g.0, omega (arith, g.1))

  parse_usmap_enum-IsEnum :
      (version i : ℕ) → Ensures (λ e n. IsEnum e × (5 ≤ n)) (parse_usmap_enum version names i)
  unfolding parse_usmap_enum
  parse_usmap_enum-IsEnum version i = Ensures-bind _ _ _ (read_name-IsName names _) λ name n h.
      Ensures-bind (λ _ m. 1 ≤ m) _ _
        (Ensures-wrapped _ _ (
          Ensures-if _ (leb 3 version)
            (λ _. Ensures-mono _ (λ _ n h. omega (arith, h)) Ensures-uint16)
            (λ _. Ensures-mono _ (λ _ n h. omega (arith, h)) Ensures-uint8)))
        λ count m g.
          Ensures-if _ (ltb usmap_max_enum_vals count) (λ _. Ensures-fail _ _)
            λ _.
              Ensures-bind _ _ _
                (Ensures-repeat (λ d. IsName names d.1) 4 _ (parse_enum_entry-IsName version i)
                  count 0)
                λ entries k f.
                  let maps = set_names-Distinct (λ d. IsName names d.1) [] entries f.0 (tt, tt) in
                  Ensures-pure _ ((h.0, maps.0, maps.1), omega (arith, h.1, g))

read_count-le-cap :
    (what : String) (cap : ℕ) → Ensures (λ k n. (k ≤ cap) × (n ≡ 4)) (read_count what cap)
unfolding read_count
read_count-le-cap what cap = Ensures-bind _ _ _ (Ensures-wrapped _ _ Ensures-uint32) λ k n h.
    Ensures-if _ (ltb cap k) (λ _. Ensures-fail _ _)
      λ e. Ensures-pure _ (ltb-false→le cap k e, omega (arith, h))

usmap_name-pos : (version : ℕ) → Ensures (λ _ n. Unit {0} × (1 ≤ n)) (usmap_name version)
unfolding usmap_name
usmap_name-pos version =
    Ensures-bind (λ _ n. 1 ≤ n) _ _
      (Ensures-if _ (leb 2 version) (λ _. Ensures-mono _ (λ _ n h. omega (arith, h)) Ensures-uint16)
        (λ _. Ensures-mono _ (λ _ n h. omega (arith, h)) Ensures-uint8))
      λ k n h.
        Ensures-if _ (ltb usmap_max_string_len k) (λ _. Ensures-fail _ _)
          λ _. Ensures-mono _ (λ _ m _. (tt, omega (arith, h))) (Ensures-take_bytes k)

-- What holds of a body parsed from `n` bytes.
pub record IsBody (b : UsmapBody) (n : ℕ) : Type 0 where
  pub named_enums : All (IsEnum b.names) b.enums
  pub named_structs : All (IsStruct b.names) b.structs
  pub names_cap : length b.names ≤ usmap_max_names
  pub enums_cap : length b.enums ≤ usmap_max_enums
  pub structs_cap : length b.structs ≤ usmap_max_structs
  pub size : 12 + length b.names + 5 * length b.enums + 12 * length b.structs ≤ n

-- Whatever bytes it is given, `parse_usmap_body` fails or returns a body in which every name of an
-- enum, an enum's value, a struct, its super type, a property and a type comes from the name table or
-- is empty, no enum has a value twice, types are nested at most 33 deep, the three counts are within
-- their caps, and the tables take at least a byte for each name, 5 for each enum and 12 for each
-- struct; and the reader has not left its buffer.
pub parse_usmap_body-IsBody : (version : ℕ) → Ensures IsBody (parse_usmap_body version)
unfolding parse_usmap_body
parse_usmap_body-IsBody version =
    Ensures-bind _ _ _ (read_count-le-cap "usmap: name count" usmap_max_names) λ name_count n₁ h₁.
      Ensures-bind _ _ _
        (Ensures-repeat (λ _. Unit {0}) 1 _ (λ i. Ensures-wrapped _ _ (usmap_name-pos version))
          name_count 0)
        λ names n₂ h₂.
          Ensures-bind _ _ _ (read_count-le-cap "usmap: enum count" usmap_max_enums)
            λ enum_count n₃ h₃.
              Ensures-bind _ _ _
                (Ensures-repeat (IsEnum names) 5 _ (parse_usmap_enum-IsEnum names version)
                  enum_count 0)
                λ enums n₄ h₄.
                  Ensures-bind _ _ _ (read_count-le-cap "usmap: struct count" usmap_max_structs)
                    λ struct_count n₅ h₅.
                      Ensures-bind _ _ _
                        (Ensures-repeat (IsStruct names) 12 _
                          (λ i. Ensures-wrapped _ _ (parse_usmap_struct-IsStruct names))
                          struct_count 0)
                        λ structs n₆ h₆. Ensures-pure _ (record {
                          named_enums = h₄.0;
                          named_structs = h₆.0;
                          names_cap = omega (arith, h₁.0, h₂.1);
                          enums_cap = omega (arith, h₃.0, h₄.1);
                          structs_cap = omega (arith, h₅.0, h₆.1);
                          size =
                              omega (arith, h₁.1, h₂.1, h₂.2, h₃.1, h₄.1, h₄.2, h₅.1, h₆.1, h₆.2);
                        })
