-- ===== src/Usmap/RoundTrip.antt =====
-- parseUsmapBody of internal/recipe/usmap.go, and all that it calls, on a body that is written in the
-- format.
use morgue.Common.{
  ℕ, zero, suc, String, ne→==-false, ◌+◌, ◌^◌, ◌≤◌, ◌<◌, ◌≡◌, refl, sym, ap, List, [], ◌∷◌, Result,
  ok, All-map, length, get_elem?-some_iff_lt, ℤ, pos, negsuc, leb, ltb, ◌==◌, ◌||◌, Bool, true,
  false, if◌then◌else◌, Fits, arith, le→ltb-false, subst,
}
use morgue.Cursor.{pure, wrapped, repeat}
use morgue.Cursor.Words.{word_bytes, int32_bytes}
use morgue.Cursor.Reads.{
  Reads, Reads-pure, Reads-wrapped, Reads-bind, Reads-then, Reads-last, Reads-map,
  Reads-else_branch, Reads-repeat, write_all, numbered,
}
use morgue.ByteReader.{Error, wrap, wrap_at, uint8, uint16, uint64}
use morgue.ByteReader.Laws.{
  Reads-take_bytes, Reads-uint8, Reads-uint16, Reads-uint32, Reads-uint64, Reads-int32,
}
use morgue.Usmap.{
  Text, usmap_max_names, usmap_max_enum_vals, usmap_max_props, usmap_max_string_len, resolve, lift,
  read_name, usmap_name, parse_usmap_property_type, parse_usmap_property, parse_usmap_struct,
  parse_enum_entry, parse_usmap_enum, read_count, parse_usmap_body, pt_array, pt_struct, pt_map,
  pt_set, pt_enum, pt_optional,
}
use morgue.Usmap.Format.{
  array, set, optional, WireType, leaf, enumeration, structure, container, mapping, WireProperty,
  WireStruct, WireEntry, WireEnum, WireBody, write_type, write_property, write_struct, write_name,
  write_entry, write_enum, write_body, name_at, type_meaning, property_meaning, struct_meaning,
  entry_meaning, enum_meaning, body_meaning, IsIndex, IsLeaf, IsType, IsWireProperty, IsWireStruct,
  IsWireEnum, IsWireBody,
}

resolve-name_at :
    (names : List Text) (i : ℤ) → IsIndex (length names) i → resolve names i ≡ ok (name_at names i)
unfolding resolve name_at
resolve-name_at names (negsuc zero) h = refl
resolve-name_at names (negsuc (suc n)) h = absurd (omega arith)
resolve-name_at names (pos i) h =
    let (s, e) = get_elem?-some_iff_lt names i h in rw (e, resolve, name_at)

Reads-lift : {r : Result Error Text} {s : Text} → r ≡ ok s → Reads (lift r) [] s
Reads-lift {r} {s} e = subst (λ x. Reads (lift x) [] s) (sym e) (unfold lift in Reads-pure)

IsIndex-Fits : (n : ℕ) (i : ℤ) → n ≤ usmap_max_names → IsIndex n i → Fits (2 ^ 31) i
IsIndex-Fits n (negsuc k) hn h = omega arith
IsIndex-Fits n (pos k) hn h = omega arith

-- uint16 or uint8, by the version.
Reads-short :
    (b : Bool) (n : ℕ)
    → n < 256 ^ (if b then 2 else 1)
    → Reads (if b then uint16 else uint8) (word_bytes (if b then 2 else 1) n) n
Reads-short true n h = Reads-uint16 n h
Reads-short false n h = Reads-uint8 n h

short-le : (b : Bool) (n : ℕ) → n < 256 ^ (if b then 2 else 1) → n < 2 ^ 16
short-le true n h = omega arith
short-le false n h = omega arith

Reads-read_count :
    (what : String) (cap n : ℕ)
    → n ≤ cap
    → cap < 2 ^ 32
    → Reads (read_count what cap) (word_bytes 4 n) n
unfolding read_count
Reads-read_count what cap n h g =
    Reads-last _ (Reads-wrapped (wrap what) (Reads-uint32 n (omega arith)))
      (Reads-else_branch _ _ (ltb cap n) (le→ltb-false cap n h) Reads-pure)

Reads-usmap_name :
    (version : ℕ) (s : Text)
    → length s < 256 ^ (if leb 2 version then 2 else 1)
    → Reads (usmap_name version) (write_name version s) s
unfolding usmap_name write_name
Reads-usmap_name version s h = Reads-bind _ (Reads-short (leb 2 version) (length s) h) (
    Reads-else_branch _ _ (ltb usmap_max_string_len (length s))
      (le→ltb-false _ _ (omega (arith, short-le (leb 2 version) (length s) h)))
      (Reads-take_bytes s))

no_container :
    (tag : ℕ) → IsLeaf tag → (tag == pt_array || (tag == pt_set || tag == pt_optional)) ≡ false
no_container tag h = ground (arith, h.no_array, h.no_set, h.no_optional)

module _ (names : List Text) (cap : length names ≤ usmap_max_names) where
  Reads-read_name :
      (f : Error → Error) (i : ℤ)
      → IsIndex (length names) i
      → Reads (read_name names f) (int32_bytes i) (name_at names i)
  unfolding read_name
  Reads-read_name f i h =
      Reads-last _ (Reads-wrapped f (Reads-int32 i (IsIndex-Fits (length names) i cap h)))
        (Reads-wrapped f (Reads-lift (resolve-name_at names i h)))

  Reads-type :
      (left : ℕ) (t : WireType)
      → IsType (length names) left t
      → Reads (parse_usmap_property_type names left) (write_type t) (type_meaning names t)
  unfolding parse_usmap_property_type write_type type_meaning
  Reads-type zero t h = absurd h
  Reads-type (suc left) (leaf tag) h = Reads-last _ (Reads-wrapped _ (Reads-uint8 tag h.small)) (
      Reads-else_branch _ _ (tag == pt_enum) (ne→==-false _ _ h.no_enum) (
        Reads-else_branch _ _ (tag == pt_struct) (ne→==-false _ _ h.no_struct) (
          Reads-else_branch _ _ (tag == pt_array || (tag == pt_set || tag == pt_optional))
            (no_container tag h)
            (Reads-else_branch _ _ (tag == pt_map) (ne→==-false _ _ h.no_map) Reads-pure))))
  Reads-type (suc left) (enumeration inner name) h =
      Reads-bind _ (Reads-wrapped _ (Reads-uint8 pt_enum (omega arith)))
        (Reads-bind _ (Reads-type left inner h.0) (Reads-map _ (Reads-read_name _ name h.1)))
  Reads-type (suc left) (structure name) h =
      Reads-bind _ (Reads-wrapped _ (Reads-uint8 pt_struct (omega arith)))
        (Reads-map _ (Reads-read_name _ name h))
  Reads-type (suc left) (container array inner) h =
      Reads-bind _ (Reads-wrapped _ (Reads-uint8 pt_array (omega arith)))
        (Reads-map _ (Reads-type left inner h))
  Reads-type (suc left) (container set inner) h =
      Reads-bind _ (Reads-wrapped _ (Reads-uint8 pt_set (omega arith)))
        (Reads-map _ (Reads-type left inner h))
  Reads-type (suc left) (container optional inner) h =
      Reads-bind _ (Reads-wrapped _ (Reads-uint8 pt_optional (omega arith)))
        (Reads-map _ (Reads-type left inner h))
  Reads-type (suc left) (mapping key value) h =
      Reads-bind _ (Reads-wrapped _ (Reads-uint8 pt_map (omega arith)))
        (Reads-bind _ (Reads-type left key h.0) (Reads-map _ (Reads-type left value h.1)))

  Reads-property :
      (p : WireProperty)
      → IsWireProperty (length names) p
      → Reads (parse_usmap_property names) (write_property p) (property_meaning names p)
  unfolding parse_usmap_property write_property property_meaning
  Reads-property p h = Reads-bind _ (Reads-wrapped _ (Reads-uint16 p.index h.index_fits)) (
      Reads-bind _ (Reads-wrapped _ (Reads-uint8 p.array_dim h.dim_fits)) (
        Reads-bind _ (Reads-read_name _ p.name h.name_fits)
          (Reads-map _ (Reads-wrapped _ (Reads-type 33 p.type h.type_fits)))))

  Reads-struct :
      (s : WireStruct)
      → IsWireStruct (length names) s
      → Reads (parse_usmap_struct names) (write_struct s) (struct_meaning names s)
  unfolding parse_usmap_struct write_struct struct_meaning
  Reads-struct s h = Reads-bind _ (Reads-read_name _ s.name h.name_fits) (
      Reads-bind _ (Reads-read_name _ s.super h.super_fits) (
        Reads-then (Reads-wrapped _ (Reads-uint16 s.slots h.slots_fit)) (
          Reads-bind _ (Reads-wrapped _ (Reads-uint16 (length s.properties) h.count_fits)) (
            Reads-else_branch _ _ (ltb usmap_max_props (length s.properties))
              (le→ltb-false _ _ (omega (arith, h.count_fits)))
              (Reads-map _ (
                Reads-repeat write_property (λ _. property_meaning names) _ s.properties 0
                  (All-map _ _ (λ p g j. Reads-wrapped _ (Reads-property p g)) s.properties
                    h.properties_fit)))))))

  module _ (version : ℕ) where
    Reads-value :
        (f : Error → Error) (b : Bool) (v j : ℕ)
        → v < 2 ^ 64
        → Reads
            (if b then wrapped f uint64 else pure j)
            (if b then word_bytes 8 v else [])
            (if b then v else j)
    Reads-value f true v j h = Reads-wrapped f (Reads-uint64 v h)
    Reads-value f false v j h = Reads-pure

    Reads-entry :
        (i : ℕ) (e : WireEntry) (j : ℕ)
        → (e.value < 2 ^ 64) × IsIndex (length names) e.name
        → Reads
            (parse_enum_entry version names i j)
            (write_entry version e)
            (entry_meaning names version j e)
    unfolding parse_enum_entry write_entry entry_meaning
    Reads-entry i e j h =
        Reads-bind _ (Reads-value _ (leb 4 version) e.value j h.0)
          (Reads-map _ (Reads-read_name _ e.name h.1))

    Reads-enum :
        (e : WireEnum) (i : ℕ)
        → IsWireEnum (length names) version e
        → Reads
            (parse_usmap_enum version names i)
            (write_enum version e)
            (enum_meaning names version e)
    unfolding parse_usmap_enum write_enum enum_meaning
    Reads-enum e i h = Reads-bind _ (Reads-read_name _ e.name h.name_fits) (
        Reads-bind _ (Reads-wrapped _ (Reads-short (leb 3 version) (length e.entries) h.count_fits))
          (Reads-else_branch _ _ (ltb usmap_max_enum_vals (length e.entries))
            (le→ltb-false _ _
              (omega (arith, short-le (leb 3 version) (length e.entries) h.count_fits)))
            (Reads-map _ (
              Reads-repeat (write_entry version) (entry_meaning names version) _ e.entries 0
                (All-map _ _ (λ d g j. Reads-entry i d j g) e.entries h.values_fit)))))

-- The parser returns the names of the table one by one.
numbered_id : (i : ℕ) (names : List Text) → numbered (λ _ s. s) i names ≡ names
numbered_id i [] = refl
numbered_id i (s ∷ names) = ap (λ t. s ∷ t) (numbered_id (i + 1) names)

-- `parse_usmap_body` takes a body of any version that is written in the documented format, with
-- counts within the caps, indices in the table and types nested at most 33 deep, off the front of its
-- input, whatever follows it, and returns what the body stands for.
pub parse_usmap_body-write_body :
    (version : ℕ) (b : WireBody)
    → IsWireBody version b
    → Reads (parse_usmap_body version) (write_body version b) (body_meaning version b)
unfolding parse_usmap_body write_body body_meaning
parse_usmap_body-write_body version b h =
    Reads-bind _ (Reads-read_count _ _ (length b.names) h.names_cap (omega arith)) (
      Reads-bind _ names (
        Reads-bind _ (Reads-read_count _ _ (length b.enums) h.enums_cap (omega arith)) (
          Reads-bind _
            (Reads-repeat (write_enum version) (λ _. enum_meaning b.names version) _ b.enums 0
              (All-map _ _ (λ e g j. Reads-enum b.names h.names_cap version e j g) b.enums
                h.enums_fit))
            (Reads-bind _ (Reads-read_count _ _ (length b.structs) h.structs_cap (omega arith)) (
              Reads-map _ (
                Reads-repeat write_struct (λ _. struct_meaning b.names) _ b.structs 0
                  (All-map _ _ (λ s g j. Reads-wrapped _ (Reads-struct b.names h.names_cap s g))
                    b.structs h.structs_fit)))))))
  where
    names :
        Reads
          (repeat (λ i. wrapped (wrap_at "usmap: name" i) (usmap_name version)) (length b.names) 0)
          (write_all (write_name version) b.names)
          b.names
    names =
        subst
          (λ ns.
            Reads
              (repeat (λ i. wrapped (wrap_at "usmap: name" i) (usmap_name version)) (length b.names)
                0)
              (write_all (write_name version) b.names) ns)
          (numbered_id 0 b.names)
          (Reads-repeat (write_name version) (λ _ s. s) _ b.names 0
            (All-map _ _ (λ s g j. Reads-wrapped _ (Reads-usmap_name version s g)) b.names
              h.lengths_fit))
