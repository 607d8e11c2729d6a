-- ===== src/Sdk/Tests.antt =====
-- Runs of internal/recipe/sdk.go on the mappings of two classes and an enum.
use mathlib.Core.List.Permᴰ
use morgue.Common.{
  ℕ, ◌≡◌, refl, [], ◌∷◌, ◌++◌, true, false, none, some, arith, codes, map, text_eq, itoa,
}
use morgue.Csplit.Split.{text_lt}
use morgue.Csplit.Text.{has_prefix}
use morgue.Usmap.{Text, UsmapPropertyType, property_type, nil, to, UsmapProperty, UsmapStruct}
use morgue.Usmap.File.{UsmapData}
use morgue.Sdk.Sort.{sort, insert}
use morgue.Sdk.{
  cpp_type, type_string, cpp_switch, string_switch, case_of, class_of, sorted_classes, enum_values,
  is_boilerplate_class, is_boilerplate_usmap_class, property_of, cpp_type_at,
}
use morgue.Sdk.Dump.{Disk, class_text, write_sdk_dump}
use morgue.Sdk.Fallback.{with_classes, sdk_fallback_from_symbols}
use morgue.Sdk.Resolution.{
  build_usmap_resolution, match_usmap, strip_ue_prefix, with_assets, with_symbols, join_names,
}
use morgue.Sdk.Rendered.{IsSorting, sorted_classes-IsSorting}
use morgue.Sdk.Sorted.{enum_values-Permᴰ}
use morgue.Sdk.Totals.{Agrees, write_sdk_dump-Agrees}
use morgue.Sdk.Matches.{IsMatch, match_usmap-IsMatch, strip_ue_prefix-boilerplate}
use morgue.Sdk.Joined.{Bounded, build_usmap_resolution-Bounded}
use morgue.Sdk.Printers.{struct_named, holds, array, cpp_type-type_string}

abbrev scalar : Text → UsmapPropertyType
scalar type = property_type type [] [] nil nil

-- A map from names to arrays of FItem.
abbrev items : UsmapPropertyType
items = property_type (codes "MapProperty") [] [] (to (scalar (codes "NameProperty"))) (
    to (
      property_type (codes "ArrayProperty") [] []
        (to (property_type (codes "StructProperty") (codes "Item") [] nil nil)) nil))

abbrev field : Text → UsmapPropertyType → ℕ → UsmapProperty
field name type dim = record { index = 0; name = name; array_dim = dim; type = type }

abbrev pawn : UsmapStruct
pawn = record {
  name = codes "Pawn";
  super_type = codes "Actor";
  properties =
      field (codes "slots") (scalar (codes "ByteProperty")) 4
      ∷ (field (codes "items") items 1 ∷ []);
}

abbrev actor : UsmapStruct
actor = record { name = codes "ActorComponent"; super_type = []; properties = [] }

abbrev mappings : UsmapData
mappings = record {
  version = 4;
  compression_method = 3;
  body = record {
    names = [];
    enums = record { name = codes "EMode"; names = (1, codes "On") ∷ ((0, codes "Off") ∷ []) } ∷ [];
    structs = pawn ∷ (actor ∷ []);
  };
}

-- A disk on which every call succeeds.
abbrev disk : Disk
disk = record {
  join = λ dir name. dir ++ (codes "/" ++ name);
  to_slash = λ path. path;
  mkdir_all = λ dir. none;
  create = λ path. none;
  write_file = λ path. none;
  encode = λ dump. none;
}

abbrev readme : Text → ℕ → ℕ → ℕ → Text
readme source version classes enums = source

nested_map : cpp_type (to items) ≡ codes "TMap<FName, TArray<FItem>>"
unfolding cpp_type cpp_switch case_of text_eq
nested_map = refl

compact_map : type_string (to items) ≡ codes "TMap<NameProperty, TArray<FItem>>"
unfolding type_string string_switch text_eq
compact_map = refl

pawn_text :
    class_text (class_of pawn)
    ≡ codes "class Pawn : public Actor {"
      ++ (10 ∷ [])
      ++ codes "    uint8 slots[4];"
      ++ (10 ∷ [])
      ++ codes "    TMap<FName, TArray<FItem>> items;"
      ++ (10 ∷ [])
      ++ codes "};"
      ++ (10 ∷ (10 ∷ []))
unfolding class_text class_of is_boilerplate_usmap_class is_boilerplate_class has_prefix property_of
    cpp_type_at cpp_switch text_eq case_of itoa
pawn_text = refl

by_name :
    map (λ c. c.name) (sorted_classes mappings.body.structs)
    ≡ codes "ActorComponent" ∷ (codes "Pawn" ∷ [])
unfolding sorted_classes sort insert text_lt class_of
by_name = refl

engine_flags : map (λ c. c.boilerplate) (sorted_classes mappings.body.structs) ≡ true ∷ (false ∷ [])
unfolding sorted_classes sort insert text_lt class_of is_boilerplate_usmap_class
    is_boilerplate_class has_prefix
engine_flags = refl

by_value :
    map (λ v. v.value) (enum_values ((1, codes "On") ∷ ((0, codes "Off") ∷ []))) ≡ 0 ∷ (1 ∷ [])
unfolding enum_values sort insert
by_value = refl

apple : strip_ue_prefix (codes "Apple") ≡ codes "Apple"
unfolding strip_ue_prefix
apple = refl

joined :
    (build_usmap_resolution
      (λ ns. ns)
      mappings
      (some (codes "APawn" ∷ (codes "Pawn" ∷ (codes "Main" ∷ []))))
      none).matched_symbol_classes
    ≡ 1
unfolding build_usmap_resolution with_assets with_symbols join_names match_usmap text_eq
joined = refl

found : match_usmap (codes "Pawn" ∷ (codes "Apple" ∷ [])) (codes "APawn") ≡ some (codes "Pawn")
unfolding match_usmap text_eq
found = refl

engine_class : is_boilerplate_class (codes "UActorComponent") ≡ true
unfolding is_boilerplate_class has_prefix
engine_class = refl

sorted_classes-IsSorting_example :
    IsSorting (pawn ∷ (actor ∷ [])) (sorted_classes (pawn ∷ (actor ∷ [])))
sorted_classes-IsSorting_example = sorted_classes-IsSorting (pawn ∷ (actor ∷ []))

enum_values-Permᴰ_example :
    enum_values ((1, codes "On") ∷ ((0, codes "Off") ∷ []))
    ≡ enum_values ((0, codes "Off") ∷ ((1, codes "On") ∷ []))
enum_values-Permᴰ_example =
    enum_values-Permᴰ ((1, codes "On") ∷ ((0, codes "Off") ∷ []))
      ((0, codes "Off") ∷ ((1, codes "On") ∷ [])) ((omega arith, tt), (tt, tt))
      (Permᴰ.swap refl refl)

write_sdk_dump-Agrees_example :
    Agrees
      (write_sdk_dump disk readme (codes "out") mappings (codes "a.usmap"))
      (build_usmap_resolution (λ ns. ns) mappings (some (codes "APawn" ∷ [])) none)
      (codes "out/sdk")
write_sdk_dump-Agrees_example =
    write_sdk_dump-Agrees disk readme (codes "out") mappings (codes "a.usmap") (λ ns. ns)
      (some (codes "APawn" ∷ [])) none
      (record {
        mkdir_all = λ dir. refl;
        create = λ path. refl;
        write_file = λ path. refl;
        encodes = λ dump. refl;
      })

match_usmap-IsMatch_example :
    IsMatch
      (codes "Pawn" ∷ (codes "Apple" ∷ []))
      (codes "APawn")
      (match_usmap (codes "Pawn" ∷ (codes "Apple" ∷ [])) (codes "APawn"))
match_usmap-IsMatch_example =
    match_usmap-IsMatch (codes "Pawn" ∷ (codes "Apple" ∷ [])) (codes "APawn")

strip_ue_prefix-boilerplate_example :
    is_boilerplate_usmap_class (strip_ue_prefix (codes "UActorComponent")) ≡ true
strip_ue_prefix-boilerplate_example =
    strip_ue_prefix-boilerplate (codes "UActorComponent") engine_class

build_usmap_resolution-Bounded_example : Bounded (
    build_usmap_resolution
      (λ ns. ns)
      mappings
      (some (codes "APawn" ∷ (codes "Pawn" ∷ (codes "Pawn" ∷ []))))
      (some ((codes "Pawn" ∷ []) ∷ [])))
build_usmap_resolution-Bounded_example =
    build_usmap_resolution-Bounded (λ ns. ns) mappings
      (some (codes "APawn" ∷ (codes "Pawn" ∷ (codes "Pawn" ∷ []))))
      (some ((codes "Pawn" ∷ []) ∷ []))

cpp_type-type_string_example :
    cpp_type (
      to (
        property_type
          (codes "ArrayProperty")
          []
          []
          (to (property_type (codes "StructProperty") (codes "Item") [] nil nil))
          nil))
    ≡ type_string (
        to (
          property_type
            (codes "ArrayProperty")
            []
            []
            (to (property_type (codes "StructProperty") (codes "Item") [] nil nil))
            nil))
cpp_type-type_string_example =
    cpp_type-type_string
      (property_type (codes "ArrayProperty") [] []
        (to (property_type (codes "StructProperty") (codes "Item") [] nil nil)) nil)
      (holds array [] [] nil (struct_named b'I' (codes "tem") [] nil nil))

-- Without mappings, the classes of symbols.json are listed in order.
fallback_count :
    (sdk_fallback_from_symbols disk
      (λ n. [])
      (codes "out")
      (with_classes (codes "B" ∷ (codes "A" ∷ [])))).1.0
    ≡ 2
unfolding sdk_fallback_from_symbols sort insert text_lt
fallback_count = refl

-- The converse of the theorem on stripping fails: FBox is a prefix of FBoxTrap.
box_trap :
    (is_boilerplate_class (codes "ABoxTrap") ≡ false)
    × (is_boilerplate_usmap_class (strip_ue_prefix (codes "ABoxTrap")) ≡ true)
unfolding is_boilerplate_usmap_class is_boilerplate_class has_prefix strip_ue_prefix
box_trap = (refl, refl)
