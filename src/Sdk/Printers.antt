-- ===== src/Sdk/Printers.antt =====
-- The two printers of a property type: cppType in internal/recipe/sdk.go and the method String in
-- internal/recipe/usmap.go.
use morgue.Common.{ℕ, ◌≡◌, refl, ap, ap₂, ◌∷◌, ◌++◌, codes, text_eq, String}
use morgue.Usmap.{Text, UsmapPropertyType, Pointer, property_type, to}
use morgue.Sdk.{cpp_type, type_string, cpp_switch, string_switch}

-- The name of a property that holds one type.
pub data Holder : Type 0 where
  array set optional : Holder

abbrev pub holder_name : Holder → String
holder_name array = "ArrayProperty"
holder_name set = "SetProperty"
holder_name optional = "OptionalProperty"

-- Containers of structs and of enums that have a name, or containers of such containers.
pub data Named : UsmapPropertyType → Type 0 where
  struct_named :
      (c : ℕ) (s enum_name : Text) (inner value : Pointer)
      → Named (property_type (codes "StructProperty") (c ∷ s) enum_name inner value)
  enum_named :
      (c : ℕ) (struct_type s : Text) (inner value : Pointer)
      → Named (property_type (codes "EnumProperty") struct_type (c ∷ s) inner value)
  holds :
      (h : Holder) (struct_type enum_name : Text) {t : UsmapPropertyType} (value : Pointer)
      → Named t
      → Named (property_type (codes (holder_name h)) struct_type enum_name (to t) value)
  maps :
      (struct_type enum_name : Text) {t u : UsmapPropertyType}
      → Named t
      → Named u
      → Named (property_type (codes "MapProperty") struct_type enum_name (to t) (to u))

-- The C++ type and the compact form of a type are the same text, if the type is a struct or an enum
-- that has a name, or arrays, sets, optionals and maps built of such types.
pub cpp_type-type_string : (t : UsmapPropertyType) → Named t → cpp_type (to t) ≡ type_string (to t)
unfolding cpp_type type_string cpp_switch string_switch text_eq
cpp_type-type_string (property_type type s e i v) (struct_named c s' e' i' v') = refl
cpp_type-type_string (property_type type s e i v) (enum_named c s' e' i' v') = refl
cpp_type-type_string (property_type type s e (to t) v) (holds array s' e' v' n) =
    ap (λ r. codes "TArray<" ++ (r ++ codes ">")) (cpp_type-type_string t n)
cpp_type-type_string (property_type type s e (to t) v) (holds set s' e' v' n) =
    ap (λ r. codes "TSet<" ++ (r ++ codes ">")) (cpp_type-type_string t n)
cpp_type-type_string (property_type type s e (to t) v) (holds optional s' e' v' n) =
    ap (λ r. codes "TOptional<" ++ (r ++ codes ">")) (cpp_type-type_string t n)
cpp_type-type_string (property_type type s e (to t) (to u)) (maps s' e' n k) =
    ap₂ (λ r q. codes "TMap<" ++ (r ++ (codes ", " ++ (q ++ codes ">")))) (cpp_type-type_string t n)
      (cpp_type-type_string u k)
