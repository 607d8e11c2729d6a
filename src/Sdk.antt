-- ===== src/Sdk.antt =====
-- The SDK that internal/recipe/sdk.go makes of a parsed .usmap: the type printers, the test for engine
-- classes of internal/recipe/hookable.go, and the classes and the enums of the dump.
pub mod Sort
pub mod Dump
pub mod Fallback
pub mod Resolution
pub mod Sorted
pub mod Rendered
pub mod Totals
pub mod Matches
pub mod Joined
pub mod Printers
mod Tests
use morgue.Common.{
  ℕ, ◌+◌, String, List, [], ◌∷◌, ◌++◌, Bool, true, false, ◌||◌, leb, ◌&&◌, ◌==◌, if◌then◌else◌,
  codes, text_eq, ltb, map,
}
use morgue.Usmap.{
  Text, UsmapPropertyType, Pointer, property_type, nil, to, UsmapProperty, UsmapStruct, UsmapEnum,
}
use morgue.Csplit.Text.{has_prefix, is_empty}
use morgue.Csplit.Split.{text_lt}
use morgue.Sdk.Sort.{sort}

pub record SdkProperty : Type 0 where
  pub name : Text
  pub type : Text
  pub cpp_type : Text
  pub array_dim : ℕ

pub record SdkClass : Type 0 where
  pub name : Text
  pub super : Text
  pub boilerplate : Bool
  pub properties : List SdkProperty

pub record SdkEnumValue : Type 0 where
  pub name : Text
  pub value : ℕ

pub record SdkEnum : Type 0 where
  pub name : Text
  pub values : List SdkEnumValue

pub record SdkDump : Type 0 where
  pub source : Text
  pub usmap_version : ℕ
  pub class_count : ℕ
  pub enum_count : ℕ
  pub classes : List SdkClass
  pub enums : List SdkEnum

pub record SdkResult : Type 0 where
  pub classes : ℕ
  pub enums : ℕ
  pub properties : ℕ
  pub dir : Text

-- The cases of the switch in cppType that answer with a constant.
abbrev pub cpp_names : List (String × String)
cpp_names =
    ("BoolProperty", "bool")
    ∷ ("ByteProperty", "uint8")
    ∷ ("Int8Property", "int8")
    ∷ ("Int16Property", "int16")
    ∷ ("IntProperty", "int32")
    ∷ ("Int64Property", "int64")
    ∷ ("UInt16Property", "uint16")
    ∷ ("UInt32Property", "uint32")
    ∷ ("UInt64Property", "uint64")
    ∷ ("FloatProperty", "float")
    ∷ ("DoubleProperty", "double")
    ∷ ("NameProperty", "FName")
    ∷ ("StrProperty", "FString")
    ∷ ("Utf8StrProperty", "FString")
    ∷ ("AnsiStrProperty", "FString")
    ∷ ("TextProperty", "FText")
    ∷ ("ObjectProperty", "UObject*")
    ∷ ("ClassProperty", "UObject*")
    ∷ ("WeakObjectProperty", "TWeakObjectPtr<UObject>")
    ∷ ("LazyObjectProperty", "TLazyObjectPtr<UObject>")
    ∷ ("SoftObjectProperty", "TSoftObjectPtr<UObject>")
    ∷ ("AssetObjectProperty", "TSoftObjectPtr<UObject>")
    ∷ ("SoftClassProperty", "TSoftClassPtr<UObject>")
    ∷ ("InterfaceProperty", "TScriptInterface<>")
    ∷ ("DelegateProperty", "FScriptDelegate")
    ∷ ("MulticastDelegateProperty", "FMulticastScriptDelegate")
    ∷ ("MulticastInlineDelegateProperty", "FMulticastScriptDelegate")
    ∷ ("FieldPathProperty", "FFieldPath")
    ∷ []

-- The case of a type in a table, or the type itself, which is what the default case answers.
unfoldable pub case_of : List (String × String) → Text → Text
case_of [] type = type
case_of ((name, answer) ∷ cases) type =
    let rest = case_of cases type in if text_eq type (codes name) then codes answer else rest

-- The switch of cppType, given its answers for the pointers; its cases exclude one another, so their
-- order does not matter.
unfoldable pub cpp_switch : Text → Text → Text → Text → Text → Text
cpp_switch type struct_type enum_name inner value =
    if text_eq type (codes "StructProperty")
    then (if is_empty struct_type then codes "FStruct" else codes "F" ++ struct_type)
    else if text_eq type (codes "EnumProperty")
    then (if is_empty enum_name then codes "uint8" else enum_name)
    else if text_eq type (codes "ArrayProperty")
    then codes "TArray<" ++ (inner ++ codes ">")
    else if text_eq type (codes "SetProperty")
    then codes "TSet<" ++ (inner ++ codes ">")
    else if text_eq type (codes "OptionalProperty")
    then codes "TOptional<" ++ (inner ++ codes ">")
    else if text_eq type (codes "MapProperty")
    then codes "TMap<" ++ (inner ++ (codes ", " ++ (value ++ codes ">")))
    else case_of cpp_names type

unfoldable mutual
  pub cpp_type_at : UsmapPropertyType → Text
  cpp_type_at (property_type type struct_type enum_name inner value) =
      cpp_switch type struct_type enum_name (cpp_type inner) (cpp_type value)

  pub cpp_type : Pointer → Text
  cpp_type nil = codes "void"
  cpp_type (to t) = cpp_type_at t

-- The switch of String, given its answers for the pointers.
unfoldable pub string_switch : Text → Text → Text → Text → Text → Text
string_switch type struct_type enum_name inner value =
    if text_eq type (codes "ArrayProperty")
    then codes "TArray<" ++ (inner ++ codes ">")
    else if text_eq type (codes "SetProperty")
    then codes "TSet<" ++ (inner ++ codes ">")
    else if text_eq type (codes "OptionalProperty")
    then codes "TOptional<" ++ (inner ++ codes ">")
    else if text_eq type (codes "MapProperty")
    then codes "TMap<" ++ (inner ++ (codes ", " ++ (value ++ codes ">")))
    else if text_eq type (codes "StructProperty")
    then (if is_empty struct_type then codes "StructProperty" else codes "F" ++ struct_type)
    else if text_eq type (codes "EnumProperty")
    then (if is_empty enum_name then codes "EnumProperty" else enum_name)
    else type

unfoldable mutual
  pub type_string_at : UsmapPropertyType → Text
  type_string_at (property_type type struct_type enum_name inner value) =
      string_switch type struct_type enum_name (type_string inner) (type_string value)

  pub type_string : Pointer → Text
  type_string nil = []
  type_string (to t) = type_string_at t

abbrev pub boilerplate_prefixes : List String
boilerplate_prefixes =
    "UObject" ∷ "AActor" ∷ "UActorComponent" ∷ "UClass" ∷ "UStruct" ∷ "UFunction" ∷ "UScriptStruct"
    ∷ "UEnum" ∷ "UPackage" ∷ "UProperty" ∷ "FProperty" ∷ "FName" ∷ "FString" ∷ "FText" ∷ "FArchive"
    ∷ "FVector" ∷ "FRotator" ∷ "FQuat" ∷ "FTransform" ∷ "FMatrix" ∷ "FBox" ∷ "FColor" ∷ "FGuid"
    ∷ "TArray" ∷ "TMap" ∷ "TSet" ∷ "TWeakObjectPtr" ∷ "TSharedPtr" ∷ "TSharedRef" ∷ "TUniquePtr"
    ∷ "TFunction" ∷ "TOptional" ∷ "TSubclassOf" ∷ "std::" ∷ []

-- The text before the first `<`.
unfoldable pub head_of : Text → Text
head_of [] = []
head_of (c ∷ s) = let rest = head_of s in if c == b'<' then [] else c ∷ rest

-- The loop over the prefixes, for a class and its head.
unfoldable pub has_any_prefix : List String → Text → Text → Bool
has_any_prefix [] class head = false
has_any_prefix (p ∷ ps) class head =
    let rest = has_any_prefix ps class head in
    if has_prefix (codes p) class || has_prefix (codes p) head then true else rest

unfoldable pub is_boilerplate_class : Text → Bool
unfolding has_any_prefix head_of
is_boilerplate_class class = has_any_prefix boilerplate_prefixes class (head_of class)

unfoldable pub is_boilerplate_usmap_class : Text → Bool
is_boilerplate_usmap_class name =
    is_boilerplate_class name
    || is_boilerplate_class (b'U' ∷ name)
    || is_boilerplate_class (b'A' ∷ name)
    || is_boilerplate_class (b'F' ∷ name)

unfoldable pub tag_of_type : UsmapPropertyType → Text
tag_of_type (property_type type struct_type enum_name inner value) = type

-- One round of each of the loops of writeSDKDump.
unfoldable pub property_of : UsmapProperty → SdkProperty
unfolding tag_of_type
property_of p = record {
  name = p.name;
  type = tag_of_type p.type;
  cpp_type = cpp_type_at p.type;
  array_dim = p.array_dim;
}

unfoldable pub class_of : UsmapStruct → SdkClass
class_of s = record {
  name = s.name;
  super = s.super_type;
  boilerplate = is_boilerplate_usmap_class s.name;
  properties = map property_of s.properties;
}

abbrev pub value_of : ℕ × Text → SdkEnumValue
value_of e = record { name = e.1; value = e.0 }

abbrev pub value_less : SdkEnumValue → SdkEnumValue → Bool
value_less a b = ltb a.value b.value

-- The values of an enum, whose map is iterated in the order of the list.
unfoldable pub enum_values : List (ℕ × Text) → List SdkEnumValue
enum_values names = sort value_less (map value_of names)

unfoldable pub enum_of : UsmapEnum → SdkEnum
enum_of e = record { name = e.name; values = enum_values e.names }

abbrev pub class_less : SdkClass → SdkClass → Bool
class_less a b = text_lt a.name b.name

abbrev pub enum_less : SdkEnum → SdkEnum → Bool
enum_less a b = text_lt a.name b.name

unfoldable pub sorted_classes : List UsmapStruct → List SdkClass
sorted_classes structs = sort class_less (map class_of structs)

unfoldable pub sorted_enums : List UsmapEnum → List SdkEnum
sorted_enums enums = sort enum_less (map enum_of enums)
