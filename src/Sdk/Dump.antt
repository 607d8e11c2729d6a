-- ===== src/Sdk/Dump.antt =====
-- writeSDKDump in internal/recipe/sdk.go: the files they write, in order.
-- The file system, filepath and the failure of the JSON encoder are parameters; a failed write behind
-- the buffers of the headers, which the code ignores, is not modelled.
use morgue.Common.{
  ℕ, suc, List, [], ◌∷◌, ◌++◌, Option, none, some, Result, ok, err, length, ltb, if◌then◌else◌,
  codes, itoa, map,
}
use morgue.Usmap.{Text, UsmapStruct}
use morgue.Usmap.File.{UsmapData}
use morgue.Csplit.Text.{is_empty}
use morgue.Sdk.{
  SdkProperty, SdkClass, SdkEnumValue, SdkEnum, SdkDump, SdkResult, property_of, sorted_classes,
  sorted_enums,
}

-- Calls that may fail answer with the text of the error.
pub record Disk : Type 0 where
  pub join : Text → Text → Text
  pub to_slash : Text → Text
  pub mkdir_all : Text → Option Text
  pub create : Text → Option Text
  pub write_file : Text → Option Text
  pub encode : SdkDump → Option Text

pub data Content : Type 0 where
  json : SdkDump → Content
  text : Text → Content

abbrev pub Files : Type 0
Files = List (Text × Content)

abbrev newline : Text
newline = b'\n' ∷ []

abbrev pub em_dash : Text
em_dash = 0xe2 ∷ (0x80 ∷ (0x94 ∷ []))

-- propCount++, once for each property of each struct.
unfoldable pub count_rendered : ℕ → List SdkProperty → ℕ
count_rendered n [] = n
count_rendered n (p ∷ ps) = count_rendered (suc n) ps

unfoldable pub prop_count : ℕ → List UsmapStruct → ℕ
unfolding count_rendered
prop_count n [] = n
prop_count n (s ∷ ss) = prop_count (count_rendered n (map property_of s.properties)) ss

unfoldable pub property_line : SdkProperty → Text
property_line p =
    codes "    "
    ++ p.cpp_type
    ++ codes " "
    ++ p.name
    ++ (if ltb 1 p.array_dim then codes "[" ++ itoa p.array_dim ++ codes "]" else [])
    ++ codes ";"
    ++ newline

unfoldable pub property_lines : List SdkProperty → Text
unfolding property_line
property_lines [] = []
property_lines (p ∷ ps) = property_line p ++ property_lines ps

unfoldable pub class_text : SdkClass → Text
unfolding property_lines
class_text c =
    codes "class "
    ++ c.name
    ++ (if is_empty c.super then [] else codes " : public " ++ c.super)
    ++ codes " {"
    ++ (if c.boilerplate then codes " // [engine]" else [])
    ++ newline
    ++ property_lines c.properties
    ++ codes "};"
    ++ newline
    ++ newline

unfoldable pub class_texts : List SdkClass → Text
unfolding class_text
class_texts [] = []
class_texts (c ∷ cs) = class_text c ++ class_texts cs

unfoldable pub headers_text : List SdkClass → Text
unfolding class_texts
headers_text classes =
    codes "// SDK classes reconstructed offline from .usmap mappings."
    ++ newline
    ++ codes "// Fields only "
    ++ em_dash
    ++ codes " .usmap carries UPROPERTYs, not methods/offsets/sizes."
    ++ newline
    ++ codes "// Engine boilerplate classes are annotated with a // [engine] comment."
    ++ newline
    ++ newline
    ++ class_texts classes

unfoldable pub value_lines : List SdkEnumValue → Text
value_lines [] = []
value_lines (v ∷ vs) =
    (codes "    " ++ v.name ++ codes " = " ++ itoa v.value ++ codes "," ++ newline)
    ++ value_lines vs

unfoldable pub enum_texts : List SdkEnum → Text
unfolding value_lines
enum_texts [] = []
enum_texts (e ∷ es) =
    (codes "enum class "
      ++ e.name
      ++ codes " {"
      ++ newline
      ++ value_lines e.values
      ++ codes "};"
      ++ newline
      ++ newline)
    ++ enum_texts es

unfoldable pub enums_text : List SdkEnum → Text
unfolding enum_texts
enums_text enums =
    codes "// SDK enums reconstructed offline from .usmap mappings."
    ++ newline
    ++ newline
    ++ enum_texts enums

-- A call that fails ends the dump with its error; the files before it stay.
unfoldable pub checked :
    Option Text → Text → Files → Result Text SdkResult × Files → Result Text SdkResult × Files
checked none what files rest = rest
checked (some e) what files rest = (err (what ++ e), files)

module _ (disk : Disk) (readme : Text → ℕ → ℕ → ℕ → Text) where
  abbrev dump_of : UsmapData → Text → SdkDump
  dump_of m source = record {
    source = disk.to_slash source;
    usmap_version = m.version;
    class_count = length (sorted_classes m.body.structs);
    enum_count = length (sorted_enums m.body.enums);
    classes = sorted_classes m.body.structs;
    enums = sorted_enums m.body.enums;
  }

  -- The files in the order they are written in.
  abbrev json_file : Text → UsmapData → Text → Text × Content
  json_file dir m source = (disk.join dir (codes "sdk.json"), json (dump_of m source))

  abbrev classes_file : Text → UsmapData → Text × Content
  classes_file dir m =
      (disk.join dir (codes "classes.hpp"), text (headers_text (sorted_classes m.body.structs)))

  abbrev enums_file : Text → UsmapData → Text × Content
  enums_file dir m =
      (disk.join dir (codes "enums.hpp"), text (enums_text (sorted_enums m.body.enums)))

  abbrev readme_file : Text → UsmapData → Text → Text × Content
  readme_file dir m source = (
    disk.join dir (codes "README.md"),
    text (
        readme (disk.to_slash source) m.version (length (sorted_classes m.body.structs))
          (length (sorted_enums m.body.enums))),
  )

  -- The four writers. sdk.json and the headers exist, empty, from the moment they are created, and an
  -- encoder that fails leaves a part of sdk.json: neither is told from a file that is not there.
  unfoldable pub write_sdk_dump : Text → UsmapData → Text → Result Text SdkResult × Files
  unfolding checked
  write_sdk_dump out_dir m source =
      let dir = disk.join out_dir (codes "sdk") in
      let sdk_json = json_file dir m source in
      let classes_hpp = classes_file dir m in
      let enums_hpp = enums_file dir m in
      let readme_md = readme_file dir m source in
      checked (disk.mkdir_all dir) (codes "sdk: mkdir: ") [] (
        checked (disk.create sdk_json.0) (codes "sdk: create sdk.json: ") [] (
          checked (disk.encode (dump_of m source)) (codes "sdk: encode sdk.json: ") [] (
            checked (disk.create classes_hpp.0) (codes "sdk: create classes.hpp: ") (sdk_json ∷ [])
              (checked (disk.create enums_hpp.0) (codes "sdk: create enums.hpp: ")
                (sdk_json ∷ (classes_hpp ∷ []))
                (checked (disk.write_file readme_md.0) (codes "sdk: write README: ")
                  (sdk_json ∷ (classes_hpp ∷ (enums_hpp ∷ [])))
                  (
                    ok (record {
                      classes = length (sorted_classes m.body.structs);
                      enums = length (sorted_enums m.body.enums);
                      properties = prop_count 0 m.body.structs;
                      dir = dir;
                    }),
                    sdk_json ∷ (classes_hpp ∷ (enums_hpp ∷ (readme_md ∷ []))),
                  ))))))
