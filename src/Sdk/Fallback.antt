-- ===== src/Sdk/Fallback.antt =====
-- sdkFallbackFromSymbols in internal/recipe/sdk.go: the SDK without mappings. What becomes of
-- symbols.json, and the text of the readme, are parameters; `log` is there.
use morgue.Common.{ℕ, List, [], ◌∷◌, ◌++◌, Option, none, some, codes, length, map}
use morgue.Usmap.{Text}
use morgue.Sdk.Sort.{sort}
use morgue.Sdk.{SdkClass, SdkDump, is_boilerplate_class, class_less}
use morgue.Sdk.Dump.{Disk, Files, Content, em_dash, json, text}

-- symbols.json: not there, not readable, not decodable, or its class names.
pub data Symbols : Type 0 where
  absent : Symbols
  unreadable undecodable : Text → Symbols
  with_classes : List Text → Symbols

-- What has been logged, the number returned, and the files.
abbrev pub Outcome : Type 0
Outcome = List Text × (ℕ × Files)

unfoldable pub fallback_class : Text → SdkClass
fallback_class name = record {
  name = name;
  super = [];
  boilerplate = is_boilerplate_class name;
  properties = [];
}

unfoldable pub fallback_dump : List SdkClass → SdkDump
fallback_dump classes = record {
  source = codes "symbols.json (no .usmap available " ++ em_dash ++ codes " class names only)";
  usmap_version = 0;
  class_count = length classes;
  enum_count = 0;
  classes = classes;
  enums = [];
}

abbrev log_and_stop : Text → Text → Outcome
log_and_stop what e = ((what ++ e) ∷ [], (0, []))

abbrev quiet_stop : Outcome
quiet_stop = ([], (0, []))

-- A call that fails without a message ends the fallback.
abbrev or_stop : Option Text → Outcome → Outcome
or_stop none rest = rest
or_stop (some e) rest = quiet_stop

abbrev or_log : Option Text → Text → Outcome → Outcome
or_log none what rest = rest
or_log (some e) what rest = log_and_stop what e

-- The error of the last write is ignored.
abbrev or_ignore : Option Text → Text × Content → Files
or_ignore none file = file ∷ []
or_ignore (some e) file = []

module _ (disk : Disk) (readme : ℕ → Text) where
  unfoldable pub write_fallback : Text → List SdkClass → Outcome
  write_fallback out_dir sorted =
      let dir = disk.join out_dir (codes "sdk") in
      let dump = fallback_dump sorted in
      let sdk_json = disk.join dir (codes "sdk.json") in
      let readme_md = disk.join dir (codes "README.md") in
      or_log (disk.mkdir_all dir) (codes "SDK fallback: mkdir: ") (
        or_stop (disk.encode dump) (
          or_stop (disk.write_file sdk_json) (
            [],
            (
              length sorted,
              (sdk_json, json dump)
                  ∷ or_ignore (disk.write_file readme_md)
                      (readme_md, text (readme (length sorted))),
            ),
          )))

  unfoldable pub sdk_fallback_from_symbols : Text → Symbols → Outcome
  unfolding write_fallback fallback_class
  sdk_fallback_from_symbols out_dir absent = quiet_stop
  sdk_fallback_from_symbols out_dir (unreadable e) =
      log_and_stop (codes "SDK fallback: read symbols.json: ") e
  sdk_fallback_from_symbols out_dir (undecodable e) =
      log_and_stop (codes "SDK fallback: parse symbols.json: ") e
  sdk_fallback_from_symbols out_dir (with_classes []) = quiet_stop
  sdk_fallback_from_symbols out_dir (with_classes (name ∷ names)) =
      write_fallback out_dir (sort class_less (map fallback_class (name ∷ names)))
