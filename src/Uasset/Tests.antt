-- ===== src/Uasset/Tests.antt =====
-- The package parser of internal/recipe/uasset.go on small packages.
use morgue.Common.{
  ◌≡◌, ◌≤◌, refl, List, [], ◌∷◌, ◌++◌, map, true, false, none, some, Bytes, ok, All, length, pos,
  negsuc, unsigned, codes, arith, ◌-◌,
}
use morgue.Cursor.{run}
use morgue.Cursor.Words.{little_endian, word_bytes, int32_bytes}
use morgue.Cursor.Reads.{write_all}
use morgue.ByteReader.{uint32, int32, take_bytes, need, remaining, skip, move}
use morgue.Uasset.{read_name_table, scan_name_table_start}
use morgue.Uasset.Names.{IsFName, total_length, read_name_table-IsTable}
use morgue.Uasset.Scan.{IsFirst, scan_name_table_start-IsFirst}
use morgue.Uasset.Written.{NameRecord, write_record, IsRecord}
use morgue.Uasset.RoundTrip.{read_name_table-write}
use morgue.Uasset.Package.{
  uasset_tag, fstring, fstring_of, skip_custom_versions, skip_int32, checked_table, read_summary,
  package_info, info_of, parse_uasset,
}
use morgue.Uasset.Package.Laws.{IsInfo, parse_uasset-IsInfo}

-- A name with a NUL and zeroed hash bytes, and one without either.
abbrev records : List NameRecord
records =
    record { name = codes "ab"; nul = true; hash = some (pos 0) }
    ∷ record { name = codes "c"; nul = false; hash = none }
    ∷ []

records-IsRecord : All IsRecord records
records-IsRecord = (
  record {
    named = record {
      not_empty = omega arith;
      short = omega arith;
      printable = ((omega arith, omega arith), ((omega arith, omega arith), tt));
    };
    short = omega arith;
    hashed = refl;
  },
  (
    record {
      named = record {
        not_empty = omega arith;
        short = omega arith;
        printable = ((omega arith, omega arith), tt);
      };
      short = omega arith;
      hashed = tt;
    },
    tt,
  ),
)

read_name_table-write_example :
    (read_name_table ((7 ∷ 7 ∷ []) ++ (write_all write_record records ++ (1 ∷ []))) 2 2).0
    ≡ map (λ (r : NameRecord). r.name) records
read_name_table-write_example = read_name_table-write (7 ∷ 7 ∷ []) (1 ∷ []) records records-IsRecord

abbrev table : Bytes
table = 0 ∷ write_all write_record records

read_name_table-IsTable_example :
    All IsFName (read_name_table table 1 5).0
    × (length (read_name_table table 1 5).0 ≤ 5)
    × (total_length (read_name_table table 1 5).0 ≤ length table - 1)
read_name_table-IsTable_example = read_name_table-IsTable table 1 5

scan_name_table_start-IsFirst_example : IsFirst table 0x14 (scan_name_table_start table)
scan_name_table_start-IsFirst_example = scan_name_table_start-IsFirst table

-- A package of the legacy version -7 with one name.
abbrev package_of_one : Bytes
package_of_one =
    word_bytes 4 uasset_tag
    ++ (int32_bytes (negsuc 6)
        ++ (word_bytes 4 0
            ++ (word_bytes 4 522
                ++ (word_bytes 4 0
                    ++ (word_bytes 4 0
                        ++ (word_bytes 4 57
                            ++ (word_bytes 4 0
                                ++ (word_bytes 4 0
                                    ++ (word_bytes 4 1
                                        ++ (word_bytes 4 44
                                            ++ (word_bytes 4 5
                                                ++ (codes "Part" ++ 0 ∷ []))))))))))))

parses : parse_uasset (ok package_of_one) ≡ ok (package_info package_of_one 1 44)
unfolding parse_uasset read_summary info_of run uint32 int32 take_bytes need remaining skip move
    little_endian word_bytes fstring fstring_of skip_custom_versions skip_int32 checked_table
    unsigned
parses = refl

parse_uasset-IsInfo_example : IsInfo (length package_of_one) (package_info package_of_one 1 44)
parse_uasset-IsInfo_example =
    parse_uasset-IsInfo package_of_one (package_info package_of_one 1 44) parses
