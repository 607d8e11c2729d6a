-- ===== src/Usmap/Tests.antt =====
-- The parser of internal/recipe/usmap.go on files of a few bytes.
use morgue.Common.{
  ℕ, zero, suc, ◌+◌, ◌≡◌, ◌≤◌, refl, List, [], ◌∷◌, ◌++◌, true, Option, none, some, Bytes, ok, err,
  length, pos, negsuc, codes, arith,
}
use morgue.Cursor.{run}
use morgue.Cursor.Words.{little_endian, word_bytes}
use morgue.Cursor.Reads.{Reads, between}
use morgue.ByteReader.{message_ℕ, uint16, take_bytes, need, remaining}
use morgue.Usmap.{parse_usmap_body, parse_usmap_property_type, usmap_max_nest_depth}
use morgue.Usmap.Format.{
  Container, array, leaf, container, mapping, enumeration, structure, WireBody, write_body,
  write_name, write_enum, write_entry, write_struct, write_property, write_type, body_meaning,
  IsWireBody,
}
use morgue.Usmap.RoundTrip.{parse_usmap_body-write_body}
use morgue.Usmap.Nesting.{write_nest, nesting_refused}
use morgue.Usmap.File.{Zstd, UsmapData, value_of, parse_usmap_header, parse_usmap_bytes}
use morgue.Usmap.File.Laws.{IsParsed, parse_usmap_bytes-IsParsed}
use morgue.Usmap.File.Written.{
  Versioning, IsVersioning, write_header, Stored, compressed, image, parse_usmap_bytes-write,
}

-- A struct with a map of an enum to an array, and the enum.
abbrev sample : WireBody
sample = record {
  names = codes "Kind" ∷ codes "Part" ∷ codes "Parts" ∷ [];
  enums = record { name = pos 0; entries = record { value = 7; name = pos 1 } ∷ [] } ∷ [];
  structs =
      record {
        name = pos 1;
        super = negsuc 0;
        slots = 1;
        properties =
            record {
              index = 0;
              array_dim = 1;
              name = pos 2;
              type = mapping (enumeration (leaf 0) (pos 0)) (container array (structure (pos 1)));
            }
            ∷ [];
      }
      ∷ [];
}

sample-IsWireBody : IsWireBody 4 sample
sample-IsWireBody = record {
  names_cap = omega arith;
  enums_cap = omega arith;
  structs_cap = omega arith;
  lengths_fit = (omega arith, (omega arith, (omega arith, tt)));
  enums_fit = (
    record {
      name_fits = omega arith;
      count_fits = omega arith;
      values_fit = ((omega arith, omega arith), tt);
    },
    tt,
  );
  structs_fit = (
    record {
      name_fits = omega arith;
      super_fits = omega arith;
      slots_fit = omega arith;
      count_fits = omega arith;
      properties_fit = (
        record {
          index_fits = omega arith;
          dim_fits = omega arith;
          name_fits = omega arith;
          type_fits = (
            (
              record {
                small = omega arith;
                no_enum = omega arith;
                no_struct = omega arith;
                no_array = omega arith;
                no_set = omega arith;
                no_optional = omega arith;
                no_map = omega arith;
              },
              omega arith,
            ),
            omega arith,
          );
        },
        tt,
      );
    },
    tt,
  );
}

-- A codec that puts one byte in front of what it stores.
abbrev drop_first : Bytes → Option Bytes
drop_first [] = none
drop_first (b ∷ bs) = some bs

abbrev one_byte_codec : Zstd
one_byte_codec = record { new_reader = true; decode_all = drop_first }

abbrev versioning : Versioning
versioning = record {
  package_versions = word_bytes 8 0;
  count = 1;
  custom_versions = word_bytes 20 5;
  net_cl = word_bytes 4 9;
}

versioning-IsVersioning : IsVersioning versioning
unfolding word_bytes
versioning-IsVersioning = record {
  package_size = refl;
  count_cap = omega arith;
  custom_size = refl;
  net_cl_size = refl;
}

abbrev stored : Bytes
stored = 0 ∷ image one_byte_codec 4 (some versioning) sample (1 ∷ []) []

stored-Stored :
    Stored one_byte_codec (image one_byte_codec 4 (some versioning) sample (1 ∷ []) []) 3 stored
stored-Stored = compressed refl refl

stored-length :
    (length (image one_byte_codec 4 (some versioning) sample (1 ∷ []) []) ≤ 100)
    × (length stored ≤ 101)
unfolding write_body write_name write_enum write_entry write_struct write_property write_type
    word_bytes
stored-length = (omega arith, omega arith)

abbrev data_of_sample : UsmapData
data_of_sample = record { version = 4; compression_method = 3; body = body_meaning 4 sample }

abbrev file_of_sample : Bytes
file_of_sample =
    write_header 4 (some versioning) 3 (length stored)
      (length (image one_byte_codec 4 (some versioning) sample (1 ∷ []) []))
    ++ (stored ++ [])

parse_usmap_body-write_body_example :
    Reads (parse_usmap_body 4) (write_body 4 sample) (body_meaning 4 sample)
parse_usmap_body-write_body_example = parse_usmap_body-write_body 4 sample sample-IsWireBody

parse_usmap_bytes-write_example :
    parse_usmap_bytes one_byte_codec file_of_sample ≡ ok data_of_sample
parse_usmap_bytes-write_example =
    parse_usmap_bytes-write one_byte_codec 4 (some versioning) sample (1 ∷ []) [] 3 stored
      (omega arith) versioning-IsVersioning sample-IsWireBody stored-Stored
      (omega (arith, stored-length.1)) (omega (arith, stored-length.0))

parses : parse_usmap_bytes one_byte_codec file_of_sample ≡ ok data_of_sample
parses =
    parse_usmap_bytes-write one_byte_codec 4 (some versioning) sample (1 ∷ []) [] 3 stored
      (omega arith) versioning-IsVersioning sample-IsWireBody stored-Stored
      (omega (arith, stored-length.1)) (omega (arith, stored-length.0))

parse_usmap_bytes-IsParsed_example : IsParsed data_of_sample
parse_usmap_bytes-IsParsed_example =
    parse_usmap_bytes-IsParsed one_byte_codec file_of_sample data_of_sample parses

abbrev arrays : ℕ → List Container
arrays zero = []
arrays (suc n) = array ∷ arrays n

nesting_refused_example :
    parse_usmap_property_type
      (codes "Part" ∷ [])
      (usmap_max_nest_depth + 1)
      (between (0 ∷ []) (write_nest (arrays 33) ++ 8 ∷ []))
    ≡ err (message_ℕ "property type nested deeper than" usmap_max_nest_depth)
nesting_refused_example = nesting_refused (codes "Part" ∷ []) (arrays 33) (0 ∷ []) (8 ∷ []) refl

-- A file with a wrong magic number.
bad_magic :
    parse_usmap_bytes one_byte_codec (1 ∷ 2 ∷ 3 ∷ []) ≡ err (message_ℕ "usmap: bad magic" 0x201)
unfolding parse_usmap_bytes value_of parse_usmap_header run uint16 take_bytes little_endian need
    remaining
bad_magic = refl
