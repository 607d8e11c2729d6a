-- ===== src/Odin/Tests.antt =====
-- The decoder of internal/odin on blobs of a few entries.
use morgue.Common.{
  signed, ℕ, false, drop, get_elem?, text_eq, ◌≡◌, ◌≤◌, ◌<◌, refl, inl, inr, List, [], ◌∷◌, true,
  none, some, Result, ok, All, length, pos, negsuc, codes, arith,
}
use morgue.Cursor.Reads.{Reads, write_all}
use morgue.Odin.Reader.{Text, Panic, read_string}
use morgue.Odin.Reader.Strings.{read_string-encode}
use morgue.Odin.Reader.Utf16.{IsScalar, units, encode_utf16}
use morgue.Odin.Reader.Written.{write_string, narrow, wide}
use morgue.Cursor.Words.{little_endian}
use morgue.Odin.Json.{array, item, no_items, items_of, Json, leaf, object, no_fields, get_field}
use morgue.Odin.Scalars.{
  Floats, digits, atoi, prim_array_to_value, elements, element, contains, has_prefix,
}
use morgue.Odin.Tree.{role, fill_container, unnamed, build_tree}
use morgue.Odin.Tree.Total.{build_tree_total}
use morgue.Odin.Tree.Shape.{
  Docs, single, node_of, array_of, done, first, flatten_all, IsDocs, meanings,
}
use morgue.Odin.Tree.Documents.{build_tree-flatten}
use morgue.Odin.Tree.Lookup.{last_named, collected, fill_container-get}
use morgue.Odin.Asset.{decode_blob_value, decode_blob_value-write}
use morgue.Odin.Decoder.{int64, Tok, bare, null, nil, boolean, Decoder, new_decoder, decode}
use morgue.Odin.Decoder.Loop.{decode_total, IsDecoded, decode-IsDecoded}
use morgue.Odin.Format.{
  Entry, reference_node, struct_node, start_of_array, end_array, end_node, primitives, scalar,
  as_int, as_bool, type_name, type_id, IsEntry, write_entry, apply_all,
}
use morgue.Odin.Format.RoundTrip.{decode-write_entries}

-- A node of a type "T, A" with a number, a list of two bytes and a node of the same type.
abbrev sample : List Entry
sample =
    reference_node none (type_name (pos 0) (narrow (codes "T, A"))) (pos 0)
    ∷ scalar (some (narrow (codes "n"))) (as_int (negsuc 4))
    ∷ start_of_array (pos 2)
    ∷ primitives 2 1 (7 ∷ 255 ∷ [])
    ∷ end_array
    ∷ struct_node (some (wide (codes "s"))) (type_id (pos 0))
    ∷ scalar none (as_bool true)
    ∷ end_node
    ∷ end_node
    ∷ []

sample-IsEntry : All IsEntry sample
sample-IsEntry = (
  (tt, (omega arith, short_string), omega arith),
  (
    ((omega arith, (omega arith, tt)), omega arith),
    (
      omega arith,
      (
        (omega arith, omega arith, refl, (omega arith, (omega arith, tt))),
        (tt, (((omega arith, (omega arith, tt)), omega arith), ((tt, tt), (tt, (tt, tt))))),
      ),
    ),
  ),
)
  where
    short_string : (length (codes "T, A") ≤ 5_000_000) × All (λ c. c < 256) (codes "T, A")
    short_string = (omega arith, (omega arith, (omega arith, (omega arith, (omega arith, tt)))))

decode-write_entries_example :
    decode (write_all write_entry sample) ≡ some (ok (apply_all sample new_decoder))
decode-write_entries_example = decode-write_entries sample sample-IsEntry

decodes : decode (write_all write_entry sample) ≡ some (ok (apply_all sample new_decoder))
decodes = decode-write_entries sample sample-IsEntry

decode-IsDecoded_example :
    IsDecoded (apply_all sample new_decoder) (length (write_all write_entry sample))
decode-IsDecoded_example =
    decode-IsDecoded (write_all write_entry sample) (apply_all sample new_decoder) decodes

decode_total_example : (x : Result Panic Decoder) × (decode (0x27 ∷ 2 ∷ []) ≡ some x)
decode_total_example = decode_total (0x27 ∷ 2 ∷ [])

letters-IsScalar : All IsScalar (65 ∷ 0x1F600 ∷ 0x10FFFF ∷ [])
letters-IsScalar =
    (inl (omega arith), (inr (omega arith, omega arith), (inr (omega arith, omega arith), tt)))

letters_length : length (encode_utf16 (65 ∷ 0x1F600 ∷ 0x10FFFF ∷ [])) ≤ 5_000_000
unfolding encode_utf16 units
letters_length = omega arith

-- A letter, a character outside the basic plane, and the last scalar value.
read_string-encode_example :
    Reads read_string
      (write_string (wide (encode_utf16 (65 ∷ 0x1F600 ∷ 0x10FFFF ∷ []))))
      (65 ∷ 0x1F600 ∷ 0x10FFFF ∷ [])
read_string-encode_example =
    read_string-encode (65 ∷ 0x1F600 ∷ 0x10FFFF ∷ []) letters-IsScalar letters_length

-- Floats that are kept and printed as nothing.
abbrev no_floats : Floats
no_floats = record { clean32 = λ n. n; sprint32 = λ n. []; sprint64 = λ n. [] }

abbrev tokens : List Tok
tokens = (apply_all sample new_decoder).toks

abbrev token : ℕ → Tok
token i = elim (get_elem? tokens i) [ some t ↦ t | none ↦ bare null (pos 0) ]

-- The same blob as a document.
abbrev documents : Docs
documents =
    first
      (node_of (token 0)
        (first (single (token 1)) (
          first (array_of (token 2) (first (single (token 3)) (done [])) (token 4))
            (first (node_of (token 5) (first (single (token 6)) (done [])) (token 7)) (done []))))
        (token 8))
      (done [])

documents-IsDocs : IsDocs documents
unfolding role
documents-IsDocs =
    ((refl, refl, (refl, ((refl, refl, (refl, tt)), ((refl, refl, (refl, tt)), tt)))), tt)

build_tree-flatten_example :
    build_tree no_floats (flatten_all documents)
    ≡ some (object (fill_container (meanings no_floats [] documents) no_fields))
build_tree-flatten_example = build_tree-flatten no_floats documents documents-IsDocs

decode_blob_value-write_example :
    decode_blob_value no_floats (write_all write_entry sample)
    ≡ some (ok (object (fill_container (meanings no_floats [] documents) no_fields)))
decode_blob_value-write_example =
    decode_blob_value-write no_floats sample documents sample-IsEntry documents-IsDocs refl

build_tree_total_example : (v : Json) × (build_tree no_floats (drop 3 tokens) ≡ some v)
build_tree_total_example = build_tree_total no_floats (drop 3 tokens)

abbrev two_items : List (Text × Json)
two_items = (codes "a", leaf nil) ∷ ([], leaf (boolean true)) ∷ []

fill_container-get_example :
    ((c : ℕ) (key : Text)
      → text_eq (codes "$items") (c ∷ key) ≡ false
      → get_field (c ∷ key) (fill_container two_items no_fields)
        ≡ last_named (c ∷ key) two_items (get_field (c ∷ key) no_fields))
    × (get_field (codes "$items") (fill_container two_items no_fields)
        ≡ collected
            (unnamed two_items)
            (last_named (codes "$items") two_items (get_field (codes "$items") no_fields)))
fill_container-get_example = fill_container-get two_items no_fields

signs : (atoi (codes "-12") ≡ negsuc 11) × (atoi (codes "+7") ≡ pos 7) × (atoi (codes "1x") ≡ pos 0)
unfolding atoi digits
signs = (refl, refl, refl)

-- Two int16 in a node that is no array of floats.
two_shorts :
    prim_array_to_value no_floats (1 ∷ 0 ∷ 255 ∷ 255 ∷ []) (pos 2) (codes "Int16")
    ≡ array (item (leaf (int64 (pos 1))) (item (leaf (int64 (negsuc 0))) no_items))
unfolding prim_array_to_value elements element contains has_prefix items_of little_endian signed
two_shorts = refl
