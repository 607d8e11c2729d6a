-- ===== src/Odin/Asset.antt =====
-- decodeBlobValue of internal/odin/value.go: the decoder and the tree builder inside a recover boundary.
use morgue.Common.{◌≡◌, ap, ◌∙◌, String, List, [], Option, none, some, Bytes, Result, ok, err, All}
use morgue.Cursor.Reads.{write_all}
use morgue.Odin.Reader.{Panic, decode_error}
use morgue.Odin.Decoder.{Decoder, new_decoder, decode}
use morgue.Odin.Format.{Entry, IsEntry, write_entry, apply_all}
use morgue.Odin.Format.RoundTrip.{decode-write_entries}
use morgue.Odin.Json.{Json, object, no_fields}
use morgue.Odin.Scalars.{Floats}
use morgue.Odin.Tree.{fill_container, build_tree}
use morgue.Odin.Tree.Shape.{Docs, flatten_all, IsDocs, meanings}
use morgue.Odin.Tree.Documents.{build_tree-flatten}

-- The error that a panic becomes: a decodeError is passed on, anything else is wrapped.
pub data AssetError : Type 0 where
  decode_failed : String → AssetError
  malformed : Panic → AssetError

unfoldable pub recovered : Panic → AssetError
recovered (decode_error s) = decode_failed s
recovered p = malformed p

unfoldable pub tree_result : Option Json → Option (Result AssetError Json)
tree_result none = none
tree_result (some v) = some (ok v)

module _ (floats : Floats) where
  unfoldable pub value_of_run : Option (Result Panic Decoder) → Option (Result AssetError Json)
  unfolding recovered tree_result build_tree
  value_of_run none = none
  value_of_run (some (err p)) = some (err (recovered p))
  value_of_run (some (ok d)) = tree_result (build_tree floats d.toks)

  unfoldable pub decode_blob_value : Bytes → Option (Result AssetError Json)
  unfolding value_of_run decode
  decode_blob_value blob = value_of_run (decode blob)

  -- A blob of entries that fit their fields, whose tokens are those of a sequence of well-bracketed
  -- documents, decodes to the map of the names and the values of these documents.
  pub decode_blob_value-write :
      (es : List Entry) (ds : Docs)
      → All IsEntry es
      → IsDocs ds
      → (apply_all es new_decoder).toks ≡ flatten_all ds
      → decode_blob_value (write_all write_entry es)
        ≡ some (ok (object (fill_container (meanings floats [] ds) no_fields)))
  unfolding decode_blob_value value_of_run tree_result
  decode_blob_value-write es ds h g same =
      ap value_of_run (decode-write_entries es h)
      ∙ ap (λ toks. tree_result (build_tree floats toks)) same
      ∙ ap tree_result (build_tree-flatten floats ds g)
