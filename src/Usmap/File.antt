-- ===== src/Usmap/File.antt =====
-- A .usmap file: ParseUsmap, parseUsmapBytes, skipVersioningBlock and decompressUsmap of
-- internal/recipe/usmap.go. The Zstd codec (github.com/klauspost/compress) and the file system are
-- parameters.
pub mod Laws
pub mod Written
use morgue.Common.{
  ℕ, ◌+◌, ◌*◌, ◌^◌, Bool, true, false, not, Option, none, some, Bytes, Result, ok, err, length,
  take, drop, ltb, leb, ◌==◌, if◌then◌else◌, ℤ, pos, negsuc,
}
use morgue.Cursor.{Cursor, pure, fail, ◌>>=◌, ◌>>◌, wrapped}
use morgue.ByteReader.{
  Error, message, message_ℕ, message_ℤ, wrap, Read, remaining, skip, uint8, uint16, uint32, int32,
}
use morgue.Usmap.{UsmapBody, parse_usmap_body, lift, usmap_max_enums}

-- zstd.NewReader succeeds or not, and DecodeAll on an empty destination.
pub record Zstd : Type 0 where
  pub new_reader : Bool
  pub decode_all : Bytes → Option Bytes

-- What os.Stat says of the size of a file, and what os.ReadFile returns.
pub record UsmapFile : Type 0 where
  pub size : Result Error ℕ
  pub contents : Result Error Bytes

pub record UsmapData : Type 0 where
  pub version : ℕ
  pub compression_method : ℕ
  pub body : UsmapBody

-- The fields of the header that the rest of the parser uses.
pub record UsmapHeader : Type 0 where
  pub version : ℕ
  pub method : ℕ
  pub comp_size : ℕ
  pub decomp_size : ℕ

abbrev pub usmap_magic : ℕ
usmap_magic = 0x30C4

abbrev pub usmap_max_decomp_size : ℕ
usmap_max_decomp_size = 512 * 2 ^ 20

abbrev pub usmap_max_file_size : ℕ
usmap_max_file_size = 256 * 2 ^ 20

-- usmapNone, usmapOodle, usmapBrotli and usmapZStandard.
unfoldable pub decompress_usmap : Zstd → ℕ → Bytes → ℕ → Result Error Bytes
decompress_usmap zstd method comp decomp_size =
    if method == 0
    then (if length comp == decomp_size
        then ok comp
        else err (message_ℕ "usmap: None compression requires comp==decomp" (length comp)))
    else if method == 3
    then (if zstd.new_reader
        then elim (zstd.decode_all comp) [
          | none ↦ err (message "usmap: zstd decode")
          | some out ↦
              if length out == decomp_size
              then ok out
              else err (message_ℕ "usmap: zstd decoded, header declared" (length out))
        ]
        else err (message "usmap: zstd init"))
    else if method == 1
    then err (message "usmap: Oodle-compressed mappings cannot be decoded offline")
    else if method == 2
    then err (message "usmap: Brotli-compressed mappings not yet supported offline")
    else err (message_ℕ "usmap: unknown compression method" method)

-- `skip(int(count) * 20)` and `skip(4)`, behind the test of the count.
unfoldable pub skip_custom_versions : ℤ → Read (Unit {0})
skip_custom_versions (negsuc n) =
    fail (message_ℤ "usmap: custom version count out of range" (negsuc n))
skip_custom_versions (pos n) =
    if ltb usmap_max_enums n
    then fail (message_ℤ "usmap: custom version count out of range" (pos n))
    else (wrapped (wrap "usmap: skip custom versions") (skip (n * 20))
        >> wrapped (wrap "usmap: skip NetCL") (skip 4))

unfoldable pub skip_versioning_block : Read (Unit {0})
skip_versioning_block = do
  wrapped (wrap "usmap: skip package version") (skip 8)
  count ← wrapped (wrap "usmap: read custom version count") int32
  skip_custom_versions count

unfoldable pub read_versioning : ℕ → Read (Unit {0})
read_versioning version =
    if leb 1 version
    then (do
      has_versioning ← wrapped (wrap "usmap: read versioning flag") uint32
      if not (has_versioning == 0) then skip_versioning_block else pure tt)
    else pure tt

-- parseUsmapBytes up to the check of the decompressed size.
unfoldable pub parse_usmap_header : Read UsmapHeader
parse_usmap_header = do
  magic ← wrapped (wrap "usmap: read magic") uint16
  if not (magic == usmap_magic) then fail (message_ℕ "usmap: bad magic" magic) else (do
    version ← wrapped (wrap "usmap: read version") uint8
    if ltb 4 version then fail (message_ℕ "usmap: unsupported version" version) else (do
      read_versioning version
      method ← wrapped (wrap "usmap: read compression method") uint8
      comp_size ← wrapped (wrap "usmap: read comp size") uint32
      decomp_size ← wrapped (wrap "usmap: read decomp size") uint32
      if ltb usmap_max_decomp_size decomp_size
          then fail (message_ℕ "usmap: decompressed size exceeds cap" decomp_size)
          else pure (record {
            version = version;
            method = method;
            comp_size = comp_size;
            decomp_size = decomp_size;
          })))

-- The value of a run, whose reader is local to the caller.
unfoldable pub value_of {κ} : {A : Type κ} → Result Error (A × Cursor) → Result Error A
value_of (ok (a, r)) = ok a
value_of (err e) = err e

abbrev pub start : Bytes → Cursor
start raw = record { bytes = raw; pos = 0 }

-- `comp := r.data[r.pos : r.pos+compSize]`, which leaves the reader where it is.
unfoldable pub compressed_bytes : ℕ → Read Bytes
unfolding remaining
compressed_bytes comp_size r =
    if ltb (remaining r) comp_size
    then err (message_ℕ "usmap: comp size exceeds remaining" comp_size)
    else ok (take comp_size (drop r.pos r.bytes), r)

module _ (zstd : Zstd) where
  -- The rest of parseUsmapBytes.
  unfoldable pub parse_usmap_rest : UsmapHeader → Read UsmapData
  unfolding value_of
  parse_usmap_rest h = do
    comp ← compressed_bytes h.comp_size
    body ← lift (decompress_usmap zstd h.method comp h.decomp_size)
    b ← lift (value_of (parse_usmap_body h.version (start body)))
    pure (record { version = h.version; compression_method = h.method; body = b })

  unfoldable pub parse_usmap_bytes : Bytes → Result Error UsmapData
  unfolding value_of
  parse_usmap_bytes raw = value_of ((parse_usmap_header >>= parse_usmap_rest) (start raw))

  unfoldable pub parse_usmap : UsmapFile → Result Error UsmapData
  parse_usmap file = elim (file.size) [
    | err e ↦ err (wrap "usmap: stat" e)
    | ok size ↦
        if ltb usmap_max_file_size size
        then err (message_ℕ "usmap: file too large" size)
        else elim (file.contents) [
          | err e ↦ err (wrap "usmap: read" e)
          | ok raw ↦ parse_usmap_bytes raw
        ]
  ]
