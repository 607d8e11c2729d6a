-- ===== src/Csplit/Buckets.antt =====
-- bucketWriter and bucketFor of internal/recipe/csplit.go, over the files that it appends to.
pub mod Contents
pub mod Caps
use morgue.Common.{
  ℕ, zero, suc, ◌+◌, ◌*◌, ◌-◌, ◌/◌, ◌%◌, ◌^◌, List, [], ◌∷◌, ◌++◌, Bool, true, false, not, ◌&&◌,
  ◌||◌, Option, none, some, Result, ok, err, length, ltb, leb, ◌==◌, text_eq, if◌then◌else◌, codes,
  itoa,
}
use morgue.Csplit.Text.{Text, is_empty, to_lower, trim_space, cut_prefix, ends_with}
use morgue.Csplit.Names.{is_letter, is_digit, is_hex_digit, all_bytes}

abbrev pub split_soft_cap : ℕ
split_soft_cap = 1500000

abbrev hex_value : ℕ → ℕ
hex_value c = if is_digit c then c - b'0' else if leb b'a' c then c - b'a' + 10 else c - b'A' + 10

unfoldable pub hex_number : ℕ → Text → ℕ
hex_number n [] = n
hex_number n (c ∷ s) = hex_number (16 * n + hex_value c) s

-- strconv.ParseUint(s, 16, 64).
unfoldable pub parse_hex : Text → Option ℕ
unfolding hex_number all_bytes
parse_hex s =
    if not (is_empty s) && all_bytes is_hex_digit s && ltb (hex_number 0 s) (2 ^ 64)
    then some (hex_number 0 s)
    else none

abbrev pub hex_digit : ℕ → ℕ
hex_digit n = if ltb n 10 then b'0' + n else b'a' + (n - 10)

-- The verb %03x of a number below 0x1000.
abbrev pub hex_3 : ℕ → Text
hex_3 n = hex_digit (n / 256) ∷ (hex_digit (n / 16 % 16) ∷ (hex_digit (n % 16) ∷ []))

unfoldable pub bucket_of : Option ℕ → Text
bucket_of none = codes "000"
bucket_of (some v) = hex_3 (v / 2 ^ 12 % 2 ^ 12)

unfoldable pub without_0x : Option Text → Text → Text
without_0x none s = s
without_0x (some t) s = t

unfoldable pub bucket_for : Text → Text
unfolding to_lower trim_space cut_prefix
bucket_for addr =
    let s = to_lower (trim_space addr) in
    bucket_of (parse_hex (without_0x (cut_prefix (codes "0x") s) s))

-- A file is its path below the source directory and its content.
abbrev pub Files : Type 0
Files = List (Text × Text)

unfoldable pub content : Text → Files → Text
content path [] = []
content path ((p, c) ∷ files) = if text_eq p path then c else content path files

-- O_CREATE and O_APPEND.
unfoldable pub append_file : Text → Text → Files → Files
append_file path s [] = (path, s) ∷ []
append_file path s ((p, c) ∷ files) =
    let rest = append_file path s files in
    if text_eq p path then (p, c ++ s) ∷ files else (p, c) ∷ rest

-- `cur_open` says that curFile is not nil, and `cur_buf` is what curBuf has taken since the file was
-- opened. The index -1 of a new writer is never read, since no bucket has its empty name.
pub record BucketWriter : Type 0 where
  pub cur_bucket : Text
  pub cur_index : ℕ
  pub cur_written : ℕ
  pub cur_open : Bool
  pub cur_buf : Text
  pub cur_rel : Text
  pub files : Files

unfoldable pub new_bucket_writer : Files → BucketWriter
new_bucket_writer files = record {
  cur_bucket = [];
  cur_index = 0;
  cur_written = 0;
  cur_open = false;
  cur_buf = [];
  cur_rel = [];
  files = files;
}

unfoldable pub close_open : BucketWriter → BucketWriter
unfolding append_file
close_open b =
    if b.cur_open
    then record b {
      files = append_file b.cur_rel b.cur_buf b.files;
      cur_open = false;
      cur_buf = [];
    }
    else b

-- The verb %02d.
abbrev pad_2 : ℕ → Text
pad_2 n = if ltb n 10 then b'0' ∷ itoa n else itoa n

-- The path of a file, from the parent of funcsDir, whose last name is `dir`.
unfoldable pub file_path : Text → Text → ℕ → Text
file_path dir bucket index =
    dir ++ b'/' ∷ (bucket ++ b'/' ∷ (bucket ++ b'_' ∷ (pad_2 index ++ codes ".c")))

abbrev pub line_end : Text → Text
line_end block = if ends_with b'\n' block then [] else b'\n' ∷ []

unfoldable pub append_block : BucketWriter → Text → BucketWriter
unfolding ends_with
append_block b block = record b {
  cur_buf = b.cur_buf ++ (block ++ line_end block);
  cur_written = b.cur_written + length (line_end block) + length block;
}

-- `open_error` is the error of os.MkdirAll or os.OpenFile for the file of a path, if there is one.
module _ (dir : Text) (open_error : Text → Option Text) where
  unfoldable pub opened : Option Text → BucketWriter → Text → ℕ → Result Text BucketWriter
  opened (some e) b bucket index = err e
  opened none b bucket index = ok (record b {
    cur_open = true;
    cur_buf = [];
    cur_bucket = bucket;
    cur_index = index;
    cur_written = length (content (file_path dir bucket index) b.files);
    cur_rel = file_path dir bucket index;
  })

  unfoldable pub open_file : BucketWriter → Text → ℕ → Result Text BucketWriter
  open_file b bucket index =
      opened (open_error (file_path dir bucket index)) (close_open b) bucket index

  unfoldable pub write_to : Result Text BucketWriter → Text → Result Text (BucketWriter × Text)
  write_to (err e) block = err e
  write_to (ok b) block = ok (append_block b block, b.cur_rel)

  unfoldable pub write : BucketWriter → Text → Text → Result Text (BucketWriter × Text)
  write b addr block =
      let bucket = bucket_for addr in
      let changed = not (text_eq bucket b.cur_bucket) in
      write_to
        (if not b.cur_open || changed || leb split_soft_cap b.cur_written
          then open_file b bucket (if changed then 0 else suc b.cur_index)
          else ok b)
        block
