-- ===== src/Csplit/Tests.antt =====
-- Runs of the splitter of internal/recipe/csplit.go.
use morgue.Common.{
  ◌≡◌, ◌≤◌, ◌*◌, ◌≢◌, refl, inl, List, [], ◌∷◌, ◌++◌, Option, none, some, Result, ok, err, length,
  All, codes, arith, text_eq, itoa, map,
}
use morgue.Csplit.Text.{
  cut_prefix, drop_cr, ends_with, reverse, space_first, space_last, span, strip, to_lower, Text,
  trim_space, has_prefix, scan_lines, split_at,
}
use morgue.Csplit.Names.{
  after_segment, all_bytes, before_paren, drop_pointer, is_address, is_anon_name, last_separator,
  last_token, extract_func_name, cpp_class_owner, func_header, is_total_line, is_in,
}
use morgue.Csplit.Refs.{
  extract_refs, is_not_callee, collect, string_literals, calls_in, call_sites, is_pseudo_op,
}
use morgue.Csplit.Buckets.{
  write_to, open_file, opened, append_block, append_file, close_open, content, hex_number,
  bucket_for, bucket_of, parse_hex, without_0x, new_bucket_writer, write, file_path,
}
use morgue.Csplit.Buckets.Caps.{IsLowerHex, bucket_for-IsLowerHex, alternate, write_unbounded}
use morgue.Csplit.Buckets.Contents.{final_content, Appends, write-Appends}
use morgue.Csplit.Outcomes.{and_then}
use morgue.Csplit.Splitter.{
  stream_lines, on_line, on_other_line, start_record, flush, append_line, emit, written, add_entry,
  block_header, block_of, entry_of, is_named_name, name_or_default, Output, FuncEntry, started,
}
use morgue.Csplit.Split.{
  sorted_keys, SplitResult, split_decompiled_c, finish, no_functions, new_output,
}
use morgue.Csplit.Records.{Record, group, add_line, emit_all}
use morgue.Csplit.Records.Refines.{split_decompiled_c-emit_all}
use morgue.Csplit.Records.Catalog.{Reported, split_decompiled_c-Consistent}
use morgue.Csplit.Records.Placed.{Placed, split_decompiled_c-Placed}
use morgue.Csplit.Records.Bounded.{Holds, append_lines, append_lines-Holds}
use morgue.Csplit.Records.Total.{split_decompiled_c-IsOk, split_decompiled_c-no_functions}
use morgue.Csplit.Refs.Collected.{IsExtracted, extract_refs-IsExtracted}

pointer_array : extract_func_name (codes "undefined1 (*) [16]FUN_x(int a)") ≡ codes "FUN_x"
unfolding extract_func_name text_eq
pointer_array = refl

a_cast : extract_func_name (codes "undefined4(x)") ≡ []
unfolding extract_func_name text_eq
a_cast = refl

template_method :
    extract_func_name (codes "void * TArray<int>::Add(void)") ≡ codes "TArray<int>::Add"
unfolding extract_func_name text_eq
template_method = refl

owner : cpp_class_owner (codes "A<B::C>::D::e") ≡ codes "A<B::C>::D"
unfolding cpp_class_owner
owner = refl

no_owner : cpp_class_owner (codes "foo") ≡ []
unfolding cpp_class_owner
no_owner = refl

segment : func_header (codes "// ram:00401a00") ≡ some (codes "00401a00")
unfolding func_header
segment = refl

no_header : func_header (codes "// FAILED: 00401a00") ≡ none
unfolding func_header
no_header = refl

bucket : bucket_for (codes "14012Bcde") ≡ codes "12b"
unfolding bucket_for bucket_of parse_hex without_0x
bucket = refl

abbrev body : Text
body =
    codes
      "// 1000\nint foo(int a) {\n  bar(\"x\\\"y\"); if (A::b<int>(a)) foo(a);\n // gone()\n bar(\"\");"

references :
    extract_refs body (codes "foo") ≡ (codes "x\\\"y" ∷ [], codes "bar" ∷ (codes "A::b<int>" ∷ []))
unfolding extract_refs string_literals calls_in collect is_not_callee split_at trim_space is_in
    has_prefix call_sites text_eq is_pseudo_op
references = refl

abbrev dir : Text
dir = codes "functions"

abbrev opens_all : Text → Option Text
opens_all path = none

-- Two functions, lines that belong to none, and a function behind the total line.
abbrev combined : Text
combined =
    codes
      "// banner\n// 00401000\n\nint foo(int a)\n{ bar(\"hi\"); }\n// 00502000\nvoid A::B(void)\n"
    ++ codes "// Total: 2\nlost\n// ABCD\nx\n"

abbrev records : List Record
records = (group (scan_lines [] combined)).1

three_records :
    records
    ≡ record {
      address = codes "00401000";
      header = codes "// 00401000";
      body = [] ∷ (codes "int foo(int a)" ∷ (codes "{ bar(\"hi\"); }" ∷ []));
    }
      ∷ (record {
        address = codes "00502000";
        header = codes "// 00502000";
        body = codes "void A::B(void)" ∷ [];
      }
          ∷ (record { address = codes "ABCD"; header = codes "// ABCD"; body = codes "x" ∷ [] }
              ∷ []))
unfolding scan_lines group add_line func_header is_total_line
three_records = refl

has_records : records ≢ []
unfolding scan_lines group add_line func_header is_total_line
has_records h = cc

split_decompiled_c-emit_all_example :
    split_decompiled_c dir opens_all combined
    ≡ and_then (emit_all dir opens_all new_output records) (λ o. finish (length combined) o)
split_decompiled_c-emit_all_example = split_decompiled_c-emit_all dir opens_all combined

split_decompiled_c-IsOk_example :
    (result : SplitResult) × (out : Output) × (split_decompiled_c dir opens_all combined
      ≡ ok (result, out))
    × (result.function_count ≡ length records)
split_decompiled_c-IsOk_example =
    split_decompiled_c-IsOk dir opens_all (λ path. refl) combined (inl has_records)

abbrev done :
    (result : SplitResult) × (out : Output) × (split_decompiled_c dir opens_all combined
      ≡ ok (result, out))
    × (result.function_count ≡ length records)
done = split_decompiled_c-IsOk dir opens_all (λ path. refl) combined (inl has_records)

split_decompiled_c-Consistent_example : Reported (done.0, done.1)
split_decompiled_c-Consistent_example =
    split_decompiled_c-Consistent dir opens_all combined done.0 done.1 done.2

split_decompiled_c-Placed_example : Placed records (done.0, done.1)
split_decompiled_c-Placed_example =
    split_decompiled_c-Placed dir opens_all combined done.0 done.1 done.2

split_decompiled_c-no_functions_example :
    split_decompiled_c dir opens_all (codes "int x;\n") ≡ err (no_functions 7)
unfolding scan_lines group add_line func_header is_total_line
split_decompiled_c-no_functions_example =
    split_decompiled_c-no_functions dir opens_all (codes "int x;\n") refl (λ h. cc)

append_lines-Holds_example : Holds 20 (codes "// 00502000") (codes "void A::B(void)" ∷ []) (
    append_lines
      (started new_output (codes "00502000") (codes "// 00502000"))
      (codes "void A::B(void)" ∷ []))
append_lines-Holds_example =
    append_lines-Holds 20 new_output (codes "00502000") (codes "// 00502000")
      (codes "void A::B(void)" ∷ []) (omega arith) (omega arith, tt)

write-Appends_example :
    Appends
      (new_bucket_writer [])
      (codes "x")
      (write dir opens_all (new_bucket_writer []) (codes "1000") (codes "x"))
write-Appends_example =
    write-Appends dir opens_all (new_bucket_writer []) (codes "1000") (codes "x")

bucket_for-IsLowerHex_example :
    (length (bucket_for (codes "zz")) ≡ 3) × All IsLowerHex (bucket_for (codes "zz"))
bucket_for-IsLowerHex_example = bucket_for-IsLowerHex (codes "zz")

write_unbounded_example :
    (b : _) × (alternate dir opens_all
        (λ path. refl)
        (codes "1000")
        (codes "2000")
        (codes "x")
        2000000
        (new_bucket_writer [])
      ≡ ok b)
    × (2000000 * 1 ≤ length (final_content b (codes "functions/001/001_00.c")))
unfolding bucket_for bucket_of parse_hex without_0x text_eq file_path itoa
write_unbounded_example =
    write_unbounded dir opens_all (λ path. refl) (codes "1000") (codes "2000") (codes "x") 2000000
      refl refl

extract_refs-IsExtracted_example :
    IsExtracted body
      (codes "foo")
      (extract_refs body (codes "foo")).0
      (extract_refs body (codes "foo")).1
extract_refs-IsExtracted_example = extract_refs-IsExtracted body (codes "foo")

abbrev names_in : Result Text (SplitResult × Output) → List (Text × Text)
names_in (err e) = []
names_in (ok (result, out)) = map (λ (e : FuncEntry). (e.name, e.file)) out.functions

names_of_combined :
    names_in (split_decompiled_c dir opens_all combined)
    ≡ (codes "foo", codes "functions/401/401_00.c")
      ∷ ((codes "A::B", codes "functions/502/502_00.c")
          ∷ ((codes "FUN_abcd", codes "functions/00a/00a_00.c") ∷ []))
unfolding split_decompiled_c and_then stream_lines scan_lines on_line is_total_line on_other_line
    func_header start_record flush append_line emit written write write_to new_bucket_writer
    open_file opened itoa text_eq append_block append_file bucket_for bucket_of close_open content
    file_path hex_number parse_hex without_0x after_segment all_bytes before_paren cpp_class_owner
    drop_pointer extract_func_name is_address is_anon_name is_in last_separator last_token finish
    sorted_keys add_entry block_header block_of entry_of is_named_name name_or_default cut_prefix
    drop_cr ends_with has_prefix reverse space_first space_last span strip to_lower trim_space
names_of_combined = refl
