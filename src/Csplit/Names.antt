-- ===== src/Csplit/Names.antt =====
-- What internal/recipe/csplit.go reads in a line: its regular expressions, extractFuncName,
-- isIdentByte and cppClassOwner.
use morgue.Common.{
  ℕ, suc, ◌-◌, List, [], ◌∷◌, Bool, true, false, ◌&&◌, ◌||◌, Option, none, some, length, take, leb,
  ◌==◌, text_eq, if◌then◌else◌, codes,
}
use morgue.Csplit.Text.{Text, is_empty, reverse, trim_space, cut_prefix, has_prefix, span}

abbrev pub is_letter : ℕ → Bool
is_letter c = (leb b'a' c && leb c b'z') || (leb b'A' c && leb c b'Z')

abbrev pub is_digit : ℕ → Bool
is_digit c = leb b'0' c && leb c b'9'

abbrev pub is_ident_byte : ℕ → Bool
is_ident_byte c = c == b'_' || is_letter c || is_digit c

abbrev pub is_ident_start : ℕ → Bool
is_ident_start c = c == b'_' || is_letter c

abbrev pub is_hex_digit : ℕ → Bool
is_hex_digit c = is_digit c || (leb b'a' c && leb c b'f') || (leb b'A' c && leb c b'F')

unfoldable pub all_bytes : (ℕ → Bool) → Text → Bool
all_bytes p [] = true
all_bytes p (c ∷ s) = p c && all_bytes p s

-- The part `([0-9A-Fa-f]{4,16})$` of reFuncHeader.
unfoldable pub is_address : Text → Bool
unfolding all_bytes
is_address s = all_bytes is_hex_digit s && leb 4 (length s) && leb (length s) 16

after_colon : Text → Option Text
after_colon [] = none
after_colon (c ∷ s) = if c == b':' then some s else none

-- The part `[A-Za-z_][A-Za-z0-9_]*:` of reFuncHeader, and what follows it.
unfoldable pub after_segment : Text → Option Text
unfolding after_colon span
after_segment [] = none
after_segment (c ∷ s) = if is_ident_start c then after_colon (span is_ident_byte s).1 else none

address_of : Option Text → Text → Option Text
unfolding is_address
address_of (some t) s = if is_address t then some t else if is_address s then some s else none
address_of none s = if is_address s then some s else none

header_of : Option Text → Option Text
unfolding address_of after_segment
header_of none = none
header_of (some s) = address_of (after_segment s) s

-- reFuncHeader.FindStringSubmatch, and its group.
unfoldable pub func_header : Text → Option Text
unfolding header_of cut_prefix
func_header line = header_of (cut_prefix (codes "// ") line)

-- reTotalLine.
unfoldable pub is_total_line : Text → Bool
unfolding has_prefix
is_total_line line = has_prefix (codes "// Total:") line

-- reAnonName.
unfoldable pub is_anon_name : Text → Bool
unfolding has_prefix
is_anon_name s =
    has_prefix (codes "FUN_") s
    || has_prefix (codes "DAT_") s
    || has_prefix (codes "LAB_") s
    || has_prefix (codes "UNK_") s
    || has_prefix (codes "SUB_") s

unfoldable pub is_in : Text → List Text → Bool
is_in s [] = false
is_in s (t ∷ ts) = text_eq s t || is_in s ts

abbrev pub primitive_casts : List Text
primitive_casts =
    codes "void"
    ∷ (codes "bool"
        ∷ (codes "char"
            ∷ (codes "uchar"
                ∷ (codes "wchar_t"
                    ∷ (codes "short"
                        ∷ (codes "ushort"
                            ∷ (codes "int"
                                ∷ (codes "uint"
                                    ∷ (codes "long"
                                        ∷ (codes "ulong"
                                            ∷ (codes "longlong"
                                                ∷ (codes "ulonglong"
                                                    ∷ (codes "float"
                                                        ∷ (codes "double"
                                                            ∷ (codes "byte"
                                                            ∷ (codes "code"
                                                            ∷ (codes "undefined"
                                                            ∷ (codes "undefined1"
                                                            ∷ (codes "undefined2"
                                                            ∷ (codes "undefined4"
                                                            ∷ (codes "undefined8"
                                                            ∷ [])))))))))))))))))))))

-- The first loop of extractFuncName: what stands before the first `(` that an identifier byte or
-- `>` precedes; `head` is what has been passed, backwards.
opens_parameters : Text → Bool
opens_parameters [] = false
opens_parameters (c ∷ head) = is_ident_byte c || c == b'>'

unfoldable pub before_paren : Text → Text → Option Text
unfolding opens_parameters
before_paren head [] = none
before_paren head (c ∷ s) =
    let more = before_paren (c ∷ head) s in
    if c == b'(' && opens_parameters head then some head else more

abbrev pub is_pointer_byte : ℕ → Bool
is_pointer_byte c = c == b' ' || c == b'\t' || c == b'*' || c == b'&'

abbrev pub is_name_byte : ℕ → Bool
is_name_byte c = is_ident_byte c || c == b':' || c == b'~' || c == b'<' || c == b'>' || c == b','

-- strings.TrimLeft of `*& \t`, and the loop over `end`.
unfoldable pub drop_pointer : Text → Text
unfolding span
drop_pointer s = (span is_pointer_byte s).1

-- The two loops over `head`, which is given backwards.
unfoldable pub last_token : Text → Text
unfolding span drop_pointer reverse
last_token head = reverse [] (span is_name_byte (drop_pointer head)).0

name_before : Option Text → Text
unfolding last_token trim_space drop_pointer is_in
name_before none = []
name_before (some head) =
    let name = drop_pointer (trim_space (last_token head)) in
    if is_empty name || is_in name primitive_casts then [] else name

unfoldable pub extract_func_name : Text → Text
unfolding name_before before_paren
extract_func_name sig = name_before (before_paren [] sig)

-- The loop of cppClassOwner: the index of the last `::` outside of angle brackets, as one more
-- than it, or zero for -1; `i` is the index of the first byte of the text.
next_depth : ℕ → ℕ → ℕ
next_depth c depth = if c == b'<' then suc depth else if c == b'>' then depth - 1 else depth

next_sep : ℕ → ℕ → ℕ → ℕ → ℕ → ℕ
next_sep c d depth i sep = if c == b':' && depth == 0 && d == b':' then suc i else sep

unfoldable pub last_separator : ℕ → ℕ → ℕ → Text → ℕ
unfolding next_depth next_sep
last_separator depth i sep [] = sep
last_separator depth i sep (c ∷ []) = sep
last_separator depth i sep (c ∷ (d ∷ s)) =
    last_separator (next_depth c depth) (suc i) (next_sep c d depth i sep) (d ∷ s)

-- `lastSep <= 0` of the source is a separator at the front, or none.
unfoldable pub cpp_class_owner : Text → Text
unfolding last_separator trim_space
cpp_class_owner name =
    let sep = last_separator 0 0 0 name in
    if leb sep 1 then [] else trim_space (take (sep - 1) name)
