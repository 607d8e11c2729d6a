-- ===== src/Usmap/Nesting.antt =====
-- The recursion guard of parseUsmapPropertyType.
use morgue.Common.{
  ◌+◌, ◌<◌, ◌≡◌, refl, ◌∙◌, List, [], ◌∷◌, ◌++◌, Bytes, err, length, arith, append_assoc, subst,
}
use morgue.Cursor.{Cursor, fail, wrapped}
use morgue.Cursor.Words.{word_bytes}
use morgue.Cursor.Reads.{between, Reads-wrapped, bind_ok, bind_err}
use morgue.ByteReader.{Error, Read, message_ℕ, wrap, uint8}
use morgue.ByteReader.Laws.{Reads-uint8}
use morgue.Usmap.{
  Text, UsmapPropertyType, property_type_of_tag, parse_usmap_property_type, usmap_max_nest_depth,
}
use morgue.Usmap.Format.{Container, array, set, optional, tag_of}

-- The tags of containers one in another, outermost first.
unfoldable pub write_nest : List Container → Bytes
write_nest [] = []
write_nest (c ∷ cs) = word_bytes 1 (tag_of c) ++ write_nest cs

container_err :
    (names : List Text) (nested : Read UsmapPropertyType) (c : Container) {r : Cursor} {e : Error}
    → nested r ≡ err e
    → property_type_of_tag names nested (tag_of c) r ≡ err e
unfolding property_type_of_tag
container_err names nested array h = bind_err nested _ h
container_err names nested set h = bind_err nested _ h
container_err names nested optional h = bind_err nested _ h

tag_of-lt : (c : Container) → tag_of c < 256
tag_of-lt array = omega arith
tag_of-lt set = omega arith
tag_of-lt optional = omega arith

refusal : Error
refusal = message_ℕ "property type nested deeper than" usmap_max_nest_depth

nested_refused :
    (names : List Text) (cs : List Container) (front rest : Bytes)
    → parse_usmap_property_type names (length cs) (between front (write_nest cs ++ rest))
      ≡ err refusal
unfolding parse_usmap_property_type write_nest refusal
nested_refused names [] front rest = unfold fail in refl
nested_refused names (c ∷ cs) front rest =
    let tag = Reads-wrapped (wrap "type tag") (Reads-uint8 (tag_of c) (tag_of-lt c)) in
    rw (append_assoc (word_bytes 1 (tag_of c)) (write_nest cs) rest) (
      bind_ok (wrapped (wrap "type tag") uint8) _ (tag.reads front (write_nest cs ++ rest))
      ∙ container_err names (parse_usmap_property_type names (length cs)) c
          (nested_refused names cs (front ++ word_bytes 1 (tag_of c)) rest))

-- A property type that begins with 33 arrays, sets and optionals, one in another, is refused with
-- the guard's own error, whatever bytes stand before and behind these tags.
pub nesting_refused :
    (names : List Text) (cs : List Container) (front rest : Bytes)
    → length cs ≡ usmap_max_nest_depth + 1
    → parse_usmap_property_type names
        (usmap_max_nest_depth + 1)
        (between front (write_nest cs ++ rest))
      ≡ err (message_ℕ "property type nested deeper than" usmap_max_nest_depth)
unfolding refusal
nesting_refused names cs front rest h =
    subst
      (λ n. parse_usmap_property_type names n (between front (write_nest cs ++ rest)) ≡ err refusal)
      h (nested_refused names cs front rest)
