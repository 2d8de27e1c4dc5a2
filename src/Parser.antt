-- ===== src/Parser.antt =====
-- crates/parser/src/lib.rs: what the two streaming parsers share. Text is the list of its bytes in
-- UTF-8. A delimiter begins with a byte that begins a character, so `find` and the suffixes that a
-- delimiter starts with fall on the boundaries of characters by themselves.
pub mod Find
pub mod Validated
pub mod Reasoning
pub mod Tools
use locus.Base.{
  ℕ, zero, suc, ◌+◌, max, Bool, true, false, ◌&&◌, ◌||◌, Option, none, some, String, List, [], ◌∷◌,
  nat_beq, ltb, if◌then◌else◌,
}
use locus.Base.Lists.{length, is_empty}
use locus.Base.Results.{Result, ok, err, ◌>>◌, reject_if}

abbrev pub Bytes : Type 0
Bytes = List ℕ

pub data ParserError : Type 0 where
  empty_delimiter same_delimiters long_delimiter no_buffer : ParserError
  unexpected_delimiter repeated_section : ParserError
  unterminated_section incomplete_delimiter : ParserError
  call_too_long unterminated_call : ParserError
  invalid_json not_an_object wrong_keys no_name no_arguments unprintable : ParserError

abbrev pub max_delimiter_bytes : ℕ
max_delimiter_bytes = 256

abbrev pub bytes_beq : Bytes → Bytes → Bool
bytes_beq [] [] = true
bytes_beq (a ∷ x) (b ∷ y) = nat_beq a b && bytes_beq x y
bytes_beq _ _ = false

-- `text.starts_with(prefix)`.
unfoldable pub starts_with : Bytes → Bytes → Bool
starts_with text [] = true
starts_with [] (p ∷ prefix) = false
starts_with (t ∷ text) (p ∷ prefix) = nat_beq t p && starts_with text prefix

-- `text.find(pattern)`.
unfoldable pub find : Bytes → Bytes → Option ℕ
unfolding starts_with
find [] pattern = if starts_with [] pattern then some 0 else none
find (t ∷ text) pattern =
    let later = find text pattern in
    if starts_with (t ∷ text) pattern
    then some 0
    else elim later [ none ↦ none | some n ↦ some (suc n) ]

abbrev pub take : ℕ → Bytes → Bytes
take zero x = []
take (suc n) [] = []
take (suc n) (a ∷ x) = a ∷ take n x

-- `drain(..n)` leaves `drop n`.
abbrev pub drop : ℕ → Bytes → Bytes
drop zero x = x
drop (suc n) [] = []
drop (suc n) (a ∷ x) = drop n x

-- Whether one of both delimiters starts with the text.
unfoldable pub is_delimiter_prefix : Bytes → Bytes → Bytes → Bool
unfolding starts_with
is_delimiter_prefix d e text = starts_with d text || starts_with e text

-- The greatest length of a nonempty suffix that one of the delimiters starts with.
unfoldable pub longest_delimiter_prefix_suffix : Bytes → Bytes → Bytes → ℕ
unfolding is_delimiter_prefix
longest_delimiter_prefix_suffix [] d e = 0
longest_delimiter_prefix_suffix (a ∷ value) d e =
    max (if is_delimiter_prefix d e (a ∷ value) then length (a ∷ value) else 0)
      (longest_delimiter_prefix_suffix value d e)

unfoldable pub validate_delimiters : Bytes → Bytes → Result ParserError (Unit {0})
validate_delimiters start end = do
  reject_if (is_empty start || is_empty end) empty_delimiter
  reject_if (bytes_beq start end) same_delimiters
  reject_if (ltb max_delimiter_bytes (length start) || ltb max_delimiter_bytes (length end))
      long_delimiter

-- Whether `find` saw the first before the second.
abbrev pub is_before : Option ℕ → Option ℕ → Bool
is_before none _ = false
is_before (some n) none = true
is_before (some n) (some m) = ltb n m
