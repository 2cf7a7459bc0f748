-- ===== src/Store/JsonString.antt =====
-- `push_json_string` of store/codec.rs, and a reader of JSON strings to hold it against.
pub mod RoundTrip
mod Examples
use reldir.Base.{
  ℕ, zero, suc, ◌+◌, ◌-◌, ◌*◌, ◌/◌, ◌%◌, ltb, ◌&&◌, ◌||◌, leb, List, [], ◌∷◌, ◌++◌, Option, none,
  some, ◌==◌, if◌then◌else◌,
}
use reldir.Store.Corruption.{Bytes}

-- A lower-case hexadecimal digit.
unfoldable pub hex_digit : ℕ → ℕ
hex_digit d = if ltb d 10 then b'0' + d else b'a' + (d - 10)

-- `\` and one character
abbrev short_escape : ℕ → Bytes
short_escape c = 0x5c ∷ c ∷ []

-- `format!("\\u{:04x}", c)` below 0x20
abbrev long_escape : ℕ → Bytes
long_escape c = 0x5c ∷ b'u' ∷ b'0' ∷ b'0' ∷ hex_digit (c / 16) ∷ hex_digit (c % 16) ∷ []

-- What the loop pushes for a character; the bytes of a longer one go as they are.
unfoldable pub escaped_char : ℕ → Bytes
escaped_char c =
    if c == 0x22
    then short_escape 0x22
    else if c == 0x5c
    then short_escape 0x5c
    else if c == 0x8
    then short_escape b'b'
    else if c == 0x9
    then short_escape b't'
    else if c == 0xa
    then short_escape b'n'
    else if c == 0xc
    then short_escape b'f'
    else if c == 0xd
    then short_escape b'r'
    else if ltb c 0x20
    then long_escape c
    else c ∷ []

unfoldable pub escaped_text : Bytes → Bytes
escaped_text [] = []
escaped_text (c ∷ text) = escaped_char c ++ escaped_text text

unfoldable pub push_json_string : Bytes → Bytes → Bytes
push_json_string out text = (out ++ 0x22 ∷ escaped_text text) ++ 0x22 ∷ []

-- Where a reader of a JSON string (RFC 8259) stands: in plain text, after a `\`, or in the digits
-- of a `\u`, of which so many are left.
pub data ReadState : Type 0 where
  plain : ReadState
  after_backslash : ReadState
  in_digits : ℕ → ℕ → ReadState

-- The value of a hexadecimal digit, of either case.
unfoldable pub digit_value : ℕ → Option ℕ
digit_value c =
    if leb b'0' c && leb c b'9'
    then some (c - b'0')
    else if leb b'a' c && leb c b'f'
    then some (c - b'a' + 10)
    else if leb b'A' c && leb c b'F'
    then some (c - b'A' + 10)
    else none

-- The character that `\` and this one stand for.
unfoldable pub short_value : ℕ → Option ℕ
short_value c =
    if c == 0x22 || c == 0x5c || c == b'/'
    then some c
    else if c == b'b'
    then some 0x8
    else if c == b't'
    then some 0x9
    else if c == b'n'
    then some 0xa
    else if c == b'f'
    then some 0xc
    else if c == b'r'
    then some 0xd
    else none

-- A character before what was read.
unfoldable pub before : ℕ → Option (Bytes × Bytes) → Option (Bytes × Bytes)
before c none = none
before c (some (text, rest)) = some (c ∷ text, rest)

-- The text up to the closing quote, and what follows it. Of the characters that `\u` can name, this
-- reader knows those of one byte.
unfoldable pub read_string : ReadState → Bytes → Option (Bytes × Bytes)
read_string state [] = none
read_string plain (c ∷ bytes) =
    let next = read_string plain bytes in
    let after = read_string after_backslash bytes in
    if c == 0x22
    then some ([], bytes)
    else if c == 0x5c
    then after
    else if ltb c 0x20
    then none
    else before c next
read_string after_backslash (c ∷ bytes) =
    let next = read_string plain bytes in
    let digits = read_string (in_digits 4 0) bytes in
    if c == b'u' then digits else elim (short_value c) [ none ↦ none | some d ↦ before d next ]
read_string (in_digits left value) (c ∷ bytes) = elim (digit_value c) [
  | none ↦ none
  | some d ↦
      let next = read_string plain bytes in
      let more = read_string (in_digits (left - 1) (value * 16 + d)) bytes in
      if left == 1
      then (if ltb (value * 16 + d) 0x80 then before (value * 16 + d) next else none)
      else more
]
