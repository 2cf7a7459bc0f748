-- ===== src/Store/JsonString/RoundTrip.antt =====
-- The reader of JSON strings on what `push_json_string` pushed (store/codec.rs).
use reldir.Base.{
  ℕ, ◌≡◌, ◌<◌, ◌+◌, ◌-◌, ◌*◌, ◌/◌, ◌%◌, refl, ap, ◌∙◌, arith, true, false, ltb, [], ◌∷◌, ◌++◌, some,
  ◌==◌,
}
use mathlib.Core.List.{append_assoc}
use reldir.Store.Corruption.{Bytes}
use reldir.Store.JsonString.{
  hex_digit, escaped_char, escaped_text, push_json_string, plain, in_digits, digit_value,
  short_value, before, read_string,
}

digit_value-hex_digit : (d : ℕ) → d < 16 → digit_value (hex_digit d) ≡ some d
unfolding digit_value hex_digit
digit_value-hex_digit d h = ground arith

digit_value-zero : digit_value b'0' ≡ some 0
unfolding digit_value
digit_value-zero = refl

-- A digit that is not the last.
read-digit :
    (left value c d : ℕ) (bytes : Bytes)
    → digit_value c ≡ some d
    → left == 1 ≡ false
    → read_string (in_digits left value) (c ∷ bytes)
      ≡ read_string (in_digits (left - 1) (value * 16 + d)) bytes
unfolding read_string
read-digit left value c d bytes e n = rw (read_string, e, n) refl

-- The last digit, of a character of one byte.
read-last_digit :
    (value c d : ℕ) (bytes : Bytes)
    → digit_value c ≡ some d
    → ltb (value * 16 + d) 0x80 ≡ true
    → read_string (in_digits 1 value) (c ∷ bytes)
      ≡ before (value * 16 + d) (read_string plain bytes)
unfolding read_string
read-last_digit value c d bytes e y = rw (read_string, e, y) refl

-- The four digits of a control character are read as it.
read-digits :
    (c : ℕ) (bytes : Bytes)
    → c < 0x20
    → read_string (in_digits 4 0) (b'0' ∷ b'0' ∷ hex_digit (c / 16) ∷ hex_digit (c % 16) ∷ bytes)
      ≡ before c (read_string plain bytes)
read-digits c bytes h =
    let low = hex_digit (c % 16) ∷ bytes in
    let high = hex_digit (c / 16) ∷ low in
    let small : ltb ((0 + c / 16) * 16 + c % 16) 0x80 ≡ true = ground (arith, h) in
    let same : (0 + c / 16) * 16 + c % 16 ≡ c = omega arith in
    read-digit 4 0 b'0' 0 (b'0' ∷ high) digit_value-zero refl
    ∙ read-digit 3 0 b'0' 0 high digit_value-zero refl
    ∙ read-digit 2 0 (hex_digit (c / 16)) (c / 16) low
        (digit_value-hex_digit (c / 16) (omega (arith, h))) refl
    ∙ read-last_digit (0 + c / 16) (hex_digit (c % 16)) (c % 16) bytes
        (digit_value-hex_digit (c % 16) (omega arith)) small
    ∙ ap (λ x. before x (read_string plain bytes)) same

read-escaped_char :
    (c : ℕ) (bytes : Bytes)
    → read_string plain (escaped_char c ++ bytes) ≡ before c (read_string plain bytes)
unfolding read_string escaped_char short_value
read-escaped_char c bytes = ground (arith, read-digits c bytes)

read-escaped_text :
    (text rest : Bytes) → read_string plain (escaped_text text ++ 0x22 ∷ rest) ≡ some (text, rest)
unfolding escaped_text before
read-escaped_text [] rest = unfold read_string in refl
read-escaped_text (c ∷ text) rest =
    ap (read_string plain) (append_assoc (escaped_char c) (escaped_text text) (0x22 ∷ rest))
    ∙ read-escaped_char c (escaped_text text ++ 0x22 ∷ rest)
    ∙ ap (before c) (read-escaped_text text rest)

-- What `push_json_string` appends is a quote and then what a reader of JSON strings takes for the
-- text, whatever bytes follow it.
pub read_string-push_json_string :
    (out text rest : Bytes)
    → (body : Bytes) × ((push_json_string out text ++ rest ≡ out ++ 0x22 ∷ body)
        × (read_string plain body ≡ some (text, rest)))
unfolding push_json_string
read_string-push_json_string out text rest = (
  escaped_text text ++ 0x22 ∷ rest,
  (
    append_assoc (out ++ 0x22 ∷ escaped_text text) (0x22 ∷ []) rest
        ∙ append_assoc out (0x22 ∷ escaped_text text) (0x22 ∷ rest),
    read-escaped_text text rest,
  ),
)
