-- ===== src/Store/JsonString/Examples.antt =====
-- A string with a quote, a newline and a control character.
use reldir.Base.{◌≡◌, refl, [], ◌∷◌, ◌++◌, some}
use reldir.Store.Corruption.{Bytes}
use reldir.Store.JsonString.{
  push_json_string, escaped_text, escaped_char, hex_digit, plain, read_string,
}
use reldir.Store.JsonString.RoundTrip.{read_string-push_json_string}

abbrev odd_text : Bytes
odd_text = b'a' ∷ 0x22 ∷ 0xa ∷ 0x1f ∷ 0xc3 ∷ 0xa9 ∷ []

pushes :
    push_json_string [] odd_text
    ≡ 0x22 ∷ b'a' ∷ 0x5c ∷ 0x22 ∷ 0x5c ∷ b'n' ∷ 0x5c ∷ b'u' ∷ b'0' ∷ b'0' ∷ b'1' ∷ b'f' ∷ 0xc3
      ∷ 0xa9 ∷ 0x22 ∷ []
unfolding push_json_string escaped_text escaped_char hex_digit
pushes = refl

read_string-push_json_string_example :
    (body : Bytes) × ((push_json_string (b'{' ∷ []) odd_text ++ b'}' ∷ []
        ≡ (b'{' ∷ []) ++ 0x22 ∷ body)
      × (read_string plain body ≡ some (odd_text, b'}' ∷ [])))
read_string-push_json_string_example = read_string-push_json_string (b'{' ∷ []) odd_text (b'}' ∷ [])
