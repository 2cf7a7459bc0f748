-- ===== src/Pointer/Examples.antt =====
-- Pointers of concrete names, and the name that is lost.
use reldir.Base.{◌≡◌, [], ◌∷◌}
use reldir.Store.Corruption.{Bytes}
use reldir.Pointer.{escape_pointer, unescape, pointer_tokens, split, extend}
use reldir.Pointer.Escape.{unescape-escape}
use reldir.Pointer.Tokens.{pointer_of, pointer_tokens-pointer_of, split-extend}

-- `a/~b`
abbrev odd_name : Bytes
odd_name = b'a' ∷ b'/' ∷ b'~' ∷ b'b' ∷ []

unescape-escape_example : unescape (escape_pointer odd_name) ≡ odd_name
unescape-escape_example = unescape-escape odd_name

pointer_tokens-pointer_of_example :
    pointer_tokens (pointer_of (odd_name ∷ [] ∷ odd_name ∷ [])) ≡ odd_name ∷ [] ∷ odd_name ∷ []
pointer_tokens-pointer_of_example =
    pointer_tokens-pointer_of b'a' (b'/' ∷ b'~' ∷ b'b' ∷ []) ([] ∷ odd_name ∷ [])

split-extend_example : split (extend odd_name odd_name) ≡ (odd_name, odd_name)
split-extend_example = split-extend odd_name odd_name
