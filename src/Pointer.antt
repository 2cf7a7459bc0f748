-- ===== src/Pointer.antt =====
-- JSON pointers: `escape_pointer` and `pointer_tokens` of schema/path.rs, `split` of merge.rs.
pub mod Escape
pub mod Tokens
mod Examples
use reldir.Base.{ℕ, Bool, List, [], ◌∷◌, ◌++◌, map, Option, none, some, ◌&&◌, ◌==◌, if◌then◌else◌}
use reldir.Store.Corruption.{Bytes}
use reldir.Store.Text

-- `str::replace` of one character
unfoldable pub replace_char : ℕ → Bytes → Bytes → Bytes
replace_char c by [] = []
replace_char c by (x ∷ xs) =
    let rest = replace_char c by xs in if x == c then by ++ rest else x ∷ rest

-- `str::replace` of a pair of characters: left to right, without overlap.
unfoldable pub replace_pair : ℕ → ℕ → Bytes → Bytes → Bytes
replace_pair a b by [] = []
replace_pair a b by (x ∷ []) = x ∷ []
replace_pair a b by (x ∷ y ∷ xs) =
    let hit = by ++ replace_pair a b by xs in
    let miss = x ∷ replace_pair a b by (y ∷ xs) in if x == a && y == b then hit else miss

unfoldable pub escape_pointer : Bytes → Bytes
escape_pointer token =
    replace_char b'/' (b'~' ∷ b'1' ∷ []) (replace_char b'~' (b'~' ∷ b'0' ∷ []) token)

-- `token.replace("~1", "/").replace("~0", "~")`
unfoldable pub unescape : Bytes → Bytes
unescape token = replace_pair b'~' b'0' (b'~' ∷ []) (replace_pair b'~' b'1' (b'/' ∷ []) token)

-- `str::trim_start_matches` of one character
unfoldable pub trim_start : ℕ → Bytes → Bytes
trim_start c [] = []
trim_start c (x ∷ xs) = let rest = trim_start c xs in if x == c then rest else x ∷ xs

unfoldable pub pointer_tokens : Bytes → List Bytes
pointer_tokens pointer =
    if Text.is_empty_text pointer
    then []
    else map unescape (Text.split b'/' (trim_start b'/' pointer))

-- `str::rsplit_once`
unfoldable pub rsplit_once : ℕ → Bytes → Option (Bytes × Bytes)
rsplit_once sep [] = none
rsplit_once sep (b ∷ bs) = elim (rsplit_once sep bs) [
  | some (front, back) ↦ some (b ∷ front, back)
  | none ↦ if b == sep then some ([], bs) else none
]

-- A pointer's parent and last token, decoded.
unfoldable pub split : Bytes → Bytes × Bytes
split pointer = elim (rsplit_once b'/' pointer) [
  | some (parent, token) ↦ (parent, unescape token)
  | none ↦ ([], unescape pointer)
]

-- `format!("{pointer}/{}", escape_pointer(name))`: how every walk extends a pointer.
unfoldable pub extend : Bytes → Bytes → Bytes
extend pointer name = pointer ++ b'/' ∷ escape_pointer name
