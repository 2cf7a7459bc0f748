-- ===== src/Store/Text.antt =====
-- Text as its UTF-8 bytes: what the store uses of `str`, and the paths it admits (store/node.rs).
use reldir.Base.{
  ◌≡◌, ◌↔◌, refl, arith, ℕ, zero, suc, Bool, true, false, not, ◌&&◌, ◌||◌, List, [], ◌∷◌, Option,
  none, some, ltb, leb, ◌==◌, if◌then◌else◌,
}
use reldir.Store.Corruption.{Bytes}

-- `str::from_utf8`: how many continuation bytes are due, and the range of the next one.
record Utf8State : Type 0 where
  due : ℕ
  lowest : ℕ
  highest : ℕ

abbrev continuation : ℕ → Utf8State
continuation n = record { due = n; lowest = 0x80; highest = 0xbf }

-- The first byte of a scalar value (Unicode, table 3-7).
first_byte : ℕ → Option Utf8State
first_byte b =
    if ltb b 0x80
    then some (continuation 0)
    else if ltb b 0xc2
    then none
    else if ltb b 0xe0
    then some (continuation 1)
    else if b == 0xe0
    then some (record { due = 2; lowest = 0xa0; highest = 0xbf })
    else if b == 0xed
    then some (record { due = 2; lowest = 0x80; highest = 0x9f })
    else if ltb b 0xf0
    then some (continuation 2)
    else if b == 0xf0
    then some (record { due = 3; lowest = 0x90; highest = 0xbf })
    else if ltb b 0xf4
    then some (continuation 3)
    else if b == 0xf4
    then some (record { due = 3; lowest = 0x80; highest = 0x8f })
    else none

-- The next byte, while this many continuation bytes are due.
byte_due : ℕ → Utf8State → ℕ → Option Utf8State
unfolding first_byte
byte_due zero s b = first_byte b
byte_due (suc n) s b = if leb s.lowest b && leb b s.highest then some (continuation n) else none

is_utf8_from : Option Utf8State → Bytes → Bool
unfolding byte_due
is_utf8_from none bs = false
is_utf8_from (some s) [] = s.due == 0
is_utf8_from (some s) (b ∷ bs) = is_utf8_from (byte_due s.due s b) bs

unfoldable pub is_utf8 : Bytes → Bool
unfolding is_utf8_from
is_utf8 bs = is_utf8_from (some (continuation 0)) bs

-- `==` and `<` of `str`: by bytes.
unfoldable pub bytes_eq : Bytes → Bytes → Bool
bytes_eq [] [] = true
bytes_eq (x ∷ xs) (y ∷ ys) = x == y && bytes_eq xs ys
bytes_eq _ _ = false

unfoldable pub bytes_lt : Bytes → Bytes → Bool
bytes_lt [] [] = false
bytes_lt [] (b ∷ bs) = true
bytes_lt (x ∷ xs) [] = false
bytes_lt (x ∷ xs) (y ∷ ys) = ltb x y || (x == y && bytes_lt xs ys)

-- `str::contains` of one ASCII character
unfoldable pub contains : ℕ → Bytes → Bool
contains a [] = false
contains a (b ∷ bs) = a == b || contains a bs

-- The head of the pieces of a text before it grows by `b`.
unfoldable pub push_head : ℕ → List Bytes → List Bytes
push_head b [] = (b ∷ []) ∷ []
push_head b (p ∷ ps) = (b ∷ p) ∷ ps

-- `str::split` at one ASCII character: never empty.
unfoldable pub split : ℕ → Bytes → List Bytes
unfolding push_head
split sep [] = [] ∷ []
split sep (b ∷ bs) = let ps = split sep bs in if b == sep then [] ∷ ps else push_head b ps

-- `!matches!(component, "" | "." | "..")`
unfoldable pub plain_component : Bytes → Bool
plain_component [] = false
plain_component (a ∷ []) = not (a == b'.')
plain_component (a ∷ b ∷ []) = not (a == b'.' && b == b'.')
plain_component _ = true

unfoldable pub all_plain : List Bytes → Bool
unfolding plain_component
all_plain [] = true
all_plain (p ∷ ps) = plain_component p && all_plain ps

first_has_colon : List Bytes → Bool
unfolding contains
first_has_colon [] = false
first_has_colon (p ∷ ps) = contains b':' p

unfoldable pub is_empty_text : Bytes → Bool
is_empty_text [] = true
is_empty_text (b ∷ bs) = false

unfoldable pub valid_path : Bytes → Bool
unfolding is_empty_text contains split all_plain first_has_colon
valid_path path =
    not (is_empty_text path)
    && not (contains 0 path || contains 0x5c path)
    && all_plain (split b'/' path)
    && not (first_has_colon (split b'/' path))

unfoldable pub valid_table_name : Bytes → Bool
unfolding valid_path
valid_table_name name = valid_path name && not (contains b'/' name || contains b':' name)

-- `str::split_once`
unfoldable pub split_once : ℕ → Bytes → Option (Bytes × Bytes)
split_once sep [] = none
split_once sep (b ∷ bs) =
    let later = split_once sep bs in
    if b == sep
    then some ([], bs)
    else elim later [ none ↦ none | some (front, back) ↦ some (b ∷ front, back) ]

unfoldable pub table_of : Bytes → Option Bytes
unfolding split_once is_empty_text
table_of path = elim (split_once b'/' path) [
  | none ↦ none
  | some (table, rest) ↦ if is_empty_text rest then none else some table
]

pub bytes_eq_iff : (xs ys : Bytes) → (bytes_eq xs ys ≡ true) ↔ (xs ≡ ys)
unfolding bytes_eq
bytes_eq_iff [] [] = (λ _. refl, λ _. refl)
bytes_eq_iff [] (y ∷ ys) = (λ h. cc, λ h. cc)
bytes_eq_iff (x ∷ xs) [] = (λ h. cc, λ h. cc)
bytes_eq_iff (x ∷ xs) (y ∷ ys) =
    (λ h. ground (arith, (bytes_eq_iff xs ys).0), λ h. ground (arith, (bytes_eq_iff xs ys).1))

pub bytes_eq_refl : (k : Bytes) → bytes_eq k k ≡ true
bytes_eq_refl k = (bytes_eq_iff k k).1 refl
