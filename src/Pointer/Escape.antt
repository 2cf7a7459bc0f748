-- ===== src/Pointer/Escape.antt =====
-- `escape_pointer` and its reader, token by token (schema/path.rs).
use reldir.Base.{
  ℕ, ◌≡◌, refl, ap, ◌∙◌, arith, true, false, [], ◌∷◌, ◌++◌, ◌==◌, inl, inr, Bool-cases,
  if◌then◌else◌,
}
use reldir.Store.Corruption.{Bytes}
use reldir.Store.Text.{contains}
use reldir.Pointer.{replace_char, replace_pair, escape_pointer, unescape}

-- What the two replacements of `escape_pointer` make of a character.
abbrev escaped : ℕ → Bytes
escaped c = if c == b'~' then b'~' ∷ b'0' ∷ [] else if c == b'/' then b'~' ∷ b'1' ∷ [] else c ∷ []

-- `escape_pointer` character by character.
unfoldable pub escape_chars : Bytes → Bytes
escape_chars [] = []
escape_chars (c ∷ cs) = escaped c ++ escape_chars cs

pub escape_pointer-chars : (t : Bytes) → escape_pointer t ≡ escape_chars t
unfolding escape_pointer replace_char escape_chars
escape_pointer-chars [] = refl
escape_pointer-chars (c ∷ cs) = ground (arith, escape_pointer-chars cs)

-- Half way back: `/` is restored, and `~` still stands as `~0`.
tildes : Bytes → Bytes
tildes [] = []
tildes (c ∷ cs) = (if c == b'~' then b'~' ∷ b'0' ∷ [] else c ∷ []) ++ tildes cs

-- A character that does not begin the pair is copied.
replace_pair-copies :
    (a b : ℕ) (by : Bytes) (x : ℕ) (t : Bytes)
    → x == a ≡ false
    → replace_pair a b by (x ∷ t) ≡ x ∷ replace_pair a b by t
unfolding replace_pair
replace_pair-copies a b by x [] e = refl
replace_pair-copies a b by x (y ∷ t) e = rw e refl

is_char : (c d : ℕ) → c == d ≡ true → d ≡ c
is_char c d e = grind arith

slashes_back : (t : Bytes) → replace_pair b'~' b'1' (b'/' ∷ []) (escape_chars t) ≡ tildes t
unfolding replace_pair escape_chars tildes
slashes_back [] = refl
slashes_back (c ∷ cs) = elim (Bool-cases (c == b'~')) [
  | inl y ↦ rw y (
      ap (◌∷◌ b'~') (
        replace_pair-copies b'~' b'1' (b'/' ∷ []) b'0' (escape_chars cs) refl
        ∙ ap (◌∷◌ b'0') (slashes_back cs)))
  | inr n ↦ rw n (elim (Bool-cases (c == b'/')) [
    | inl y ↦ rw y (ap (◌∷◌ b'/') (slashes_back cs) ∙ ap (λ x. x ∷ tildes cs) (is_char c b'/' y))
    | inr m ↦ rw m (
        replace_pair-copies b'~' b'1' (b'/' ∷ []) c (escape_chars cs) n
        ∙ ap (◌∷◌ c) (slashes_back cs))
  ])
]

tildes_back : (t : Bytes) → replace_pair b'~' b'0' (b'~' ∷ []) (tildes t) ≡ t
unfolding replace_pair tildes
tildes_back [] = refl
tildes_back (c ∷ cs) = elim (Bool-cases (c == b'~')) [
  | inl y ↦ rw y (ap (◌∷◌ b'~') (tildes_back cs) ∙ ap (λ x. x ∷ cs) (is_char c b'~' y))
  | inr n ↦
      rw n (replace_pair-copies b'~' b'0' (b'~' ∷ []) c (tildes cs) n ∙ ap (◌∷◌ c) (tildes_back cs))
]

-- Unescaping undoes escaping, whatever the token holds.
pub unescape-escape : (t : Bytes) → unescape (escape_pointer t) ≡ t
unfolding unescape
unescape-escape t =
    ap (λ s. replace_pair b'~' b'0' (b'~' ∷ []) (replace_pair b'~' b'1' (b'/' ∷ []) s))
      (escape_pointer-chars t)
    ∙ ap (replace_pair b'~' b'0' (b'~' ∷ [])) (slashes_back t)
    ∙ tildes_back t

contains-escape_chars : (t : Bytes) → contains b'/' (escape_chars t) ≡ false
unfolding contains escape_chars
contains-escape_chars [] = refl
contains-escape_chars (c ∷ cs) = ground (arith, contains-escape_chars cs)

pub contains-escape : (t : Bytes) → contains b'/' (escape_pointer t) ≡ false
contains-escape t = rw escape_pointer-chars (contains-escape_chars t)
