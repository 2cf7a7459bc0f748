-- ===== src/Exact.antt =====
-- Exact decimal numbers (value.rs): `Exact`, its parser, its printer and the tests on texts of
-- numbers. A text is its bytes, and exponents are integers.
pub mod Normal
pub mod Digits
pub mod Spelling
pub mod RoundTrip
mod Examples
use reldir.Base.{
  ℕ, zero, suc, ◌+◌, ◌-◌, ◌*◌, leb, ltb, Bool, true, false, not, ◌&&◌, ◌||◌, List, [], ◌∷◌, ◌++◌,
  length, take, drop, replicate, Option, none, some, ◌==◌, if◌then◌else◌,
}
use reldir.Store.Corruption.{Bytes}
use reldir.RefPath.Parser.{is_ascii_digit, all_of}

pub data ℤ : Type 0 where
  pos : ℕ → ℤ
  negsuc : ℕ → ℤ

-- `a - b`
unfoldable pub difference : ℕ → ℕ → ℤ
difference a b = if leb b a then pos (a - b) else negsuc (b - a - 1)

infixl 6 ◌+ℤ◌
unfoldable pub ◌+ℤ◌ : ℤ → ℤ → ℤ
unfolding difference
pos a +ℤ pos b = pos (a + b)
pos a +ℤ negsuc b = difference a (suc b)
negsuc a +ℤ pos b = difference b (suc a)
negsuc a +ℤ negsuc b = negsuc (suc (a + b))

unfoldable pub negated : ℕ → ℤ
negated zero = pos 0
negated (suc n) = negsuc n

pub record Exact : Type 0 where
  pub negative : Bool
  pub digits : Bytes
  pub exponent : ℤ

-- `trim_start_matches` and `trim_end_matches` with `'0'`
unfoldable pub trim_start : Bytes → Bytes
trim_start [] = []
trim_start (c ∷ cs) = let rest = trim_start cs in if c == b'0' then rest else c ∷ cs

abbrev pub push_kept : ℕ → Bytes → Bytes
push_kept c [] = if c == b'0' then [] else c ∷ []
push_kept c (d ∷ ds) = c ∷ d ∷ ds

unfoldable pub trim_end : Bytes → Bytes
trim_end [] = []
trim_end (c ∷ cs) = push_kept c (trim_end cs)

-- The text before the first byte that passes, and the text behind that byte.
abbrev pub push_first : ℕ → Option (Bytes × Bytes) → Option (Bytes × Bytes)
push_first c none = none
push_first c (some (before, after)) = some (c ∷ before, after)

unfoldable pub split_first : (ℕ → Bool) → Bytes → Option (Bytes × Bytes)
split_first test [] = none
split_first test (c ∷ cs) =
    let later = push_first c (split_first test cs) in if test c then some ([], cs) else later

abbrev pub is_dot : ℕ → Bool
is_dot c = c == b'.'

abbrev pub is_e : ℕ → Bool
is_e c = c == b'e' || c == b'E'

abbrev pub is_empty : Bytes → Bool
is_empty [] = true
is_empty (c ∷ cs) = false

-- `power.parse::<i64>()` from its first digit, and the filter on it: what does not fit an `i64` is
-- above the filter's bound.
unfoldable pub number_of : ℕ → Bytes → ℕ
number_of sum [] = sum
number_of sum (c ∷ cs) = number_of (sum * 10 + (c - b'0')) cs

unfoldable pub power_of : Bytes → Option ℕ
power_of digits =
    let value = number_of 0 digits in
    if not (is_empty digits) && all_of is_ascii_digit digits && leb value 100000
    then some value
    else none

abbrev pub minus : Option ℕ → Option ℤ
minus none = none
minus (some n) = some (negated n)

abbrev pub plus : Option ℕ → Option ℤ
plus none = none
plus (some n) = some (pos n)

unfoldable pub signed_power : Bytes → Option ℤ
signed_power [] = none
signed_power (c ∷ cs) = if c == b'-' then minus (power_of cs) else plus (power_of (c ∷ cs))

-- What follows the `e`.
unfoldable pub power : Bytes → Option ℤ
power [] = none
power (c ∷ cs) = if c == b'+' then signed_power cs else signed_power (c ∷ cs)

-- The mantissa and the exponent.
unfoldable pub split_power : Bytes → Option (Bytes × ℤ)
split_power unsigned = elim (split_first is_e unsigned) [
  | none ↦ some (unsigned, pos 0)
  | some (mantissa, text) ↦ elim (power text) [
    | none ↦ none
    | some exponent ↦ some (mantissa, exponent)
  ]
]

-- The digits before the point and behind it.
unfoldable pub split_point : Bytes → Option (Bytes × Bytes)
split_point mantissa = elim (split_first is_dot mantissa) [
  | none ↦ some (mantissa, [])
  | some (whole, fraction) ↦ if is_empty fraction then none else some (whole, fraction)
]

-- The number with the digits `all`, the last of which stands for `10 ^ exponent`.
unfoldable pub normal : Bool → Bytes → ℤ → Exact
normal negative all exponent =
    let trimmed = trim_start all in
    let digits = trim_end trimmed in
    if is_empty digits then record { negative = false; digits = []; exponent = pos 0 } else record {
      negative = negative;
      digits = digits;
      exponent = exponent +ℤ pos (length trimmed - length digits);
    }

unfoldable pub of_parts : Bool → Bytes → Bytes → ℤ → Option Exact
of_parts negative whole fraction exponent =
    if is_empty whole || not (all_of is_ascii_digit whole) || not (all_of is_ascii_digit fraction)
    then none
    else some (normal negative (whole ++ fraction) (exponent +ℤ negated (length fraction)))

unfoldable pub parse_unsigned : Bool → Bytes → Option Exact
parse_unsigned negative unsigned = elim (split_power unsigned) [
  | none ↦ none
  | some (mantissa, exponent) ↦ elim (split_point mantissa) [
    | none ↦ none
    | some (whole, fraction) ↦ of_parts negative whole fraction exponent
  ]
]

-- `Exact::parse`
unfoldable pub parse_exact : Bytes → Option Exact
parse_exact [] = parse_unsigned false []
parse_exact (c ∷ cs) = if c == b'-' then parse_unsigned true cs else parse_unsigned false (c ∷ cs)

unfoldable pub plain_unsigned : Bytes → ℤ → Bytes
plain_unsigned digits (pos n) = digits ++ replicate n b'0'
plain_unsigned digits (negsuc n) =
    if ltb (suc n) (length digits)
    then take (length digits - suc n) digits ++ b'.' ∷ drop (length digits - suc n) digits
    else b'0' ∷ b'.' ∷ replicate (suc n - length digits) b'0' ++ digits

-- `Exact::plain`
unfoldable pub plain : Exact → Bytes
plain x =
    if is_empty x.digits
    then b'0' ∷ []
    else if x.negative
    then b'-' ∷ plain_unsigned x.digits x.exponent
    else plain_unsigned x.digits x.exponent

-- `normalize_numeric`
unfoldable pub normalize_numeric : Bytes → Option Bytes
normalize_numeric text = elim (parse_exact text) [ none ↦ none | some x ↦ some (plain x) ]
