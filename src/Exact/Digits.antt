-- ===== src/Exact/Digits.antt =====
-- What `Exact::parse` makes of digits, with a point or without (value.rs).
use reldir.Base.{
  ℕ, zero, suc, ◌-◌, ◌≡◌, refl, sym, ap, ◌∙◌, Bool, true, false, not, [], ◌∷◌, ◌++◌, length,
  replicate, none, some, ◌==◌,
}
use reldir.Store.Corruption.{Bytes}
use reldir.RefPath.Parser.{is_ascii_digit, all_of}
use reldir.RefPath.Parser.Chars.{&&-both, passes-apart}
use reldir.Exact.{
  ℤ, pos, negated, ◌+ℤ◌, trim_start, trim_end, push_kept, is_empty, split_first, push_first, is_dot,
  is_e, normal, of_parts, split_power, split_point, parse_unsigned,
}
use reldir.Exact.Normal.{AllDigits, NoLeadingZero}

-- No byte passes.
abbrev Free : (ℕ → Bool) → Bytes → Type 0
Free test s = all_of (λ c. not (test c)) s ≡ true

not-true : (b : Bool) → not b ≡ true → b ≡ false
not-true true h = sym h
not-true false h = refl

split_first-Free : (test : ℕ → Bool) (s : Bytes) → Free test s → split_first test s ≡ none
unfolding split_first all_of
split_first-Free test [] h = refl
split_first-Free test (c ∷ cs) h =
    let (here, more) = &&-both (not (test c)) (all_of (λ c. not (test c)) cs) h in
    rw (not-true (test c) here) (ap (push_first c) (split_first-Free test cs more))

split_first-append :
    (test : ℕ → Bool) (s : Bytes) (k : ℕ) (t : Bytes)
    → Free test s
    → test k ≡ true
    → split_first test (s ++ k ∷ t) ≡ some (s, t)
unfolding split_first all_of
split_first-append test [] k t h y = rw y refl
split_first-append test (c ∷ cs) k t h y =
    let (here, more) = &&-both (not (test c)) (all_of (λ c. not (test c)) cs) h in
    rw (not-true (test c) here) (ap (push_first c) (split_first-append test cs k t more y))

all_of-weaken :
    (p q : ℕ → Bool) (s : Bytes)
    → ((c : ℕ) → p c ≡ true → q c ≡ true)
    → all_of p s ≡ true
    → all_of q s ≡ true
unfolding all_of
all_of-weaken p q [] f h = refl
all_of-weaken p q (c ∷ cs) f h =
    let (here, more) = &&-both (p c) (all_of p cs) h in rw (f c here) (all_of-weaken p q cs f more)

no_dot : (c : ℕ) → is_ascii_digit c ≡ true → not (is_dot c) ≡ true
unfolding is_ascii_digit
no_dot c h =
    let apart : c == b'.' ≡ false = passes-apart is_ascii_digit c b'.' h refl in rw apart refl

no_e : (c : ℕ) → is_ascii_digit c ≡ true → not (is_e c) ≡ true
unfolding is_ascii_digit
no_e c h =
    let lower : c == b'e' ≡ false = passes-apart is_ascii_digit c b'e' h refl in
    let upper : c == b'E' ≡ false = passes-apart is_ascii_digit c b'E' h refl in
    rw (lower, upper) refl

-- A digit is no sign.
pub digit_no_sign : (c : ℕ) → is_ascii_digit c ≡ true → c == b'-' ≡ false
unfolding is_ascii_digit
digit_no_sign c h = passes-apart is_ascii_digit c b'-' h refl

append-Free : (test : ℕ → Bool) (s t : Bytes) → Free test s → Free test t → Free test (s ++ t)
unfolding all_of
append-Free test [] t h k = k
append-Free test (c ∷ cs) t h k =
    let (here, more) = &&-both (not (test c)) (all_of (λ c. not (test c)) cs) h in
    rw here (append-Free test cs t more k)

of_parts-digits :
    (negative : Bool) (whole fraction : Bytes) (exponent : ℤ)
    → is_empty whole ≡ false
    → AllDigits whole
    → AllDigits fraction
    → of_parts negative whole fraction exponent
      ≡ some (normal negative (whole ++ fraction) (exponent +ℤ negated (length fraction)))
unfolding of_parts
of_parts-digits negative whole fraction exponent e h k = rw (e, h, k) refl

empty_all : AllDigits []
unfolding all_of
empty_all = refl

dot_Free : (f : Bytes) → AllDigits f → Free is_e (b'.' ∷ f)
unfolding all_of
dot_Free f k = all_of-weaken _ _ f no_e k

no_power : (s : Bytes) → split_first is_e s ≡ none → split_power s ≡ some (s, pos 0)
unfolding split_power
no_power s h = rw (split_power, h) refl

no_point : (s : Bytes) → split_first is_dot s ≡ none → split_point s ≡ some (s, [])
unfolding split_point
no_point s h = rw (split_point, h) refl

a_point :
    (s w f : Bytes)
    → split_first is_dot s ≡ some (w, f)
    → is_empty f ≡ false
    → split_point s ≡ some (w, f)
unfolding split_point
a_point s w f h e = rw (split_point, h, e) refl

read_parts :
    (negative : Bool) (s m w f : Bytes) (e : ℤ)
    → split_power s ≡ some (m, e)
    → split_point m ≡ some (w, f)
    → parse_unsigned negative s ≡ of_parts negative w f e
unfolding parse_unsigned
read_parts negative s m w f e h k = rw (parse_unsigned, h, k) refl

pub whole_read :
    (negative : Bool) (w : Bytes)
    → is_empty w ≡ false
    → AllDigits w
    → parse_unsigned negative w ≡ some (normal negative (w ++ []) (pos 0 +ℤ negated 0))
whole_read negative w e h =
    read_parts negative w w w [] (pos 0)
      (no_power w (split_first-Free is_e w (all_of-weaken _ _ w no_e h)))
      (no_point w (split_first-Free is_dot w (all_of-weaken _ _ w no_dot h)))
    ∙ of_parts-digits negative w [] (pos 0) e h empty_all

pub fraction_read :
    (negative : Bool) (w f : Bytes)
    → is_empty w ≡ false
    → AllDigits w
    → is_empty f ≡ false
    → AllDigits f
    → parse_unsigned negative (w ++ b'.' ∷ f)
      ≡ some (normal negative (w ++ f) (pos 0 +ℤ negated (length f)))
fraction_read negative w f e h e' k =
    read_parts negative (w ++ b'.' ∷ f) (w ++ b'.' ∷ f) w f (pos 0)
      (no_power (w ++ b'.' ∷ f) (
        split_first-Free is_e (w ++ b'.' ∷ f)
          (append-Free is_e w (b'.' ∷ f) (all_of-weaken _ _ w no_e h) (dot_Free f k))))
      (a_point (w ++ b'.' ∷ f) w f
        (split_first-append is_dot w b'.' f (all_of-weaken _ _ w no_dot h) refl) e')
    ∙ of_parts-digits negative w f (pos 0) e h k

-- The zeros that `plain` writes are trimmed.
pub trim_end-zeros : (s : Bytes) (n : ℕ) → trim_end (s ++ replicate n b'0') ≡ trim_end s
unfolding trim_end
trim_end-zeros [] zero = refl
trim_end-zeros [] (suc n) = ap (push_kept b'0') (trim_end-zeros [] n)
trim_end-zeros (c ∷ cs) n = ap (push_kept c) (trim_end-zeros cs n)

pub trim_start-NoLeadingZero_id : (s : Bytes) → NoLeadingZero s → trim_start s ≡ s
unfolding trim_start
trim_start-NoLeadingZero_id [] h = refl
trim_start-NoLeadingZero_id (c ∷ cs) h = rw h refl

pub trim_start-zeros : (n : ℕ) (s : Bytes) → trim_start (replicate n b'0' ++ s) ≡ trim_start s
unfolding trim_start
trim_start-zeros zero s = refl
trim_start-zeros (suc n) s = trim_start-zeros n s

pub zeros-AllDigits : (n : ℕ) → AllDigits (replicate n b'0')
unfolding all_of is_ascii_digit
zeros-AllDigits zero = refl
zeros-AllDigits (suc n) = zeros-AllDigits n

pub normal-trimmed :
    (negative : Bool) (all trimmed digits : Bytes) (exponent e : ℤ)
    → trim_start all ≡ trimmed
    → trim_end trimmed ≡ digits
    → is_empty digits ≡ false
    → exponent +ℤ pos (length trimmed - length digits) ≡ e
    → normal negative all exponent ≡ record { negative = negative; digits = digits; exponent = e }
unfolding normal
normal-trimmed negative all trimmed digits exponent e t d n h = rw (t, d, n, h) refl
