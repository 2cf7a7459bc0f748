-- ===== src/Exact/Normal.antt =====
-- The numbers that `Exact::parse` gives are in normal form (value.rs).
use reldir.Base.{
  ℕ, ◌-◌, ◌≡◌, refl, sym, ap, ◌∙◌, subst, Bool, true, false, not, ◌||◌, [], ◌∷◌, ◌++◌, length,
  Option, none, some, ◌==◌, inl, inr, Bool-cases, if◌then◌else◌,
}
use reldir.Store.Corruption.{Bytes}
use reldir.RefPath.Parser.{is_ascii_digit, all_of}
use reldir.RefPath.Parser.Chars.{&&-both}
use reldir.Exact.{
  ℤ, pos, negated, ◌+ℤ◌, Exact, trim_start, trim_end, push_kept, is_empty, normal, of_parts,
  split_power, split_point, parse_unsigned, parse_exact,
}

abbrev pub AllDigits : Bytes → Type 0
AllDigits s = all_of is_ascii_digit s ≡ true

-- No zero at the front.
abbrev pub NoLeadingZero : Bytes → Type 0
NoLeadingZero [] = Unit {0}
NoLeadingZero (c ∷ cs) = c == b'0' ≡ false

-- The digits of a number begin and end with no zero, and there is one zero.
pub record IsNormal (x : Exact) : Type 0 where
  pub all : AllDigits x.digits
  pub start : NoLeadingZero x.digits
  pub end : trim_end x.digits ≡ x.digits
  pub zero_is : x.digits ≡ [] → (x.negative ≡ false) × (x.exponent ≡ pos 0)

trim_start-NoLeadingZero : (s : Bytes) → NoLeadingZero (trim_start s)
unfolding trim_start
trim_start-NoLeadingZero [] = tt
trim_start-NoLeadingZero (c ∷ cs) = elim (Bool-cases (c == b'0')) [
  | inl y ↦ rw y (trim_start-NoLeadingZero cs)
  | inr n ↦ rw n n
]

trim_start-AllDigits : (s : Bytes) → AllDigits s → AllDigits (trim_start s)
unfolding trim_start all_of
trim_start-AllDigits [] h = refl
trim_start-AllDigits (c ∷ cs) h = elim (Bool-cases (c == b'0')) [
  | inl y ↦ rw y (trim_start-AllDigits cs (&&-both (is_ascii_digit c) _ h).1)
  | inr n ↦ rw n h
]

push_kept-AllDigits :
    (c : ℕ) (r : Bytes) → is_ascii_digit c ≡ true → AllDigits r → AllDigits (push_kept c r)
unfolding all_of
push_kept-AllDigits c [] h k = elim (Bool-cases (c == b'0')) [
  | inl y ↦ rw y refl
  | inr n ↦ rw (n, h) refl
]
push_kept-AllDigits c (d ∷ ds) h k = rw h k

trim_end-AllDigits : (s : Bytes) → AllDigits s → AllDigits (trim_end s)
unfolding trim_end all_of
trim_end-AllDigits [] h = refl
trim_end-AllDigits (c ∷ cs) h =
    let (here, more) = &&-both (is_ascii_digit c) (all_of is_ascii_digit cs) h in
    push_kept-AllDigits c (trim_end cs) here (trim_end-AllDigits cs more)

push_kept-NoLeadingZero : (c : ℕ) (r : Bytes) → c == b'0' ≡ false → NoLeadingZero (push_kept c r)
push_kept-NoLeadingZero c [] n = rw n n
push_kept-NoLeadingZero c (d ∷ ds) n = n

trim_end-NoLeadingZero : (s : Bytes) → NoLeadingZero s → NoLeadingZero (trim_end s)
unfolding trim_end
trim_end-NoLeadingZero [] h = tt
trim_end-NoLeadingZero (c ∷ cs) h = push_kept-NoLeadingZero c (trim_end cs) h

trim_end-push_kept : (c : ℕ) (r : Bytes) → trim_end r ≡ r → trim_end (push_kept c r) ≡ push_kept c r
unfolding trim_end
trim_end-push_kept c [] h = elim (Bool-cases (c == b'0')) [
  | inl y ↦ rw y refl
  | inr n ↦ rw (n, n) refl
]
trim_end-push_kept c (d ∷ ds) h = ap (push_kept c) h

trim_end-trim_end : (s : Bytes) → trim_end (trim_end s) ≡ trim_end s
unfolding trim_end
trim_end-trim_end [] = refl
trim_end-trim_end (c ∷ cs) = trim_end-push_kept c (trim_end cs) (trim_end-trim_end cs)

normal-IsNormal :
    (negative : Bool) (all : Bytes) (exponent : ℤ)
    → AllDigits all
    → IsNormal (normal negative all exponent)
unfolding normal all_of trim_end
normal-IsNormal negative all exponent h = by_digits (is_empty digits) refl
  where
    digits : Bytes
    digits = trim_end (trim_start all)

    chosen : Bool → Exact
    chosen b = if b then record { negative = false; digits = []; exponent = pos 0 } else record {
      negative = negative;
      digits = digits;
      exponent = exponent +ℤ pos (length (trim_start all) - length digits);
    }

    by_digits : (b : Bool) → is_empty digits ≡ b → IsNormal (chosen b)
    by_digits true e = record { all = refl; start = tt; end = refl; zero_is = λ z. (refl, refl) }
    by_digits false e = record {
      all = trim_end-AllDigits (trim_start all) (trim_start-AllDigits all h);
      start = trim_end-NoLeadingZero (trim_start all) (trim_start-NoLeadingZero all);
      end = trim_end-trim_end (trim_start all);
      zero_is = λ z. let clash : true ≡ false = sym (ap is_empty z) ∙ e in absurd (cc);
    }

abbrev Fine : Option Exact → Type 0
Fine none = Unit {0}
Fine (some x) = IsNormal x

pub append-AllDigits : (s t : Bytes) → AllDigits s → AllDigits t → AllDigits (s ++ t)
unfolding all_of
append-AllDigits [] t h k = k
append-AllDigits (c ∷ cs) t h k =
    let (here, more) = &&-both (is_ascii_digit c) (all_of is_ascii_digit cs) h in
    rw here (append-AllDigits cs t more k)

of_parts-Fine :
    (negative : Bool) (whole fraction : Bytes) (exponent : ℤ)
    → Fine (of_parts negative whole fraction exponent)
unfolding of_parts
of_parts-Fine negative whole fraction exponent =
    by_tests (is_empty whole) (all_of is_ascii_digit whole) (all_of is_ascii_digit fraction) refl
      refl
  where
    found : Option Exact
    found = some (normal negative (whole ++ fraction) (exponent +ℤ negated (length fraction)))

    by_tests :
        (a b c : Bool)
        → all_of is_ascii_digit whole ≡ b
        → all_of is_ascii_digit fraction ≡ c
        → Fine (if a || not b || not c then none else found)
    by_tests true b c h k = tt
    by_tests false false c h k = tt
    by_tests false true false h k = tt
    by_tests false true true h k =
        normal-IsNormal negative (whole ++ fraction) (exponent +ℤ negated (length fraction))
          (append-AllDigits whole fraction h k)

parse_unsigned-Fine : (negative : Bool) (unsigned : Bytes) → Fine (parse_unsigned negative unsigned)
unfolding parse_unsigned
parse_unsigned-Fine negative unsigned = by_power (split_power unsigned)
  where
    pointed : ℤ → Option (Bytes × Bytes) → Option Exact
    pointed exponent o = elim o [
      | none ↦ none
      | some (whole, fraction) ↦ of_parts negative whole fraction exponent
    ]

    by_point : (exponent : ℤ) (o : Option (Bytes × Bytes)) → Fine (pointed exponent o)
    by_point exponent none = tt
    by_point exponent (some (whole, fraction)) = of_parts-Fine negative whole fraction exponent

    powered : Option (Bytes × ℤ) → Option Exact
    powered o = elim o [
      | none ↦ none
      | some (mantissa, exponent) ↦ pointed exponent (split_point mantissa)
    ]

    by_power : (o : Option (Bytes × ℤ)) → Fine (powered o)
    by_power none = tt
    by_power (some (mantissa, exponent)) = by_point exponent (split_point mantissa)

parse_exact-Fine : (text : Bytes) → Fine (parse_exact text)
unfolding parse_exact
parse_exact-Fine [] = parse_unsigned-Fine false []
parse_exact-Fine (c ∷ cs) = elim (Bool-cases (c == b'-')) [
  | inl y ↦ rw y (parse_unsigned-Fine true cs)
  | inr n ↦ rw n (parse_unsigned-Fine false (c ∷ cs))
]

-- The number that a text is read as has no zero at either end of its digits, and zero has no sign
-- and no exponent.
pub parse_exact-IsNormal : (text : Bytes) (x : Exact) → parse_exact text ≡ some x → IsNormal x
parse_exact-IsNormal text x h = subst Fine h (parse_exact-Fine text)
