-- ===== src/Exact/RoundTrip.antt =====
-- The canonical text of a number is read as that number (value.rs).
use reldir.Base.{
  ℕ, zero, suc, ◌-◌, ◌≡◌, ◌↔◌, refl, sym, ap, ◌∙◌, subst, arith, ltb, Bool, true, false, [], ◌∷◌,
  ◌++◌, length, take, replicate, some, ◌==◌, inl, inr, Bool-cases,
}
use reldir.Store.Corruption.{Bytes}
use reldir.RefPath.Parser.{is_ascii_digit, all_of}
use reldir.RefPath.Parser.Chars.{&&-both}
use reldir.Exact.{
  ℤ, pos, negsuc, Exact, trim_start, trim_end, split_first, normal, of_parts, split_power,
  split_point, parse_unsigned, parse_exact, plain_unsigned, plain, normalize_numeric,
}
use reldir.Exact.Normal.{AllDigits, IsNormal, parse_exact-IsNormal}
use reldir.Exact.Spelling.{all_of-take, plain_unsigned-Read}
use reldir.Exact.Digits.{digit_no_sign}

-- A text of digits begins with no sign.
abbrev NoSign : Bytes → Type 0
NoSign [] = Unit {0}
NoSign (c ∷ cs) = c == b'-' ≡ false

append-NoSign : (s t : Bytes) → AllDigits s → NoSign t → NoSign (s ++ t)
unfolding all_of
append-NoSign [] t h k = k
append-NoSign (c ∷ cs) t h k =
    digit_no_sign c (&&-both (is_ascii_digit c) (all_of is_ascii_digit cs) h).0

zeros-NoSign : (n : ℕ) → NoSign (replicate n b'0')
zeros-NoSign zero = tt
zeros-NoSign (suc n) = refl

plain_unsigned-NoSign :
    (digits : Bytes) (e : ℤ) → AllDigits digits → NoSign (plain_unsigned digits e)
unfolding plain_unsigned
plain_unsigned-NoSign digits (pos n) h = append-NoSign digits (replicate n b'0') h (zeros-NoSign n)
plain_unsigned-NoSign digits (negsuc n) h = elim (Bool-cases (ltb (suc n) (length digits))) [
  | inl y ↦
      rw y (append-NoSign (take (length digits - suc n) digits) _ (all_of-take _ digits h) refl)
  | inr m ↦ rw m refl
]

unsigned_first :
    (s : Bytes) (x : Exact) → NoSign s → parse_unsigned false s ≡ some x → parse_exact s ≡ some x
unfolding parse_exact
unsigned_first [] x h k = k
unsigned_first (c ∷ cs) x h k = rw h k

abbrev zero_exact : Exact
zero_exact = record { negative = false; digits = []; exponent = pos 0 }

zero_read : parse_exact (b'0' ∷ []) ≡ some zero_exact
unfolding parse_exact parse_unsigned split_power split_point split_first of_parts all_of
    is_ascii_digit normal trim_start trim_end
zero_read = refl

number_read :
    (negative : Bool) (digits : Bytes) (e : ℤ)
    → IsNormal (record { negative = negative; digits = digits; exponent = e })
    → parse_exact (plain (record { negative = negative; digits = digits; exponent = e }))
      ≡ some (record { negative = negative; digits = digits; exponent = e })
unfolding plain parse_exact
number_read negative [] e h =
    let (unsigned, whole) = h.zero_is refl in
    subst
      (λ (z : ℤ).
        parse_exact (b'0' ∷ []) ≡ some (record { negative = negative; digits = []; exponent = z }))
      (sym whole)
      (subst
        (λ (b : Bool).
          parse_exact (b'0' ∷ []) ≡ some (record { negative = b; digits = []; exponent = pos 0 }))
        (sym unsigned) zero_read)
number_read true (c ∷ cs) e h =
    plain_unsigned-Read true (c ∷ cs) h.all h.start h.end (omega arith) e
number_read false (c ∷ cs) e h =
    unsigned_first (plain_unsigned (c ∷ cs) e) _ (plain_unsigned-NoSign (c ∷ cs) e h.all)
      (plain_unsigned-Read false (c ∷ cs) h.all h.start h.end (omega arith) e)

pub parse_exact-plain : (x : Exact) → IsNormal x → parse_exact (plain x) ≡ some x
parse_exact-plain x h = number_read x.negative x.digits x.exponent h

-- The canonical text of a text of a number is read as the number that the text is read as, and is
-- its own canonical text.
pub normalize_numeric-parse_exact :
    (text : Bytes) (x : Exact)
    → parse_exact text ≡ some x
    → (normalize_numeric text ≡ some (plain x))
      × ((parse_exact (plain x) ≡ some x) × (normalize_numeric (plain x) ≡ some (plain x)))
unfolding normalize_numeric
normalize_numeric-parse_exact text x h =
    let back = parse_exact-plain x (parse_exact-IsNormal text x h) in
    (rw (normalize_numeric, h) refl, (back, rw (normalize_numeric, back) refl))

-- Two texts of numbers are read as one number exactly when their canonical texts are equal.
pub normalize_numeric_iff :
    (s t : Bytes) (x y : Exact)
    → parse_exact s ≡ some x
    → parse_exact t ≡ some y
    → (normalize_numeric s ≡ normalize_numeric t) ↔ (x ≡ y)
normalize_numeric_iff s t x y h k =
    let (left, (back, own)) = normalize_numeric-parse_exact s x h in
    let (right, (back', own')) = normalize_numeric-parse_exact t y k in
    (
      λ e.
          let texts : some (plain x) ≡ some (plain y) = sym left ∙ (e ∙ right) in
          let same : plain x ≡ plain y = cc in
          let read : some x ≡ some y = sym back ∙ (ap parse_exact same ∙ back') in cc,
      λ e. left ∙ (ap (λ z. some (plain z)) e ∙ sym right),
    )
