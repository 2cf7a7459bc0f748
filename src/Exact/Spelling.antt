-- ===== src/Exact/Spelling.antt =====
-- The spellings that `Exact::plain` chooses among are read as the number (value.rs).
use reldir.Base.{
  ℕ, zero, suc, ◌+◌, ◌-◌, ◌<◌, ◌≤◌, ◌≡◌, refl, ap, ◌∙◌, arith, leb, ltb, ltb→lt, Bool, false, [],
  ◌∷◌, ◌++◌, length, length-append, take, drop, replicate, length-drop, length-take,
  length-replicate, take-append-drop, some, inl, inr, Bool-cases,
}
use reldir.Store.Corruption.{Bytes}
use reldir.RefPath.Parser.{is_ascii_digit, all_of}
use reldir.RefPath.Parser.Chars.{&&-both}
use reldir.Exact.{
  ℤ, pos, negsuc, negated, difference, ◌+ℤ◌, trim_start, trim_end, is_empty, parse_unsigned,
  plain_unsigned,
}
use reldir.Exact.Normal.{AllDigits, NoLeadingZero, append-AllDigits}
use reldir.Exact.Digits.{
  whole_read, fraction_read, trim_end-zeros, trim_start-NoLeadingZero_id, trim_start-zeros,
  zeros-AllDigits, normal-trimmed,
}

-- The exponents of the spellings: of whole digits, and of a fraction.
whole_exponent : (n d m : ℕ) → m ≡ d + n → pos 0 +ℤ negated 0 +ℤ pos (m - d) ≡ pos n
unfolding ◌+ℤ◌ negated
whole_exponent n d m h = ap pos (omega arith)

difference_zero : (m : ℕ) → difference 0 (suc m) ≡ negsuc m
unfolding difference
difference_zero m =
    let below : leb (suc m) 0 ≡ false = ground arith in
    rw (difference, below) (ap negsuc (omega arith))

fraction_exponent : (n m d : ℕ) → m ≡ suc n → pos 0 +ℤ negated m +ℤ pos (d - d) ≡ negsuc n
unfolding ◌+ℤ◌ negated
fraction_exponent n zero d h = absurd (omega arith)
fraction_exponent n (suc m) d h =
    let none_left : d - d ≡ 0 = omega arith in
    ap (λ z. z +ℤ pos (d - d)) (difference_zero m)
    ∙ (ap (λ k. difference k (suc m)) none_left ∙ (difference_zero m ∙ ap negsuc (omega arith)))

not_empty : (s : Bytes) → 0 < length s → is_empty s ≡ false
not_empty [] h = absurd (omega arith)
not_empty (c ∷ cs) h = refl

pub all_of-take : (n : ℕ) (s : Bytes) → AllDigits s → AllDigits (take n s)
unfolding all_of
all_of-take zero s h = refl
all_of-take (suc n) [] h = refl
all_of-take (suc n) (c ∷ cs) h =
    let (here, more) = &&-both (is_ascii_digit c) (all_of is_ascii_digit cs) h in
    rw here (all_of-take n cs more)

all_of-drop : (n : ℕ) (s : Bytes) → AllDigits s → AllDigits (drop n s)
unfolding all_of
all_of-drop zero s h = h
all_of-drop (suc n) [] h = refl
all_of-drop (suc n) (c ∷ cs) h =
    all_of-drop n cs (&&-both (is_ascii_digit c) (all_of is_ascii_digit cs) h).1

append-nil : (s : Bytes) → s ++ [] ≡ s
append-nil [] = refl
append-nil (c ∷ cs) = ap (◌∷◌ c) (append-nil cs)

module _ (negative : Bool) (digits : Bytes) (all : AllDigits digits) (start : NoLeadingZero digits)
    (end : trim_end digits ≡ digits) (some_digit : 0 < length digits) where
  abbrev pub Read : Bytes → ℤ → Type 0
  Read s e =
      parse_unsigned negative s
      ≡ some (record { negative = negative; digits = digits; exponent = e })

  -- Zeros behind the digits.
  zeros_behind : (n : ℕ) → Read (digits ++ replicate n b'0') (pos n)
  zeros_behind n =
      let s : Bytes = digits ++ replicate n b'0' in
      let size : length s ≡ length digits + n =
        length-append digits (replicate n b'0')
        ∙ ap (λ k. length digits + k) (length-replicate n b'0') in
      let trimmed : trim_start (s ++ []) ≡ s =
        ap trim_start (append-nil s)
        ∙ trim_start-NoLeadingZero_id s (front digits start some_digit n) in
      whole_read negative s (not_empty s (omega arith))
        (append-AllDigits digits (replicate n b'0') all (zeros-AllDigits n))
      ∙ ap some (
          normal-trimmed negative (s ++ []) s digits (pos 0 +ℤ negated 0) (pos n) trimmed
            (trim_end-zeros digits n ∙ end) (not_empty digits some_digit)
            (whole_exponent n (length digits) (length s) size))
    where
      front :
          (s : Bytes)
          → NoLeadingZero s
          → 0 < length s
          → (n : ℕ) → NoLeadingZero (s ++ replicate n b'0')
      front [] h l n = absurd (omega arith)
      front (c ∷ cs) h l n = h

  -- The point among the digits.
  point_within :
      (n : ℕ)
      → suc n < length digits
      → Read
          (take (length digits - suc n) digits ++ b'.' ∷ drop (length digits - suc n) digits)
          (negsuc n)
  point_within n l =
      let at : ℕ = length digits - suc n in
      let front : length (take at digits) ≡ at = length-take at digits ∙ omega arith in
      let back : length (drop at digits) ≡ suc n = length-drop at digits ∙ omega arith in
      fraction_read negative (take at digits) (drop at digits)
        (not_empty (take at digits) (omega arith)) (all_of-take at digits all)
        (not_empty (drop at digits) (omega arith)) (all_of-drop at digits all)
      ∙ ap some (
          normal-trimmed negative (take at digits ++ drop at digits) digits digits _ (negsuc n)
            (ap trim_start (take-append-drop at digits) ∙ trim_start-NoLeadingZero_id digits start)
            end (not_empty digits some_digit)
            (fraction_exponent n (length (drop at digits)) (length digits) back))

  -- The point in front of the digits.
  point_before :
      (n : ℕ)
      → length digits ≤ suc n
      → Read (b'0' ∷ b'.' ∷ replicate (suc n - length digits) b'0' ++ digits) (negsuc n)
  point_before n l =
      let gap : ℕ = suc n - length digits in
      let zeros : Bytes = replicate gap b'0' in
      let size : length (zeros ++ digits) ≡ suc n =
        length-append zeros digits
        ∙ (ap (λ k. k + length digits) (length-replicate gap b'0') ∙ omega arith) in
      fraction_read negative (b'0' ∷ []) (zeros ++ digits) refl (zeros-AllDigits 1)
        (not_empty (zeros ++ digits) (omega arith))
        (append-AllDigits zeros digits (zeros-AllDigits gap) all)
      ∙ ap some (
          normal-trimmed negative (replicate (suc gap) b'0' ++ digits) digits digits _ (negsuc n)
            (trim_start-zeros (suc gap) digits ∙ trim_start-NoLeadingZero_id digits start) end
            (not_empty digits some_digit)
            (fraction_exponent n (length (zeros ++ digits)) (length digits) size))

  pub plain_unsigned-Read : (e : ℤ) → Read (plain_unsigned digits e) e
  unfolding plain_unsigned
  plain_unsigned-Read (pos n) = zeros_behind n
  plain_unsigned-Read (negsuc n) = elim (Bool-cases (ltb (suc n) (length digits))) [
    | inl y ↦ rw y (point_within n (ltb→lt (suc n) (length digits) y))
    | inr m ↦ rw m (point_before n (ground arith))
  ]
