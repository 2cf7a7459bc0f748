-- ===== src/Exact/Examples.antt =====
-- One and a half, in two spellings.
use reldir.Base.{◌≡◌, ◌↔◌, refl, true, some, codes}
use reldir.RefPath.Parser.{is_ascii_digit, all_of}
use reldir.Exact.{
  negsuc, negated, difference, ◌+ℤ◌, Exact, trim_start, trim_end, split_first, number_of, power_of,
  signed_power, power, split_power, split_point, normal, of_parts, parse_unsigned, parse_exact,
  plain_unsigned, plain, normalize_numeric,
}
use reldir.Exact.Normal.{IsNormal, parse_exact-IsNormal}
use reldir.Exact.RoundTrip.{normalize_numeric-parse_exact, normalize_numeric_iff}

abbrev one_and_a_half : Exact
one_and_a_half = record { negative = true; digits = codes "15"; exponent = negsuc 0 }

point_read : parse_exact (codes "-01.50") ≡ some one_and_a_half
unfolding parse_exact parse_unsigned split_power split_point split_first of_parts all_of normal
    is_ascii_digit trim_start trim_end negated ◌+ℤ◌ difference
point_read = refl

power_read : parse_exact (codes "-150e-2") ≡ some one_and_a_half
unfolding parse_exact parse_unsigned split_power split_point split_first of_parts all_of normal
    is_ascii_digit trim_start trim_end negated ◌+ℤ◌ difference power signed_power power_of number_of
power_read = refl

-- Two signs of an exponent, which JSON does not allow.
two_signs : parse_exact (codes "15e+-1") ≡ parse_exact (codes "1.5")
unfolding parse_exact parse_unsigned split_power split_point split_first of_parts all_of normal
    is_ascii_digit trim_start trim_end negated ◌+ℤ◌ difference power signed_power power_of number_of
two_signs = refl

shortest : plain one_and_a_half ≡ codes "-1.5"
unfolding plain plain_unsigned
shortest = refl

parse_exact-IsNormal_example : IsNormal one_and_a_half
parse_exact-IsNormal_example = parse_exact-IsNormal (codes "-01.50") one_and_a_half point_read

normalize_numeric-parse_exact_example :
    (normalize_numeric (codes "-01.50") ≡ some (plain one_and_a_half))
    × ((parse_exact (plain one_and_a_half) ≡ some one_and_a_half)
        × (normalize_numeric (plain one_and_a_half) ≡ some (plain one_and_a_half)))
normalize_numeric-parse_exact_example =
    normalize_numeric-parse_exact (codes "-01.50") one_and_a_half point_read

normalize_numeric_iff_example :
    (normalize_numeric (codes "-01.50") ≡ normalize_numeric (codes "-150e-2"))
    ↔ (one_and_a_half ≡ one_and_a_half)
normalize_numeric_iff_example =
    normalize_numeric_iff (codes "-01.50") (codes "-150e-2") one_and_a_half one_and_a_half
      point_read power_read
