-- ===== src/RefPath/Parser/Examples.antt =====
-- Texts of paths, with a small serializer: every byte of a quoted text stands behind a backslash.
use reldir.Base.{
  ℕ, ◌≤◌, ◌≡◌, ◌≢◌, refl, ap, subst, true, false, List, [], ◌∷◌, length, Option, none, some, inl,
  inr, Bool-cases, if◌then◌else◌, codes,
}
use reldir.Store.Corruption.{Bytes}
use reldir.Json.{Value, null, bool, number, string, array, object}
use reldir.Files.{ok, err, ◌>>=◌}
use reldir.RefPath.{Step, member_step, each_step, where_step, from_steps, column}
use reldir.RefPath.Parser.{
  PathError, out_of_rounds, bad_array_step, Serde, all_of, in_name, in_number, starts_name,
  is_ascii_digit, is_identifier, double_quotes, span, strip, eat, peek, fail, identifier,
  write_name, write_literal, write_step, write_steps, display, name_at, name, number_value,
  number_at, literal, filter, suffixes, segments, path, parse,
}
use reldir.RefPath.Parser.Chars.{NotEmpty, Quoted, closing, escape}
use reldir.RefPath.Parser.Reads.{IsSerde}
use reldir.RefPath.Parser.RoundTrip.{parse-display}
use reldir.RefPath.Parser.Faults.{parse-column, parse-fault}

abbrev toy_body : Bytes → Bytes
toy_body [] = b'"' ∷ []
toy_body (c ∷ cs) = b'\\' ∷ c ∷ toy_body cs

abbrev toy_push : ℕ → Option Bytes → Option Bytes
toy_push c none = none
toy_push c (some cs) = some (c ∷ cs)

abbrev toy_unquote : Bytes → Option Bytes
toy_unquote [] = none
toy_unquote (x ∷ []) = some []
toy_unquote (x ∷ c ∷ cs) = toy_push c (toy_unquote cs)

abbrev toy_read : Bytes → Option Bytes
toy_read [] = none
toy_read (x ∷ cs) = toy_unquote cs

abbrev toy_print : Value → Bytes
toy_print null = codes "null"
toy_print (bool true) = codes "true"
toy_print (bool false) = codes "false"
toy_print (number n) = n
toy_print (string s) = []
toy_print (array items) = []
toy_print (object members) = []

abbrev toy_value : Bytes → Option Value
toy_value [] = none
toy_value (c ∷ cs) = if all_of in_number (c ∷ cs) then some (number (c ∷ cs)) else none

abbrev toy : Serde
toy = record {
  print_string = λ s. b'"' ∷ toy_body s;
  read_string = toy_read;
  print_value = toy_print;
  read_value = toy_value;
}

toy_body-Quoted : (s : Bytes) → Quoted (toy_body s)
toy_body-Quoted [] = closing
toy_body-Quoted (c ∷ cs) = escape c (toy_body cs) (toy_body-Quoted cs)

unquote-body : (s : Bytes) → toy_unquote (toy_body s) ≡ some s
unquote-body [] = refl
unquote-body (c ∷ cs) = ap (toy_push c) (unquote-body cs)

abbrev IsNumber : Bytes → Type 0
IsNumber n =
    (toy_print (number n) ≡ n)
    × ((toy_value n ≡ some (number n)) × ((all_of in_number n ≡ true) × NotEmpty n))

toy_number : (t n : Bytes) → toy_value t ≡ some (number n) → IsNumber n
toy_number [] n h = absurd (cc)
toy_number (c ∷ cs) n h = elim (Bool-cases (all_of in_number (c ∷ cs))) [
  | inl y ↦
      let found : some (number (c ∷ cs)) ≡ some (number n) = rw y at h in
      let same : c ∷ cs ≡ n = cc in subst IsNumber same (refl, (rw y refl, (y, tt)))
  | inr m ↦ let lost : ◌≡◌ {A = Option Value} none (some (number n)) = rw m at h in absurd (cc)
]

toy-IsSerde : IsSerde toy
toy-IsSerde = record {
  string_text = λ s. (toy_body s, (refl, toy_body-Quoted s));
  string_read = unquote-body;
  null_text = refl;
  true_text = refl;
  false_text = refl;
  number_text = toy_number;
}

abbrev requires : List Step
requires =
    member_step (codes "relations")
    ∷ where_step (codes "a kind") (string (codes "it's"))
    ∷ member_step (codes "to")
    ∷ each_step
    ∷ []

requires_text : display toy requires ≡ codes "relations[?\"\\a\\ \\k\\i\\n\\d\"='it''s'].to[]"
unfolding write_steps write_step write_name write_literal double_quotes is_identifier all_of in_name
    starts_name is_ascii_digit
requires_text = refl

parse-display_example : parse toy (display toy requires) ≡ ok requires
parse-display_example = parse-display toy toy-IsSerde requires (tt, ((tt, tt), (tt, (tt, tt))))

abbrev tags : List Step
tags = member_step (codes "a") ∷ each_step ∷ where_step (codes "b") (number (codes "2")) ∷ []

tags_read : parse toy (codes "a[][?b=2]") ≡ ok tags
unfolding parse path name name_at identifier span in_name starts_name is_ascii_digit peek suffixes
    segments eat strip ◌>>=◌ filter literal number_at number_value in_number all_of
tags_read = refl

parse-column_example : (from_steps tags ≡ some tags) × ((c : Bytes) × (column tags ≡ some c))
parse-column_example = parse-column toy (codes "a[][?b=2]") tags tags_read

abbrev bad_bracket : PathError
bad_bracket = record { offset = 1; message = bad_array_step }

bad_bracket_read : parse toy (codes "a[x") ≡ err bad_bracket
unfolding parse path name name_at identifier span in_name starts_name is_ascii_digit peek suffixes
    segments eat strip ◌>>=◌ fail
bad_bracket_read = refl

parse-fault_example :
    (bad_bracket.offset ≤ length (codes "a[x")) × (bad_bracket.message ≢ out_of_rounds)
parse-fault_example = parse-fault toy (codes "a[x") bad_bracket bad_bracket_read
