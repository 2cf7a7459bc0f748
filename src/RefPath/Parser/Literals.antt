-- ===== src/RefPath/Parser/Literals.antt =====
-- A literal that was written, and a filter around it, are read back (schema/path.rs).
use mathlib.Core.List.{append_assoc}
use reldir.Base.{
  ℕ, ◌+◌, ◌≡◌, refl, ap, ◌∙◌, true, false, arith, [], ◌∷◌, ◌++◌, length, none, some, ◌==◌, codes,
}
use reldir.Store.Corruption.{Bytes}
use reldir.Json.{Value, null, bool, number, string, array, object}
use reldir.RefPath.{where_step}
use reldir.RefPath.Parser.{
  Serde, all_of, in_name, in_number, is_ascii_digit, starts_name, strip, string_value, text_value,
  double_quotes, write_name, write_literal, literal, number_at, number_value, filter,
}
use reldir.RefPath.Parser.Chars.{
  Stops, NotEmpty, &&-both, passes-apart, span-append, string_literal-double_quotes,
}
use reldir.RefPath.Parser.Reads.{
  Reads, Reads-pure, Reads-bind, Reads-eq, eat-Reads, eat-Misses, IsSerde, IsLiteral,
  name-write_name,
}

string_value-double_quotes :
    (s t : Bytes)
    → Stops (λ c. c == b'\'') t
    → Reads string_value (double_quotes s ++ b'\'' ∷ t) t (string s)
unfolding string_value
string_value-double_quotes s t stop = record {
  ends = λ a. (string_literal-double_quotes s t a stop).0;
  at = λ a. ap text_value (string_literal-double_quotes s t a stop).1;
}

-- A text that begins with another byte is no word.
strip-apart : (x c : ℕ) (w t : Bytes) → x == c ≡ false → strip (x ∷ w) (c ∷ t) ≡ none
unfolding strip
strip-apart x c w t n = rw n refl

-- No byte of a number begins another literal.
abbrev Apart : ℕ → Type 0
Apart k = in_number k ≡ false

quote-Apart : Apart b'\''
unfolding in_number is_ascii_digit
quote-Apart = refl

t-Apart : Apart b't'
unfolding in_number is_ascii_digit
t-Apart = refl

f-Apart : Apart b'f'
unfolding in_number is_ascii_digit
f-Apart = refl

n-Apart : Apart b'n'
unfolding in_number is_ascii_digit
n-Apart = refl

bracket-Apart : Apart b']'
unfolding in_number is_ascii_digit
bracket-Apart = refl

==-comm : (a b : ℕ) → a == b ≡ false → b == a ≡ false
==-comm a b h = ground arith

no_word : (k c : ℕ) (w t : Bytes) → in_number c ≡ true → Apart k → strip (k ∷ w) (c ∷ t) ≡ none
no_word k c w t h n = strip-apart k c w t (==-comm c k (passes-apart in_number c k h n))

module _ (serde : Serde) (laws : IsSerde serde) where
  number_at_lem :
      (n t : Bytes)
      → serde.read_value n ≡ some (number n)
      → all_of in_number n ≡ true
      → NotEmpty n
      → Stops in_number t
      → Reads (number_at serde) (n ++ t) t (number n)
  unfolding number_at number_value
  number_at_lem [] t r all some_byte stop = absurd some_byte
  number_at_lem (c ∷ cs) t r all some_byte stop = record {
    ends = λ a. a + length (c ∷ cs);
    at = λ a.
        ap (λ s. number_value serde s.0 s.1 (record { rest = c ∷ cs ++ t; at = a }))
          (span-append in_number (c ∷ cs) t all stop)
        ∙ rw (number_value, r) refl;
  }

  -- None of the words, and so a number.
  number_literal :
      (n t : Bytes)
      → serde.read_value n ≡ some (number n)
      → all_of in_number n ≡ true
      → NotEmpty n
      → Stops in_number t
      → Reads (literal serde) (n ++ t) t (number n)
  unfolding literal all_of
  number_literal [] t r all some_byte stop = absurd some_byte
  number_literal (c ∷ cs) t r all some_byte stop =
      let here : in_number c ≡ true = (&&-both (in_number c) (all_of in_number cs) all).0 in
      let s : Bytes = c ∷ cs ++ t in
      Reads-bind _ _ s s t false _ (eat-Misses (codes "'") s (no_word b'\'' c _ _ here quote-Apart))
        (Reads-bind _ _ s s t false _
          (eat-Misses (codes "true") s (no_word b't' c _ _ here t-Apart))
          (Reads-bind _ _ s s t false _
            (eat-Misses (codes "false") s (no_word b'f' c _ _ here f-Apart))
            (Reads-bind _ _ s s t false _
              (eat-Misses (codes "null") s (no_word b'n' c _ _ here n-Apart))
              (number_at_lem (c ∷ cs) t r all some_byte stop))))

  -- A literal in front of the bracket that ends its filter.
  pub literal-write_literal :
      (v : Value) (t : Bytes)
      → IsLiteral serde v
      → Reads (literal serde) (write_literal serde v ++ b']' ∷ t) (b']' ∷ t) v
  unfolding literal write_literal strip
  literal-write_literal (string s) t h =
      Reads-bind _ _ _ (double_quotes s ++ b'\'' ∷ b']' ∷ t) _ true _
        (Reads-eq _ _ (codes "'" ++ double_quotes s ++ b'\'' ∷ b']' ∷ t) _ true
          (ap (◌∷◌ b'\'') (append_assoc (double_quotes s) (b'\'' ∷ []) (b']' ∷ t)))
          (eat-Reads (codes "'") _))
        (string_value-double_quotes s (b']' ∷ t) refl)
  literal-write_literal null t h =
      Reads-eq _ _ (codes "null" ++ b']' ∷ t) _ null (ap (λ s. s ++ b']' ∷ t) laws.null_text) (
        Reads-bind _ _ _ _ _ false _ (eat-Misses (codes "'") _ refl) (
          Reads-bind _ _ _ _ _ false _ (eat-Misses (codes "true") _ refl) (
            Reads-bind _ _ _ _ _ false _ (eat-Misses (codes "false") _ refl) (
              Reads-bind _ _ _ _ _ true _ (eat-Reads (codes "null") (b']' ∷ t))
                (Reads-pure null _)))))
  literal-write_literal (bool true) t h =
      Reads-eq _ _ (codes "true" ++ b']' ∷ t) _ _ (ap (λ s. s ++ b']' ∷ t) laws.true_text) (
        Reads-bind _ _ _ _ _ false _ (eat-Misses (codes "'") _ refl) (
          Reads-bind _ _ _ _ _ true _ (eat-Reads (codes "true") (b']' ∷ t))
            (Reads-pure (bool true) _)))
  literal-write_literal (bool false) t h =
      Reads-eq _ _ (codes "false" ++ b']' ∷ t) _ _ (ap (λ s. s ++ b']' ∷ t) laws.false_text) (
        Reads-bind _ _ _ _ _ false _ (eat-Misses (codes "'") _ refl) (
          Reads-bind _ _ _ _ _ false _ (eat-Misses (codes "true") _ refl) (
            Reads-bind _ _ _ _ _ true _ (eat-Reads (codes "false") (b']' ∷ t))
              (Reads-pure (bool false) _))))
  literal-write_literal (number n) t (lexeme, h) =
      let (text, (again, (all, some_byte))) = laws.number_text lexeme n h in
      Reads-eq _ _ (n ++ b']' ∷ t) _ _ (ap (λ s. s ++ b']' ∷ t) text)
        (number_literal n (b']' ∷ t) again all some_byte bracket-Apart)
  literal-write_literal (array items) t h = absurd h
  literal-write_literal (object members) t h = absurd h

  equals-Apart : in_name b'=' ≡ false
  unfolding in_name starts_name is_ascii_digit
  equals-Apart = refl

  -- What follows `[?` of a filter that was written.
  pub filter-written :
      (n : Bytes) (v : Value) (t : Bytes)
      → NotEmpty n
      → IsLiteral serde v
      → Reads
          (filter serde)
          (write_name serde n ++ (b'=' ∷ (write_literal serde v ++ b']' ∷ t)))
          t
          (where_step n v)
  unfolding filter
  filter-written n v t some_name h =
      Reads-bind _ _ _ _ _ n _
        (name-write_name serde laws n (b'=' ∷ (write_literal serde v ++ b']' ∷ t)) some_name
          equals-Apart)
        (Reads-bind _ _ _ _ _ true _ (eat-Reads (codes "=") (write_literal serde v ++ b']' ∷ t)) (
          Reads-bind _ _ _ _ _ v _ (literal-write_literal v t h)
            (Reads-bind _ _ _ _ _ true _ (eat-Reads (codes "]") t) (Reads-pure _ t))))
