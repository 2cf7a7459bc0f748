-- ===== src/RefPath/Parser/Accepts.antt =====
-- What the parts of the path parser for names and literals accept, and where they find fault with a
-- text (schema/path.rs).
use reldir.Base.{
  ℕ, zero, suc, ◌+◌, ◌≡◌, refl, arith, Bool, true, false, [], ◌∷◌, length, Option, none, some, ◌==◌,
  inl, inr, Bool-cases, codes,
}
use reldir.Store.Corruption.{Bytes}
use reldir.Json.{Value, null, bool, number, string, array, object}
use reldir.Files.{Result, ok, err}
use reldir.RefPath.Parser.{
  PathError, invalid_quoted, empty_name, unterminated_name, invalid_number, Parser, Serde, in_name,
  starts_name, in_number, span, quoted_end, past, fail, string_literal, text_value, string_value,
  identifier, name, name_at, quoted, quoted_name, number_value, number_at, literal,
}
use reldir.RefPath.Parser.Chars.{NotEmpty}
use reldir.RefPath.Parser.Reads.{IsLiteral, in_name-starts}
use reldir.RefPath.Parser.Sound.{
  After, Sound, Sound-zero, Sound-pure, Any, Parts, quoted_end-Parts, span-Parts, past-After,
  eat-Sound, string_literal-After,
}

span-NotEmpty :
    (test : ℕ → Bool) (c : ℕ) (cs : Bytes) → test c ≡ true → NotEmpty (span test (c ∷ cs)).0
unfolding span
span-NotEmpty test c cs h = rw h tt

string_value-Sound : (serde : Serde) (bound : ℕ) → Sound bound (IsLiteral serde) string_value
unfolding string_value
string_value-Sound serde bound = record {
  at = λ p r. as_value p (string_literal p.rest p.at) (string_literal-After p.rest p.at);
}
  where
    as_value :
        (p : Parser) (r : Result PathError Bytes × Parser)
        → After Any p r
        → After (IsLiteral serde) p (text_value r)
    as_value p (ok s, q) h = h
    as_value p (err e, q) h = h

module _ (serde : Serde) where
  quoted_name-After :
      (taken left : Bytes) (p : Parser)
      → suc (length taken) + length left ≡ length p.rest
      → After NotEmpty p (quoted_name serde taken left p)
  unfolding quoted_name fail
  quoted_name-After taken left p h = judged (serde.read_string (b'"' ∷ taken))
    where
      judge : Option Bytes → Result PathError Bytes × Parser
      judge o = elim o [
        | none ↦ fail invalid_quoted p
        | some [] ↦ fail empty_name p
        | some (c ∷ cs) ↦ (ok (c ∷ cs), past p (b'"' ∷ taken) left)
      ]

      judged : (o : Option Bytes) → After NotEmpty p (judge o)
      judged none = (omega arith, refl)
      judged (some []) = (omega arith, refl)
      judged (some (c ∷ cs)) = past-After NotEmpty p (b'"' ∷ taken) left (c ∷ cs) h tt

  quoted-After :
      (body : Bytes) (p : Parser)
      → suc (length body) ≡ length p.rest
      → After NotEmpty p (quoted serde body p)
  unfolding quoted fail
  quoted-After body p h = ended (quoted_end false body) (quoted_end-Parts false body)
    where
      end : Option (Bytes × Bytes) → Result PathError Bytes × Parser
      end o = elim o [
        | none ↦ fail unterminated_name p
        | some (taken, left) ↦ quoted_name serde taken left p
      ]

      ended : (o : Option (Bytes × Bytes)) → Parts body o → After NotEmpty p (end o)
      ended none parts = (omega arith, refl)
      ended (some (taken, left)) parts = quoted_name-After taken left p (omega arith)

  name_at-After :
      (s : Bytes) (at : ℕ)
      → After NotEmpty
          (record { rest = s; at = at })
          (name_at serde s (record { rest = s; at = at }))
  unfolding name_at identifier fail
  name_at-After [] at = (omega arith, refl)
  name_at-After (c ∷ cs) at = elim (Bool-cases (c == b'"')) [
    | inl y ↦ rw y (quoted-After cs (record { rest = c ∷ cs; at = at }) refl)
    | inr n ↦ elim (Bool-cases (starts_name c)) [
      | inl y ↦
          rw (n, y)
            (past-After NotEmpty (record { rest = c ∷ cs; at = at }) (span in_name (c ∷ cs)).0
              (span in_name (c ∷ cs)).1 _ (span-Parts in_name (c ∷ cs))
              (span-NotEmpty in_name c cs (in_name-starts c y)))
      | inr m ↦ rw (n, m) (omega arith, refl)
    ]
  ]

  pub name-Sound : (bound : ℕ) → Sound bound NotEmpty (name serde)
  unfolding name
  name-Sound bound = record { at = λ p r. name_at-After p.rest p.at }

  number_value-After :
      (taken left : Bytes) (p : Parser)
      → length taken + length left ≡ length p.rest
      → After (IsLiteral serde) p (number_value serde taken left p)
  unfolding number_value fail
  number_value-After [] left p h = (omega arith, refl)
  number_value-After (c ∷ cs) left p h = judged (serde.read_value (c ∷ cs)) refl
    where
      judge : Option Value → Result PathError Value × Parser
      judge o = elim o [
        | some (number text) ↦ (ok (number text), past p (c ∷ cs) left)
        | some null ↦ fail invalid_number p
        | some (bool b) ↦ fail invalid_number p
        | some (string text) ↦ fail invalid_number p
        | some (array items) ↦ fail invalid_number p
        | some (object members) ↦ fail invalid_number p
        | none ↦ fail invalid_number p
      ]

      judged :
          (o : Option Value) → serde.read_value (c ∷ cs) ≡ o → After (IsLiteral serde) p (judge o)
      judged none e = (omega arith, refl)
      judged (some null) e = (omega arith, refl)
      judged (some (bool b)) e = (omega arith, refl)
      judged (some (number n)) e =
          past-After (IsLiteral serde) p (c ∷ cs) left (number n) h (c ∷ cs, e)
      judged (some (string s)) e = (omega arith, refl)
      judged (some (array items)) e = (omega arith, refl)
      judged (some (object members)) e = (omega arith, refl)

  number_at-Sound : (bound : ℕ) → Sound bound (IsLiteral serde) (number_at serde)
  unfolding number_at
  number_at-Sound bound = record {
    at = λ p r.
        number_value-After (span in_number p.rest).0 (span in_number p.rest).1 p
          (span-Parts in_number p.rest);
  }

  pub literal-Sound : (bound : ℕ) → Sound bound (IsLiteral serde) (literal serde)
  unfolding literal
  literal-Sound zero = Sound-zero _ _
  literal-Sound (suc bound) = eat-Sound bound _ b'\'' [] _ (string_value-Sound serde bound) (
      eat-Sound bound _ b't' (codes "rue") _ (Sound-pure bound _ _ tt) (
        eat-Sound bound _ b'f' (codes "alse") _ (Sound-pure bound _ _ tt) (
          eat-Sound bound _ b'n' (codes "ull") _ (Sound-pure bound _ _ tt)
            (number_at-Sound (suc bound)))))
