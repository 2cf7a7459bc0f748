-- ===== src/RefPath/Parser/Reads.antt =====
-- What a part of the path parser makes of a text that begins with what was written
-- (schema/path.rs).
use reldir.Base.{
  ℕ, ◌+◌, ◌≡◌, refl, sym, ap, ◌∙◌, subst, true, false, [], ◌∷◌, ◌++◌, length, none, some, inl, inr,
  Bool-cases, codes,
}
use reldir.Store.Corruption.{Bytes}
use reldir.Json.{Value, null, bool, number, string, array, object}
use reldir.Files.{ok, pure, continue, ◌>>=◌}
use reldir.RefPath.Parser.{
  Parse, Serde, all_of, in_name, starts_name, in_number, is_identifier, strip, eat, past, peek,
  identifier, name, name_at, quoted, quoted_name, write_name,
}
use reldir.RefPath.Parser.Chars.{
  Stops, NotEmpty, Quoted, &&-both, passes-apart, span-append, strip-append, quoted_end-append,
}

-- From the text `s`, wherever it stands, `m` gives `x` and leaves `t`.
pub record Reads {A : Type 0} (m : Parse A) (s t : Bytes) (x : A) : Type 0 where
  pub ends : ℕ → ℕ
  pub at : (a : ℕ) → m (record { rest = s; at = a }) ≡ (ok x, record { rest = t; at = ends a })

pub Reads-pure : {A : Type 0} (x : A) (s : Bytes) → Reads (pure x) s s x
Reads-pure x s = record { ends = λ a. a; at = λ a. refl }

pub Reads-bind :
    {A B : Type 0} (m : Parse A) (f : A → Parse B) (s t u : Bytes) (x : A) (y : B)
    → Reads m s t x
    → Reads (f x) t u y
    → Reads (m >>= f) s u y
unfolding ◌>>=◌
Reads-bind m f s t u x y h k = record {
  ends = λ a. k.ends (h.ends a);
  at = λ a. ap (λ r. continue r.0 f r.1) (h.at a) ∙ k.at (h.ends a);
}

pub Reads-eq :
    {A : Type 0} (m : Parse A) (s s' t : Bytes) (x : A) → s ≡ s' → Reads m s' t x → Reads m s t x
Reads-eq m s s' t x e h = subst (λ r. Reads m r t x) (sym e) h

pub eat-Reads : (l t : Bytes) → Reads (eat l) (l ++ t) t true
unfolding eat
eat-Reads l t = record { ends = λ a. a + length l; at = λ a. rw (eat, strip-append l t) refl }

pub eat-Misses : (l s : Bytes) → strip l s ≡ none → Reads (eat l) s s false
unfolding eat
eat-Misses l s h = record { ends = λ a. a; at = λ a. rw (eat, h) refl }

pub peek-Reads : (c : ℕ) (cs : Bytes) → Reads peek (c ∷ cs) (c ∷ cs) (some c)
unfolding peek
peek-Reads c cs = record { ends = λ a. a; at = λ a. refl }

pub peek-end : Reads peek [] [] none
unfolding peek
peek-end = record { ends = λ a. a; at = λ a. refl }

-- `serde_json` prints a text as one JSON string and reads it back. It prints the constants as they
-- are, and a number it has read by its lexeme, which it reads as that number again.
pub record IsSerde (serde : Serde) : Type 0 where
  pub string_text :
      (s : Bytes) → (body : Bytes) × ((serde.print_string s ≡ b'"' ∷ body) × Quoted body)
  pub string_read : (s : Bytes) → serde.read_string (serde.print_string s) ≡ some s
  pub null_text : serde.print_value null ≡ codes "null"
  pub true_text : serde.print_value (bool true) ≡ codes "true"
  pub false_text : serde.print_value (bool false) ≡ codes "false"
  pub number_text :
      (t n : Bytes)
      → serde.read_value t ≡ some (number n)
      → (serde.print_value (number n) ≡ n)
        × ((serde.read_value n ≡ some (number n)) × ((all_of in_number n ≡ true) × NotEmpty n))

-- A value a filter can compare with; a number is one that was read.
abbrev pub IsLiteral : Serde → Value → Type 0
IsLiteral serde null = Unit {0}
IsLiteral serde (bool b) = Unit {0}
IsLiteral serde (number n) = (t : Bytes) × (serde.read_value t ≡ some (number n))
IsLiteral serde (string s) = Unit {0}
IsLiteral serde (array items) = ⊥
IsLiteral serde (object members) = ⊥

pub in_name-starts : (c : ℕ) → starts_name c ≡ true → in_name c ≡ true
unfolding in_name
in_name-starts c h = rw h refl

quote_starts_no_name : starts_name b'"' ≡ false
unfolding starts_name
quote_starts_no_name = refl

module _ (serde : Serde) (laws : IsSerde serde) where
  identifier_lem :
      (c : ℕ) (cs t : Bytes)
      → is_identifier (c ∷ cs) ≡ true
      → Stops in_name t
      → Reads (name serde) (c ∷ cs ++ t) t (c ∷ cs)
  unfolding is_identifier name name_at identifier all_of
  identifier_lem c cs t h stop =
      let (first, others) = &&-both (starts_name c) (all_of in_name cs) h in
      let all : all_of in_name (c ∷ cs) ≡ true = rw (in_name-starts c first) others in
      record {
        ends = λ a. a + length (c ∷ cs);
        at = λ a.
            rw (passes-apart starts_name c b'"' first quote_starts_no_name, first)
              (ap (λ r. (ok r.0, past (record { rest = c ∷ cs ++ t; at = a }) r.0 r.1))
                (span-append in_name (c ∷ cs) t all stop));
      }

  quoted_lem : (n t : Bytes) → NotEmpty n → Reads (name serde) (serde.print_string n ++ t) t n
  unfolding name name_at quoted quoted_name
  quoted_lem [] t some_name = absurd some_name
  quoted_lem (c ∷ cs) t some_name =
      let (body, (text, q)) = laws.string_text (c ∷ cs) in
      let back : serde.read_string (b'"' ∷ body) ≡ some (c ∷ cs) =
        ap serde.read_string (sym text) ∙ laws.string_read (c ∷ cs) in
      Reads-eq (name serde) _ (b'"' ∷ body ++ t) t (c ∷ cs) (ap (λ s. s ++ t) text) (record {
        ends = λ a. a + length (b'"' ∷ body);
        at = λ a. rw (quoted, quoted_end-append body t q, quoted_name, back) refl;
      })

  -- A name that is not empty is read back, with quotes or without.
  pub name-write_name :
      (n t : Bytes)
      → NotEmpty n
      → Stops in_name t
      → Reads (name serde) (write_name serde n ++ t) t n
  unfolding write_name
  name-write_name [] t some_name stop = absurd some_name
  name-write_name (c ∷ cs) t some_name stop = elim (Bool-cases (is_identifier (c ∷ cs))) [
    | inl y ↦ rw y (identifier_lem c cs t y stop)
    | inr n ↦ rw n (quoted_lem (c ∷ cs) t some_name)
  ]
