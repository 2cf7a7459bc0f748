-- ===== src/RefPath/Parser/Chars.antt =====
-- What the loops of the path parser take off a text that was written (schema/path.rs).
use reldir.Base.{
  ℕ, suc, ◌≡◌, refl, sym, ap, ◌∙◌, subst, ==_iff, Bool, true, false, ◌&&◌, [], ◌∷◌, ◌++◌, some,
  ◌==◌, inl, inr, Bool-cases,
}
use reldir.Store.Corruption.{Bytes}
use reldir.Files.{ok}
use reldir.RefPath.Parser.{
  all_of, span, push_front, quoted_end, push_some, strip, double_quotes, string_literal, push_text,
}

-- A text that `test` does not go on into.
abbrev pub Stops : (ℕ → Bool) → Bytes → Type 0
Stops test [] = Unit {0}
Stops test (c ∷ cs) = test c ≡ false

same_char : (c : ℕ) → c == c ≡ true
same_char c = (==_iff c c).1 refl

pub &&-both : (a b : Bool) → a && b ≡ true → (a ≡ true) × (b ≡ true)
&&-both true b h = (refl, h)
&&-both false b h = absurd (cc)

-- A character that passes is not one that does not.
pub passes-apart : (test : ℕ → Bool) (c k : ℕ) → test c ≡ true → test k ≡ false → c == k ≡ false
passes-apart test c k h n = elim (Bool-cases (c == k)) [
  | inl y ↦
      let passes : test k ≡ true = sym (ap test ((==_iff c k).0 y)) ∙ h in
      let clash : true ≡ false = sym passes ∙ n in absurd (cc)
  | inr m ↦ m
]

pub span-append :
    (test : ℕ → Bool) (w t : Bytes)
    → all_of test w ≡ true
    → Stops test t
    → span test (w ++ t) ≡ (w, t)
unfolding span all_of
span-append test [] [] h stop = refl
span-append test [] (c ∷ cs) h stop = rw stop refl
span-append test (c ∷ cs) t h stop =
    let (here, more) = &&-both (test c) (all_of test cs) h in
    rw here (ap (push_front c) (span-append test cs t more stop))

pub strip-append : (l t : Bytes) → strip l (l ++ t) ≡ some t
unfolding strip
strip-append [] t = refl
strip-append (x ∷ xs) t = rw (same_char x) (strip-append xs t)

-- What follows the first quote of a JSON string, up to the quote that ends it.
pub data Quoted : Bytes → Type 0 where
  closing : Quoted (b'"' ∷ [])
  escape : (c : ℕ) (cs : Bytes) → Quoted cs → Quoted (b'\\' ∷ c ∷ cs)
  plain :
      (c : ℕ) (cs : Bytes) → c == b'\\' ≡ false → c == b'"' ≡ false → Quoted cs → Quoted (c ∷ cs)

pub quoted_end-append : (w t : Bytes) → Quoted w → quoted_end false (w ++ t) ≡ some (w, t)
unfolding quoted_end
quoted_end-append w t closing = refl
quoted_end-append w t (escape c cs q) =
    ap (λ r. push_some b'\\' (push_some c r)) (quoted_end-append cs t q)
quoted_end-append w t (plain c cs n m q) = rw (n, m) (ap (push_some c) (quoted_end-append cs t q))

-- A byte of a string literal that is not a quote, where the text goes on.
abbrev pub NotEmpty : Bytes → Type 0
NotEmpty [] = ⊥
NotEmpty (c ∷ cs) = Unit {0}

plain_byte :
    (c : ℕ) (cs : Bytes) (at : ℕ)
    → c == b'\'' ≡ false
    → NotEmpty cs
    → string_literal (c ∷ cs) at ≡ push_text c (string_literal cs (suc at))
unfolding string_literal
plain_byte c [] at n e = absurd e
plain_byte c (d ∷ cs) at n e = rw n refl

goes_on : (s t : Bytes) (c : ℕ) → NotEmpty (s ++ c ∷ t)
goes_on [] t c = tt
goes_on (x ∷ s) t c = tt

closing_quote :
    (t : Bytes) (at : ℕ)
    → Stops (λ c. c == b'\'') t
    → string_literal (b'\'' ∷ t) at ≡ (ok [], record { rest = t; at = suc at })
unfolding string_literal
closing_quote [] at stop = refl
closing_quote (d ∷ cs) at stop = rw stop refl

quote_pair :
    (cs : Bytes) (at : ℕ)
    → string_literal (b'\'' ∷ b'\'' ∷ cs) at ≡ push_text b'\'' (string_literal cs (suc (suc at)))
unfolding string_literal
quote_pair cs at = refl

-- A text whose quotes were doubled, and the quote that ends it, are read as the text.
pub string_literal-double_quotes :
    (s t : Bytes) (at : ℕ)
    → Stops (λ c. c == b'\'') t
    → (end : ℕ) × (string_literal (double_quotes s ++ b'\'' ∷ t) at
        ≡ (ok s, record { rest = t; at = end }))
unfolding double_quotes
string_literal-double_quotes [] t at stop = (suc at, closing_quote t at stop)
string_literal-double_quotes (c ∷ s) t at stop = elim (Bool-cases (c == b'\'')) [
  | inl y ↦
      let (end, h) = string_literal-double_quotes s t (suc (suc at)) stop in
      (
        end,
        rw y (
            subst
              (λ k.
                string_literal (k ∷ k ∷ double_quotes s ++ b'\'' ∷ t) at
                ≡ (ok (k ∷ s), record { rest = t; at = end }))
              (sym ((==_iff c b'\'').0 y))
              (quote_pair (double_quotes s ++ b'\'' ∷ t) at ∙ ap (push_text b'\'') h)),
      )
  | inr n ↦
      let (end, h) = string_literal-double_quotes s t (suc at) stop in
      (
        end,
        rw n (
            plain_byte c (double_quotes s ++ b'\'' ∷ t) at n (goes_on (double_quotes s) t b'\'')
            ∙ ap (push_text c) h),
      )
]
