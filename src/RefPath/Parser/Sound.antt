-- ===== src/RefPath/Parser/Sound.antt =====
-- What holds of every part of the path parser, whatever the text (schema/path.rs): where it stands,
-- and what it gives. The parts that take single bytes.
use reldir.Base.{
  ℕ, suc, ◌+◌, ◌<◌, ◌≤◌, ◌≡◌, refl, ◌∙◌, arith, Bool, true, false, [], ◌∷◌, length, Option, none,
  some, ◌==◌, inl, inr, Bool-cases, if◌then◌else◌,
}
use reldir.Store.Corruption.{Bytes}
use reldir.Files.{Result, ok, err, pure, continue, ◌>>=◌}
use reldir.RefPath.Parser.{
  PathError, Message, out_of_rounds, Parser, Parse, span, quoted_end, push_some, strip, eat, past,
  peek, fail, string_literal, push_text,
}

-- An error of the code: the rounds of the model did not run out.
abbrev pub is_fault : Message → Bool
is_fault out_of_rounds = false
is_fault _ = true

abbrev pub end_of : Parser → ℕ
end_of p = p.at + length p.rest

-- The end of the text stays where it is, no byte is read twice, and an error stands in the text.
abbrev pub After : {A : Type 0} → (A → Type 0) → Parser → Result PathError A × Parser → Type 0
After Q p (ok a, q) = (end_of q ≡ end_of p) × ((length q.rest ≤ length p.rest) × Q a)
After Q p (err e, q) = (e.offset ≤ end_of p) × (is_fault e.message ≡ true)

pub record Sound {A : Type 0} (bound : ℕ) (Q : A → Type 0) (m : Parse A) : Type 0 where
  pub at : (p : Parser) → length p.rest < bound → After Q p (m p)

pub After-widen :
    {A : Type 0} (Q : A → Type 0) (p q : Parser) (r : Result PathError A × Parser)
    → end_of q ≡ end_of p
    → length q.rest ≤ length p.rest
    → After Q q r
    → After Q p r
After-widen Q p q (ok a, z) e l (same, (less, x)) = (same ∙ e, (omega arith, x))
After-widen Q p q (err x, z) e l (inside, fault) = (omega arith, fault)

pub Sound-bind :
    {A B : Type 0} (bound : ℕ) (P : A → Type 0) (Q : B → Type 0) (m : Parse A) (f : A → Parse B)
    → Sound bound P m
    → ((a : A) → P a → Sound bound Q (f a))
    → Sound bound Q (m >>= f)
unfolding ◌>>=◌
Sound-bind {A = A} {B = B} bound P Q m f h k = record {
  at = λ p r. after_first p r (m p) (h.at p r);
}
  where
    after_first :
        (p : Parser)
        → length p.rest < bound
        → (r : Result PathError A × Parser) → After P p r
        → After Q p (continue r.0 f r.1)
    after_first p r (ok a, q) (e, (l, x)) =
        After-widen Q p q (f a q) e l ((k a x).at q (omega arith))
    after_first p r (err e, q) h = h

pub Sound-pure : {A : Type 0} (bound : ℕ) (Q : A → Type 0) (a : A) → Q a → Sound bound Q (pure a)
Sound-pure bound Q a h = record { at = λ p r. (refl, (omega arith, h)) }

pub Sound-zero : {A : Type 0} (Q : A → Type 0) (m : Parse A) → Sound 0 Q m
Sound-zero Q m = record { at = λ p r. absurd (omega arith) }

pub Sound-less :
    {A : Type 0} (bound more : ℕ) (Q : A → Type 0) (m : Parse A)
    → bound ≤ more
    → Sound more Q m
    → Sound bound Q m
Sound-less bound more Q m l h = record { at = λ p r. h.at p (omega arith) }

pub Sound-fail :
    {A : Type 0} (bound : ℕ) (Q : A → Type 0) (message : Message)
    → is_fault message ≡ true
    → Sound bound Q (fail {A = A} message)
unfolding fail
Sound-fail bound Q message h = record { at = λ p r. (omega arith, h) }

pub Sound-if :
    {A : Type 0} (bound : ℕ) (Q : A → Type 0) (b : Bool) (m n : Parse A)
    → (b ≡ true → Sound bound Q m)
    → (b ≡ false → Sound bound Q n)
    → Sound bound Q (if b then m else n)
Sound-if bound Q true m n h k = h refl
Sound-if bound Q false m n h k = k refl

pub Sound-option :
    {A B : Type 0} (bound : ℕ) (Q : A → Type 0) (o : Option B) (m : Parse A) (f : B → Parse A)
    → Sound bound Q m
    → ((b : B) → Sound bound Q (f b))
    → Sound bound Q (elim o [ none ↦ m | some b ↦ f b ])
Sound-option bound Q none m f h k = h
Sound-option bound Q (some b) m f h k = k b

abbrev pub Any : {A : Type 0} → A → Type 0
Any a = Unit {0}

pub peek-Sound : (bound : ℕ) → Sound bound Any peek
unfolding peek
peek-Sound bound = record { at = λ p r. by_rest p.rest p.at }
  where
    by_rest :
        (s : Bytes) (at : ℕ)
        → After Any (record { rest = s; at = at }) (peek (record { rest = s; at = at }))
    by_rest [] at = (refl, (omega arith, tt))
    by_rest (c ∷ cs) at = (refl, (omega arith, tt))

-- Two parts that make up a text, where there are any.
abbrev pub Parts : Bytes → Option (Bytes × Bytes) → Type 0
Parts s none = Unit {0}
Parts s (some (w, t)) = length w + length t ≡ length s

push_some-Parts :
    (c : ℕ) (s : Bytes) (o : Option (Bytes × Bytes)) → Parts s o → Parts (c ∷ s) (push_some c o)
push_some-Parts c s none h = tt
push_some-Parts c s (some (w, t)) h = omega arith

pub quoted_end-Parts : (escaped : Bool) (s : Bytes) → Parts s (quoted_end escaped s)
unfolding quoted_end
quoted_end-Parts true [] = tt
quoted_end-Parts false [] = tt
quoted_end-Parts true (c ∷ cs) = push_some-Parts c cs _ (quoted_end-Parts false cs)
quoted_end-Parts false (c ∷ cs) = elim (Bool-cases (c == b'\\')) [
  | inl y ↦ rw y (push_some-Parts c cs _ (quoted_end-Parts true cs))
  | inr n ↦ elim (Bool-cases (c == b'"')) [
    | inl y ↦ rw (n, y) (omega arith)
    | inr m ↦ rw (n, m) (push_some-Parts c cs _ (quoted_end-Parts false cs))
  ]
]

pub span-Parts : (test : ℕ → Bool) (s : Bytes) → Parts s (some (span test s))
unfolding span
span-Parts test [] = omega arith
span-Parts test (c ∷ cs) = elim (Bool-cases (test c)) [
  | inl y ↦ let h = span-Parts test cs in rw y (omega arith)
  | inr n ↦ rw n (omega arith)
]

abbrev Left : Bytes → Bytes → Option Bytes → Type 0
Left l s none = Unit {0}
Left l s (some t) = length l + length t ≡ length s

strip-Left : (l s : Bytes) → Left l s (strip l s)
unfolding strip
strip-Left [] s = omega arith
strip-Left (x ∷ xs) [] = tt
strip-Left (x ∷ xs) (y ∷ ys) = elim (Bool-cases (x == y)) [
  | inl e ↦ rw e (longer (strip xs ys) (strip-Left xs ys))
  | inr n ↦ rw n tt
]
  where
    longer : (o : Option Bytes) → Left xs ys o → Left (x ∷ xs) (y ∷ ys) o
    longer none h = tt
    longer (some t) h = omega arith

pub past-After :
    {A : Type 0} (Q : A → Type 0) (p : Parser) (w t : Bytes) (a : A)
    → length w + length t ≡ length p.rest
    → Q a
    → After Q p (ok a, past p w t)
past-After Q p w t a h x = (omega arith, (omega arith, x))

-- After a literal that is there, one round less is enough.
pub eat-Sound :
    {A : Type 0} (bound : ℕ) (Q : A → Type 0) (c : ℕ) (l : Bytes) (f : Bool → Parse A)
    → Sound bound Q (f true)
    → Sound (suc bound) Q (f false)
    → Sound (suc bound) Q (eat (c ∷ l) >>= f)
unfolding ◌>>=◌ eat
eat-Sound bound Q c l f h k = record {
  at = λ p r. by_left p r (strip (c ∷ l) p.rest) (strip-Left (c ∷ l) p.rest);
}
  where
    eaten : Parser → Option Bytes → Result PathError Bool × Parser
    eaten p o = elim o [ none ↦ (ok false, p) | some t ↦ (ok true, past p (c ∷ l) t) ]

    by_left :
        (p : Parser)
        → length p.rest < suc bound
        → (o : Option Bytes) → Left (c ∷ l) p.rest o
        → After Q p (continue (eaten p o).0 f (eaten p o).1)
    by_left p r none left = k.at p r
    by_left p r (some t) left =
        After-widen Q p (past p (c ∷ l) t) (f true (past p (c ∷ l) t)) (omega arith) (omega arith)
          (h.at (past p (c ∷ l) t) (omega arith))

push_text-After :
    (c : ℕ) (p q : Parser) (r : Result PathError Bytes × Parser)
    → end_of q ≡ end_of p
    → length q.rest ≤ length p.rest
    → After Any q r
    → After Any p (push_text c r)
push_text-After c p q (ok s, z) e l (same, (less, x)) = (same ∙ e, (omega arith, x))
push_text-After c p q (err x, z) e l (inside, fault) = (omega arith, fault)

pub string_literal-After :
    (s : Bytes) (at : ℕ) → After Any (record { rest = s; at = at }) (string_literal s at)
unfolding string_literal fail
string_literal-After [] at = (omega arith, refl)
string_literal-After (c ∷ []) at = elim (Bool-cases (c == b'\'')) [
  | inl y ↦ rw y (omega arith, (omega arith, tt))
  | inr n ↦ rw n (omega arith, refl)
]
string_literal-After (c ∷ d ∷ cs) at = elim (Bool-cases (c == b'\'')) [
  | inl y ↦ elim (Bool-cases (d == b'\'')) [
    | inl z ↦
        rw (y, z)
          (push_text-After b'\'' (record { rest = c ∷ d ∷ cs; at = at })
            (record { rest = cs; at = suc (suc at) }) _ (omega arith) (omega arith)
            (string_literal-After cs (suc (suc at))))
    | inr n ↦ rw (y, n) (omega arith, (omega arith, tt))
  ]
  | inr n ↦ rw n (
      push_text-After c (record { rest = c ∷ d ∷ cs; at = at })
        (record { rest = d ∷ cs; at = suc at }) _ (omega arith) (omega arith)
        (string_literal-After (d ∷ cs) (suc at)))
]
