-- ===== src/RefPath/Parser/Faults.antt =====
-- What the path parser accepts, and where it finds fault with a text (schema/path.rs).
use reldir.Base.{
  ℕ, zero, suc, ◌≤◌, ◌≡◌, ◌≢◌, refl, sym, ap, ◌∙◌, subst, arith, true, false, List, [], ◌∷◌, ◌++◌,
  length, Option, none, some, ◌==◌, if◌then◌else◌, codes,
}
use reldir.Store.Corruption.{Bytes}
use reldir.Json.{Value}
use reldir.Files.{Result, ok, err, pure, ◌>>=◌}
use reldir.RefPath.{Step, member_step, each_step, where_step, from_steps, column}
use reldir.RefPath.Parser.{
  PathError, Message, out_of_rounds, empty_path, expected_step, unequal, open_filter,
  bad_array_step, Parser, Parse, Serde, eat, fail, name, filter, no_suffix, suffixes, segments,
  path, parse,
}
use reldir.RefPath.Parser.Chars.{NotEmpty}
use reldir.RefPath.Parser.Reads.{IsLiteral}
use reldir.RefPath.Parser.Accepts.{name-Sound, literal-Sound}
use reldir.RefPath.Parser.RoundTrip.{IsStep, AllSteps, IsPath}
use reldir.RefPath.Parser.Sound.{
  is_fault, After, Sound, Sound-zero, Sound-less, Sound-bind, Sound-pure, Sound-fail, Sound-if,
  Sound-option, Any, peek-Sound, eat-Sound,
}

append-AllSteps :
    (serde : Serde) (xs ys : List Step)
    → AllSteps serde xs
    → AllSteps serde ys
    → AllSteps serde (xs ++ ys)
append-AllSteps serde [] ys h k = k
append-AllSteps serde (x ∷ xs) ys (here, h) k = (here, append-AllSteps serde xs ys h k)

module _ (serde : Serde) where
  filter-Sound : (bound : ℕ) → Sound bound (IsStep serde) (filter serde)
  unfolding filter
  filter-Sound zero = Sound-zero _ _
  filter-Sound (suc bound) =
      Sound-bind (suc bound) NotEmpty _ _ _ (name-Sound serde (suc bound)) (λ n some_name.
        eat-Sound bound _ b'=' [] _
          (Sound-bind bound (IsLiteral serde) _ _ _ (literal-Sound serde bound)
            (λ v literal. ends bound n v (some_name, literal)))
          (Sound-fail (suc bound) _ unequal refl))
    where
      ends :
          (bound : ℕ) (n : Bytes) (v : Value)
          → IsStep serde (where_step n v)
          → Sound bound (IsStep serde) (
              eat (codes "]")
              >>= (λ ends. if ends then pure (where_step n v) else fail open_filter))
      ends zero n v h = Sound-zero _ _
      ends (suc bound) n v h =
          eat-Sound bound _ b']' [] _ (Sound-pure bound _ _ h)
            (Sound-fail (suc bound) _ open_filter refl)

  no_suffix-Sound :
      (bound : ℕ) (next : Option ℕ) → Sound bound (AllSteps serde) (no_suffix serde next)
  no_suffix-Sound bound none = Sound-pure bound _ _ tt
  no_suffix-Sound bound (some c) =
      Sound-if bound _ (c == b'[') _ _ (λ y. Sound-fail bound _ bad_array_step refl)
        (λ n. Sound-pure bound _ _ tt)

  suffixes-Sound : (rounds : ℕ) → Sound rounds (AllSteps serde) (suffixes serde rounds)
  unfolding suffixes
  suffixes-Sound zero = Sound-zero _ _
  suffixes-Sound (suc rounds) =
      eat-Sound rounds _ b'[' (codes "]") _
        (Sound-bind rounds (AllSteps serde) _ _ _ (suffixes-Sound rounds)
          (λ more h. Sound-pure rounds _ _ (tt, h)))
        (eat-Sound rounds _ b'[' (codes "?") _
          (Sound-bind rounds (IsStep serde) _ _ _ (filter-Sound rounds) (λ step h.
            Sound-bind rounds (AllSteps serde) _ _ _ (suffixes-Sound rounds)
              (λ more k. Sound-pure rounds _ _ (h, k))))
          (Sound-bind (suc rounds) Any _ _ _ (peek-Sound (suc rounds))
            (λ next h. no_suffix-Sound (suc rounds) next)))

  -- A name, the steps that follow it, and then other members.
  after_name-Sound :
      (bound rounds : ℕ) (rest : Parse (List Step))
      → bound ≤ rounds
      → Sound bound (AllSteps serde) rest
      → Sound bound
          (λ steps. IsPath serde steps × AllSteps serde steps)
          (do
            member ← name serde
            more ← suffixes serde rounds
            others ← rest
            pure (member_step member ∷ more ++ others))
  after_name-Sound bound rounds rest l h =
      Sound-bind bound NotEmpty _ _ _ (name-Sound serde bound) (λ n some_name.
        Sound-bind bound (AllSteps serde) _ _ _
          (Sound-less bound rounds _ _ l (suffixes-Sound rounds))
          (λ more k. Sound-bind bound (AllSteps serde) _ _ _ h (λ others k'.
            let all = append-AllSteps serde more others k k' in
            Sound-pure bound _ _ ((some_name, all), (some_name, all)))))

  Sound-weaken :
      {A : Type 0} (bound : ℕ) (P Q : A → Type 0) (m : Parse A)
      → ((a : A) → P a → Q a)
      → Sound bound P m
      → Sound bound Q m
  Sound-weaken {A = A} bound P Q m f h = record { at = λ p r. weaker p (m p) (h.at p r) }
    where
      weaker : (p : Parser) (r : Result PathError A × Parser) → After P p r → After Q p r
      weaker p (ok a, q) (e, (l, x)) = (e, (l, f a x))
      weaker p (err e, q) x = x

  segments-Sound :
      (rounds turns : ℕ)
      → turns ≤ rounds
      → Sound turns (AllSteps serde) (segments serde rounds turns)
  unfolding segments
  segments-Sound rounds zero l = Sound-zero _ _
  segments-Sound rounds (suc turns) l =
      Sound-bind (suc turns) Any _ _ _ (peek-Sound (suc turns)) (λ next h.
        Sound-option (suc turns) _ next _ _ (Sound-pure (suc turns) _ _ tt) (λ c.
          eat-Sound turns _ b'.' [] _
            (Sound-weaken turns _ _ _ (λ steps h. h.1)
              (after_name-Sound turns rounds (segments serde rounds turns) (omega arith)
                (segments-Sound rounds turns (omega arith))))
            (Sound-fail (suc turns) _ expected_step refl)))

  path-Sound : (rounds : ℕ) → Sound rounds (IsPath serde) (path serde rounds)
  unfolding path
  path-Sound rounds = Sound-bind rounds Any _ _ _ (peek-Sound rounds) (λ next h.
      Sound-option rounds _ next _ _ (Sound-fail rounds _ empty_path refl) (λ c.
        Sound-weaken rounds _ _ _ (λ steps h. h.0)
          (after_name-Sound rounds rounds (segments serde rounds rounds) (omega arith)
            (segments-Sound rounds rounds (omega arith)))))

  abbrev start : Bytes → Parser
  start text = record { rest = text; at = 0 }

  path-After :
      (text : Bytes)
      → After (IsPath serde) (start text) (path serde (suc (length text)) (start text))
  path-After text = (path-Sound (suc (length text))).at (start text) (omega arith)

  pub parse-IsPath :
      (text : Bytes) (steps : List Step) → parse serde text ≡ ok steps → IsPath serde steps
  unfolding parse
  parse-IsPath text steps h =
      accepted (path serde (suc (length text)) (start text)) (path-After text) h
    where
      accepted :
          (r : Result PathError (List Step) × Parser)
          → After (IsPath serde) (start text) r
          → r.0 ≡ ok steps
          → IsPath serde steps
      accepted (ok a, q) (e, (l, x)) h = let same : a ≡ steps = cc in subst (IsPath serde) same x
      accepted (err e, q) x h = absurd (cc)

  IsPath-column :
      (steps : List Step)
      → IsPath serde steps
      → (from_steps steps ≡ some steps) × ((c : Bytes) × (column steps ≡ some c))
  unfolding from_steps column
  IsPath-column [] h = absurd h
  IsPath-column (member_step n ∷ ss) h = (refl, (n, refl))
  IsPath-column (each_step ∷ ss) h = absurd h
  IsPath-column (where_step n v ∷ ss) h = absurd h

  -- `RefPath::column` does not panic on a path that was parsed, and `RefPath::from_steps` takes its
  -- steps.
  pub parse-column :
      (text : Bytes) (steps : List Step)
      → parse serde text ≡ ok steps
      → (from_steps steps ≡ some steps) × ((c : Bytes) × (column steps ≡ some c))
  parse-column text steps h = IsPath-column steps (parse-IsPath text steps h)

  -- An error of `RefPath::parse` gives an offset in the text or at its end, and is one of the
  -- code's: the turns of the model's loops do not run out.
  pub parse-fault :
      (text : Bytes) (e : PathError)
      → parse serde text ≡ err e
      → (e.offset ≤ length text) × (e.message ≢ out_of_rounds)
  unfolding parse
  parse-fault text e h = refused (path serde (suc (length text)) (start text)) (path-After text) h
    where
      fault : (message : Message) → is_fault message ≡ true → message ≢ out_of_rounds
      fault message h e = let clash : false ≡ true = sym (ap is_fault e) ∙ h in absurd (cc)

      refused :
          (r : Result PathError (List Step) × Parser)
          → After (IsPath serde) (start text) r
          → r.0 ≡ err e
          → (e.offset ≤ length text) × (e.message ≢ out_of_rounds)
      refused (ok a, q) x h = absurd (cc)
      refused (err e', q) (inside, real) h =
          let same : e' ≡ e = cc in
          subst (λ (x : PathError). (x.offset ≤ length text) × (x.message ≢ out_of_rounds)) same
            (omega arith, fault e'.message real)
