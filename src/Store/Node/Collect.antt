-- ===== src/Store/Node/Collect.antt =====
-- The loops of the decoder over a list of entries (store/node.rs).
use mathlib.Core.List.{append-nil, append_assoc}
use reldir.Base.{
  ℕ, zero, suc, ◌≤◌, ◌<◌, ◌≡◌, ◌≢◌, refl, sym, ap, ◌∙◌, inl, inr, true, false, List, [], ◌∷◌, ◌++◌,
  arith, ◌==◌, length, length-append, All, All-split, Bool-cases, subst,
}
use reldir.Store.Corruption.{Bytes, ok, out_of_fuel}
use reldir.Store.Codec.{Cursor, Reader, is_empty}
use reldir.Store.Codec.Reads.{
  rest, Reads, Reads-bind, bind_ok, bind-ne-out_of_fuel, remaining-eq-length,
}
use reldir.Store.Codec.Spelling.{IsByte}
use reldir.Store.Node.{collect}

is_empty-eq : (c : Cursor) → is_empty c ≡ (length (rest c) == 0)
unfolding is_empty
is_empty-eq c = rw (remaining-eq-length c)

empty_rest : (xs : Bytes) → (length xs == 0) ≡ true → xs ≡ []
empty_rest [] h = refl
empty_rest (x ∷ xs) h = absurd (ground arith)

module _ {A : Type 0} (enc : A → Bytes) where
  abbrev pub joined : List A → Bytes
  joined [] = []
  joined (a ∷ xs) = enc a ++ joined xs

module _ {A : Type 0} (Good : List A → A → Type 0) where
  -- Each item is good after those before it.
  abbrev pub Chain : List A → List A → Type 0
  Chain before [] = Unit
  Chain before (a ∷ xs) = Good before a × Chain (before ++ a ∷ []) xs

module _ {A : Type 0} (item : List A → Reader A) (enc : A → Bytes)
    (Good : List A → A → Type 0) where
  pub collect-Reads :
      ((before : List A) (a : A) (c : Cursor) (ys : Bytes)
        → Good before a
        → rest c ≡ enc a ++ ys
        → Reads (item before) c a ys)
      → ((before : List A) (a : A) → Good before a → 0 < length (enc a))
      → (xs before : List A) (fuel : ℕ) (c : Cursor) → Chain Good before xs
      → rest c ≡ joined enc xs
      → length xs ≤ fuel
      → Reads (collect item fuel before) c (before ++ xs) []
  unfolding collect
  collect-Reads reads grows [] before zero c chain e h =
      let done : is_empty c ≡ true = is_empty-eq c ∙ rw e in
      record { next = c; runs = rw (done, append-nil before); left = e }
  collect-Reads reads grows [] before (suc fuel) c chain e h =
      let done : is_empty c ≡ true = is_empty-eq c ∙ rw e in
      record { next = c; runs = rw (done, append-nil before); left = e }
  collect-Reads reads grows (a ∷ xs) before zero c chain e h = absurd (omega arith)
  collect-Reads reads grows (a ∷ xs) before (suc fuel) c chain e h =
      let going : is_empty c ≡ false =
        is_empty-eq c
        ∙ rw e (ground (arith, length-append (enc a) (joined enc xs), grows before a chain.0)) in
      let r =
        Reads-bind (item before) (λ b. collect item fuel (before ++ b ∷ [])) c
          (reads before a c (joined enc xs) chain.0 e)
          (λ c' l.
            collect-Reads reads grows xs (before ++ a ∷ []) fuel c' chain.1 l (omega arith)) in
      record {
        next = r.next;
        runs = rw (going, ← append_assoc before (a ∷ []) xs) r.runs;
        left = r.left;
      }

  -- What a loop that succeeded has read.
  pub record Collected (before result : List A) (c c' : Cursor) : Type 0 where
    pub items : List A
    pub result_eq : result ≡ before ++ items
    pub chain : Chain Good before items
    pub split : rest c ≡ joined enc items ++ rest c'
    pub at_end : rest c' ≡ []

  collect_done :
      (before result : List A) (c c' : Cursor)
      → is_empty c ≡ true
      → before ≡ result
      → c ≡ c'
      → Collected before result c c'
  collect_done before result c c' done e same =
      let nothing : rest c ≡ [] = empty_rest (rest c) (sym (is_empty-eq c) ∙ done) in
      record {
        items = [];
        result_eq = sym e ∙ sym (append-nil before);
        chain = tt;
        split = ap rest same;
        at_end = sym (ap rest same) ∙ nothing;
      }

  pub collect_ok :
      ((before : List A) (a : A) (c c' : Cursor)
        → All IsByte (rest c)
        → item before c ≡ ok (a, c')
        → Good before a × (rest c ≡ enc a ++ rest c'))
      → (fuel : ℕ) (before result : List A) (c c' : Cursor) → All IsByte (rest c)
      → collect item fuel before c ≡ ok (result, c')
      → Collected before result c c'
  unfolding collect
  collect_ok accepts zero before result c c' hb h = elim (Bool-cases (is_empty c)) [
    | inl done ↦ collect_done before result c c' done (cc (rw done at h)) (cc (rw done at h))
    | inr going ↦ cc (rw going at h)
  ]
  collect_ok accepts (suc fuel) before result c c' hb h = elim (Bool-cases (is_empty c)) [
    | inl done ↦ collect_done before result c c' done (cc (rw done at h)) (cc (rw done at h))
    | inr going ↦
        let (a, c₁, took, more) =
          bind_ok (item before) (λ a. collect item fuel (before ++ a ∷ [])) c result c'
            (rw going at h) in
        let (good, split) = accepts before a c c₁ hb took in
        let bytes : All IsByte (rest c₁) =
          (All-split IsByte (enc a) (rest c₁) (subst (All IsByte) split hb)).1 in
        let r = collect_ok accepts fuel (before ++ a ∷ []) result c₁ c' bytes more in
        record {
          items = a ∷ r.items;
          result_eq = r.result_eq ∙ append_assoc before (a ∷ []) r.items;
          chain = (good, r.chain);
          split =
              split
              ∙ ap (λ t. enc a ++ t) r.split
              ∙ sym (append_assoc (enc a) (joined enc r.items) (rest c'));
          at_end = r.at_end;
        }
  ]

  -- Each round takes a byte at least, so the loop ends within as many rounds as bytes are left.
  pub collect-ne-out_of_fuel :
      ((before : List A) (c : Cursor) → item before c ≢ out_of_fuel)
      → ((before : List A) (a : A) (c c' : Cursor)
          → All IsByte (rest c)
          → item before c ≡ ok (a, c')
          → Good before a × (rest c ≡ enc a ++ rest c'))
      → ((before : List A) (a : A) → Good before a → 0 < length (enc a))
      → (fuel : ℕ) (before : List A) (c : Cursor) → All IsByte (rest c)
      → length (rest c) ≤ fuel
      → collect item fuel before c ≢ out_of_fuel
  unfolding collect
  collect-ne-out_of_fuel ends accepts grows zero before c hb h =
      let done : is_empty c ≡ true = is_empty-eq c ∙ ground arith in rw done (λ p. cc)
  collect-ne-out_of_fuel ends accepts grows (suc fuel) before c hb h =
      elim (Bool-cases (is_empty c)) [
        | inl done ↦ rw done (λ p. cc)
        | inr going ↦ rw going (
            bind-ne-out_of_fuel (item before) (λ a. collect item fuel (before ++ a ∷ [])) c
              (ends before c)
              λ a c' took.
                let (good, split) = accepts before a c c' hb took in
                let bytes = All-split IsByte (enc a) (rest c') (subst (All IsByte) split hb) in
                let shorter : length (rest c') ≤ fuel =
                  omega (
                    arith,
                    ap length split,
                    length-append (enc a) (rest c'),
                    grows before a good,
                  ) in
                collect-ne-out_of_fuel ends accepts grows fuel (before ++ a ∷ []) c' bytes.1
                  shorter)
      ]
