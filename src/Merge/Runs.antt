-- ===== src/Merge/Runs.antt =====
-- Fuel of the merge (merge.rs), and the conflicts found so far.
use mathlib.Core.List.{append-nil}
use reldir.Base.{
  ℕ, ◌≡◌, refl, ◌∙◌, true, false, List, [], ◌∷◌, ◌++◌, Option, none, some, inl, inr, Bool-cases,
  Option-cases,
}
use reldir.Store.Corruption.{Bytes}
use reldir.Json.{Value, Members, depth, option_eq}
use reldir.Merge.{
  Conflict, Outcome, as_object, push_conflict, members_of, merge_changed, merge_sides,
}
use reldir.Merge.Faithful.{IsFaithful, is_present, sides-IsConflict}

-- The fuel a value needs.
unfoldable pub needs : Option Value → ℕ
needs none = 0
needs (some v) = depth v

-- `merge` gives this value and adds these conflicts.
abbrev pub Gives : (List Conflict → Outcome) → Option Value → List Conflict → Type 0
Gives merge value found =
    (conflicts : List Conflict) → merge conflicts ≡ some (value, conflicts ++ found)

-- The value and the conflicts of a merge, and that both are as they should be.
pub record Run (Good : Option Value → List Conflict → Type 0) (merge : List Conflict → Outcome)
    : Type 0 where
  pub value : Option Value
  pub found : List Conflict
  pub gives : Gives merge value found
  pub good : Good value found

-- A merge that does what one that runs does.
Run-same :
    (Good : Option Value → List Conflict → Type 0) (m n : List Conflict → Outcome)
    → ((cs : List Conflict) → m cs ≡ n cs)
    → Run Good n
    → Run Good m
Run-same Good m n same run = record {
  value = run.value;
  found = run.found;
  gives = λ cs. same cs ∙ run.gives cs;
  good = run.good;
}

-- A merge that stops at once.
stops :
    (p : Bytes) (b o t value : Option Value)
    → (is_present o ≡ true → is_present t ≡ true → is_present value ≡ true)
    → Run (IsFaithful p b o t) (λ conflicts. some (value, conflicts))
stops p b o t value present = record {
  value = value;
  found = [];
  gives = λ cs. rw (append-nil cs) refl;
  good = record { conflicts = tt; present = present };
}

conflict-Run :
    (p : Bytes) (b o t : Option Value)
    → option_eq o t ≡ false
    → option_eq b o ≡ false
    → option_eq b t ≡ false
    → Run (IsFaithful p b o t) (push_conflict p b o t)
unfolding push_conflict
conflict-Run p b o t e f g = record {
  value = o;
  found = record { pointer = p; base = b; ours = o; theirs = t } ∷ [];
  gives = λ cs. refl;
  good = record { conflicts = (sides-IsConflict p b o t e f g, tt); present = λ h k. h };
}

-- The rest of the body runs where the merge of two objects does.
merge_changed-Run :
    (members : Members → Members → Members → List Conflict → Outcome)
    → (p : Bytes) (b o t : Option Value) → option_eq o t ≡ false
    → option_eq b o ≡ false
    → option_eq b t ≡ false
    → ((x y : Members)
        → as_object o ≡ some x
        → as_object t ≡ some y
        → Run (IsFaithful p b o t) (members (members_of b) x y))
    → Run (IsFaithful p b o t) (merge_changed members p b o t)
unfolding merge_changed
merge_changed-Run members p b o t e f g run =
    let whole : List Conflict → Outcome = merge_changed members p b o t in
    elim (Option-cases (as_object o)) [
      | inl h ↦
          Run-same (IsFaithful p b o t) whole _ (λ cs. rw (merge_changed, h) refl)
            (conflict-Run p b o t e f g)
      | inr (x, h) ↦ elim (Option-cases (as_object t)) [
        | inl k ↦
            Run-same (IsFaithful p b o t) whole _ (λ cs. rw (merge_changed, h, k) refl)
              (conflict-Run p b o t e f g)
        | inr (y, k) ↦
            Run-same (IsFaithful p b o t) whole _ (λ cs. rw (merge_changed, h, k) refl)
              (run x y h k)
      ]
    ]

-- The first test that holds stops the merge.
pub merge_sides-Run :
    (members : Members → Members → Members → List Conflict → Outcome)
    → (p : Bytes) (b o t : Option Value)
    → ((x y : Members)
        → as_object o ≡ some x
        → as_object t ≡ some y
        → Run (IsFaithful p b o t) (members (members_of b) x y))
    → Run (IsFaithful p b o t) (merge_sides members p b o t)
unfolding merge_sides
merge_sides-Run members p b o t run =
    let whole : List Conflict → Outcome = merge_sides members p b o t in
    let same = Run-same (IsFaithful p b o t) whole in
    elim (Bool-cases (option_eq o t)) [
      | inl y ↦ same _ (λ cs. rw (merge_sides, y) refl) (stops p b o t o (λ h k. h))
      | inr n ↦ elim (Bool-cases (option_eq b o)) [
        | inl y ↦ same _ (λ cs. rw (merge_sides, n, y) refl) (stops p b o t t (λ h k. k))
        | inr m ↦ elim (Bool-cases (option_eq b t)) [
          | inl y ↦ same _ (λ cs. rw (merge_sides, n, m, y) refl) (stops p b o t o (λ h k. h))
          | inr k ↦
              same _ (λ cs. rw (merge_sides, n, m, k) refl)
                (merge_changed-Run members p b o t n m k run)
        ]
      ]
    ]
