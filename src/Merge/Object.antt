-- ===== src/Merge/Object.antt =====
-- `merge_members`: what the merged object holds at each name, and its conflicts.
use reldir.Base.{
  ◌≡◌, All, refl, sym, subst, ◌∙◌, arith, false, ◌||◌, List, [], Option, none, some, inl, inr,
  Bool-cases,
}
use reldir.Store.Corruption.{Bytes}
use reldir.Json.{Value, Members, object, end, get_member, has_key}
use reldir.Pointer.{extend}
use reldir.Merge.{Conflict, Outcome, all_names, merge_members, as_object, members_of}
use reldir.Merge.Faithful.{
  IsFaithful, IsConflict, member-IsConflict, gathered-All, All-each, is_present,
}
use reldir.Merge.Loop.{
  filled, gathered, listed, has_key-get, listed-all_names, get-filled, merge_names-runs,
}
use reldir.Merge.Runs.{Run, Gives}

-- What a merge of members does at each name.
abbrev pub MembersRun :
    (Bytes → Option Value → Option Value → Option Value → List Conflict → Outcome)
    → Bytes
    → Members
    → Members
    → Members
    → Type 0
MembersRun merge p b o t =
    (name : Bytes)
    → Run (IsFaithful (extend p name) (get_member name b) (get_member name o) (get_member name t))
        (merge (extend p name) (get_member name b) (get_member name o) (get_member name t))

-- A merge that makes nothing of three absent values.
abbrev pub MakesNothing :
    (Bytes → Option Value → Option Value → Option Value → List Conflict → Outcome) → Type 0
MakesNothing merge = (p : Bytes) → merge p none none none [] ≡ some (none, [])

module _ (merge : Bytes → Option Value → Option Value → Option Value → List Conflict → Outcome)
    (p : Bytes) (b o t : Members) (run : MembersRun merge p b o t)
    (nothing : MakesNothing merge) where
  abbrev pub value_at : Bytes → Option Value
  value_at name = (run name).value

  abbrev pub found_at : Bytes → List Conflict
  found_at name = (run name).found

  made_nothing :
      (q : Bytes) (x y z v : Option Value) (ds : List Conflict)
      → x ≡ none
      → y ≡ none
      → z ≡ none
      → merge q x y z [] ≡ some (v, ds)
      → v ≡ none
  made_nothing q x y z v ds ex ey ez e = grind (arith, nothing q)

  unlisted : (name : Bytes) → listed name (all_names b o t) ≡ false → value_at name ≡ none
  unlisted name e =
      let held : (has_key name o || has_key name t || has_key name b) ≡ false =
        sym (listed-all_names name b o t) ∙ e in
      let none_o : get_member name o ≡ none = has_key-get name o (ground (arith, held)) in
      let none_t : get_member name t ≡ none = has_key-get name t (ground (arith, held)) in
      let none_b : get_member name b ≡ none = has_key-get name b (ground (arith, held)) in
      made_nothing (extend p name) (get_member name b) (get_member name o) (get_member name t)
        (value_at name) (found_at name) none_b none_o none_t ((run name).gives [])

  -- The merged object.
  pub merged : Members
  merged = filled value_at (all_names b o t) end

  pub get-merged : (name : Bytes) → get_member name merged ≡ value_at name
  unfolding merged get_member
  get-merged name =
      get-filled value_at name (all_names b o t) end (inl refl)
      ∙ (elim (Bool-cases (listed name (all_names b o t))) [
        | inl y ↦ rw y refl
        | inr n ↦ rw n (sym (unlisted name n))
      ])

  pub merge_members-Gives :
      Gives
        (merge_members merge p b o t)
        (some (object merged))
        (gathered found_at (all_names b o t))
  unfolding merge_members merged
  merge_members-Gives cs =
      rw
        (
          merge_members,
          merge_names-runs merge p b o t value_at found_at (λ name. (run name).gives)
              (all_names b o t) end cs,
        )
        refl

-- The conflicts of a member are conflicts of the merged object.
member-conflicts :
    (merge : Bytes → Option Value → Option Value → Option Value → List Conflict → Outcome)
    → (p : Bytes) (b o t : Option Value)
    → (run : MembersRun merge p (members_of b) (members_of o) (members_of t))
    → (nothing : MakesNothing merge) → (name : Bytes)
    → All
        (IsConflict p b o t
          (some (object (merged merge p (members_of b) (members_of o) (members_of t) run nothing))))
        (found_at merge p (members_of b) (members_of o) (members_of t) run nothing name)
unfolding members_of as_object
member-conflicts merge p b o t run nothing name =
    let m = merged merge p (members_of b) (members_of o) (members_of t) run nothing in
    let sides =
      IsConflict (extend p name) (get_member name (members_of b)) (get_member name (members_of o))
        (get_member name (members_of t)) in
    All-each (sides (run name).value) (IsConflict p b o t (some (object m))) (run name).found
      (λ c h. member-IsConflict p name b o t (some (object m)) c (
        subst (λ v. sides v c)
          (sym (get-merged merge p (members_of b) (members_of o) (members_of t) run nothing name))
          h))
      (run name).good.conflicts

-- Two objects merge where their members do, and the merge is faithful to them.
pub merge_members-Run :
    (merge : Bytes → Option Value → Option Value → Option Value → List Conflict → Outcome)
    → (p : Bytes) (b o t : Option Value)
    → MembersRun merge p (members_of b) (members_of o) (members_of t)
    → MakesNothing merge
    → Run (IsFaithful p b o t) (merge_members merge p (members_of b) (members_of o) (members_of t))
unfolding is_present
merge_members-Run merge p b o t run nothing =
    let m = merged merge p (members_of b) (members_of o) (members_of t) run nothing in
    let names = all_names (members_of b) (members_of o) (members_of t) in
    let found = found_at merge p (members_of b) (members_of o) (members_of t) run nothing in
    record {
      value = some (object m);
      found = gathered found names;
      gives = merge_members-Gives merge p (members_of b) (members_of o) (members_of t) run nothing;
      good = record {
        conflicts =
            gathered-All (IsConflict p b o t (some (object m))) found names
              (member-conflicts merge p b o t run nothing);
        present = λ h k. refl;
      };
    }
