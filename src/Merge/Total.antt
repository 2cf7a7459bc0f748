-- ===== src/Merge/Total.antt =====
-- `merge_value` with fuel above the depth of its base (merge.rs).
use reldir.Base.{
  ℕ, zero, suc, ◌≡◌, ◌≤◌, refl, subst, arith, Option, none, some, inl, inr, Option-cases,
}
use reldir.Store.Corruption.{Bytes}
use reldir.Json.{
  Value, Members, null, bool, number, string, array, object, get_member, depth, members_depth,
  option_eq,
}
use reldir.Json.Laws.{depth-get}
use reldir.Pointer.{extend}
use reldir.Merge.{merge_members, as_object, members_of, merge_sides, merge_value}
use reldir.Merge.Faithful.{IsFaithful}
use reldir.Merge.Runs.{Run, merge_sides-Run}
use reldir.Merge.Object.{MakesNothing, merge_members-Run}

-- The fuel a value needs.
unfoldable pub needs : Option Value → ℕ
needs none = 0
needs (some v) = depth v

members_of-as_object : (v : Option Value) (x : Members) → as_object v ≡ some x → members_of v ≡ x
unfolding members_of
members_of-as_object v x e = rw (members_of, e) refl

pub nothing : (fuel : ℕ) → MakesNothing (merge_value fuel)
unfolding merge_value merge_sides option_eq
nothing zero p = refl
nothing (suc fuel) p = refl

needs-as_object :
    (o : Option Value) (x : Members) → as_object o ≡ some x → needs o ≡ suc (members_depth x)
unfolding needs as_object depth
needs-as_object none x e = cc
needs-as_object (some null) x e = cc
needs-as_object (some (bool b)) x e = cc
needs-as_object (some (number n)) x e = cc
needs-as_object (some (string s)) x e = cc
needs-as_object (some (array a)) x e = cc
needs-as_object (some (object m)) x e = grind arith

pub needs-get : (name : Bytes) (x : Members) → needs (get_member name x) ≤ members_depth x
unfolding needs members_depth
needs-get name x = elim (Option-cases (get_member name x)) [
  | inl e ↦ rw (e, needs) (omega arith)
  | inr (v, e) ↦ rw (e, needs) (depth-get name x v e)
]

-- Enough fuel for ours is enough for the merge, and the merge is faithful.
pub merge_value-Run :
    (fuel : ℕ) (p : Bytes) (b o t : Option Value)
    → needs o ≤ fuel
    → Run (IsFaithful p b o t) (merge_value fuel p b o t)
unfolding merge_value
merge_value-Run zero p b o t h =
    merge_sides-Run (λ b o t conflicts. none) p b o t
      (λ x y e f. absurd (grind (arith, needs-as_object o x e)))
merge_value-Run (suc fuel) p b o t h =
    let members = merge_members (merge_value fuel) p in
    merge_sides-Run members p b o t (λ x y e f.
      subst (λ x. Run (IsFaithful p b o t) (members (members_of b) x y))
        (members_of-as_object o x e)
        (subst (λ y. Run (IsFaithful p b o t) (members (members_of b) (members_of o) y))
          (members_of-as_object t y f)
          (merge_members-Run (merge_value fuel) p b o t
            (λ name.
              merge_value-Run fuel (extend p name) (get_member name (members_of b))
                (get_member name (members_of o)) (get_member name (members_of t))
                (rw (members_of-as_object o x e)
                  (grind (arith, needs-get name x, needs-as_object o x e))))
            (nothing fuel))))
