-- ===== src/Merge/Correct.antt =====
-- `merge_value` and `merge_values` from outside (merge.rs).
use reldir.Base.{ℕ, suc, ◌≡◌, ◌≤◌, refl, arith, All, false, List, [], Option, none, some}
use reldir.Store.Corruption.{Bytes}
use reldir.Json.{Value, Members, object, get_member, depth, option_eq}
use reldir.Pointer.{extend}
use reldir.Merge.{
  all_names, Conflict, members_of, as_object, merge_changed, merge_sides, merge_value, merge_values,
}
use reldir.Merge.Faithful.{IsFaithful, IsConflict, is_present}
use reldir.Merge.Loop.{gathered}
use reldir.Merge.Object.{MembersRun, merged, get-merged, found_at, merge_members-Gives}
use reldir.Merge.Total.{needs, merge_value-Run, needs-get, nothing}

-- What `merge_values` gives, where the merge of the two documents is faithful to them.
merge_values-of :
    (b : Option Value) (o t : Value) (v : Option Value) (ds : List Conflict)
    → merge_value (depth o) [] b (some o) (some t) [] ≡ some (v, ds)
    → IsFaithful [] b (some o) (some t) v ds
    → (w : Value) × ((merge_values b o t ≡ some (w, ds))
        × All (IsConflict [] b (some o) (some t) (some w)) ds)
unfolding merge_values is_present
merge_values-of b o t none ds e h = absurd (grind (arith, h.present refl refl))
merge_values-of b o t (some w) ds e h = (w, (rw (merge_values, e) refl, h.conflicts))

-- The merge of two documents always gives one, whatever the ancestor: the fuel is enough, and
-- `expect` finds a value. Each conflict it reports lies, by its pointer, where the three documents
-- hold the three values of the conflict; these differ from one another, and the merged document
-- holds ours there.
pub merge_values-faithful :
    (b : Option Value) (o t : Value)
    → (v : Value) × ((ds : List Conflict) × ((merge_values b o t ≡ some (v, ds))
          × All (IsConflict [] b (some o) (some t) (some v)) ds))
unfolding needs
merge_values-faithful b o t =
    let run = merge_value-Run (depth o) [] b (some o) (some t) (omega arith) in
    let (v, (e, h)) = merge_values-of b o t run.value run.found (run.gives []) run.good in
    (v, (run.found, (e, h)))

-- Two objects that differ from each other and from the ancestor merge name by name: with enough
-- fuel for ours, the merged object holds at every name what the three members there merge to, an
-- ancestor that is not an object having no members.
pub merge_value-get :
    (fuel : ℕ) (p : Bytes) (b : Option Value) (x y : Members)
    → option_eq (some (object x)) (some (object y)) ≡ false
    → option_eq b (some (object x)) ≡ false
    → option_eq b (some (object y)) ≡ false
    → depth (object x) ≤ suc fuel
    → (m : Members) × ((ds : List Conflict) × ((merge_value
              (suc fuel)
              p
              b
              (some (object x))
              (some (object y))
              []
            ≡ some (some (object m), ds))
          × ((name : Bytes)
              → (found : List Conflict) × (merge_value fuel
                    (extend p name)
                    (get_member name (members_of b))
                    (get_member name x)
                    (get_member name y)
                    []
                  ≡ some (get_member name m, found)))))
unfolding merge_value merge_sides merge_changed as_object depth
merge_value-get fuel p b x y e f g h =
    let run : MembersRun (merge_value fuel) p (members_of b) x y = λ name.
      merge_value-Run fuel (extend p name) (get_member name (members_of b)) (get_member name x)
        (get_member name y) (omega (arith, needs-get name x)) in
    let m = merged (merge_value fuel) p (members_of b) x y run (nothing fuel) in
    (
      m,
      (
        gathered (found_at (merge_value fuel) p (members_of b) x y run (nothing fuel))
            (all_names (members_of b) x y),
        (
          rw (merge_value, merge_sides, e, f, g)
              (merge_members-Gives (merge_value fuel) p (members_of b) x y run (nothing fuel) []),
          λ name. (
            (run name).found,
            rw (get-merged (merge_value fuel) p (members_of b) x y run (nothing fuel) name)
                ((run name).gives []),
          ),
        ),
      ),
    )
