-- ===== src/Merge.antt =====
-- The three-way merge of JSON documents, member by member (merge.rs).
pub mod Loop
pub mod Faithful
pub mod Runs
pub mod Object
pub mod Total
pub mod Correct
pub mod Markers
mod Examples
use reldir.Base.{
  ℕ, zero, suc, Bool, true, false, not, List, [], ◌∷◌, ◌++◌, Option, none, some, if◌then◌else◌,
}
use reldir.Store.Corruption.{Bytes}
use reldir.Json.{
  Value, Members, object, end, get_member, insert_member, keys, has_key, option_eq, depth,
}
use reldir.Pointer.{extend}

pub record Conflict : Type 0 where
  pub pointer : Bytes
  pub base : Option Value
  pub ours : Option Value
  pub theirs : Option Value

-- What a merge of three values gives: the merged value, `none` for absent, and the conflicts found
-- so far. `none` outside says that the fuel ran out.
abbrev pub Outcome : Type 0
Outcome = Option (Option Value × List Conflict)

-- `filter(|name| !map.contains_key(name))`
unfoldable pub missing_from : Members → List Bytes → List Bytes
missing_from ms [] = []
missing_from ms (k ∷ ks) = let rest = missing_from ms ks in if has_key k ms then rest else k ∷ rest

-- The names `merge_members` goes through.
unfoldable pub all_names : Members → Members → Members → List Bytes
all_names base ours theirs =
    keys ours
    ++ missing_from ours (keys theirs)
    ++ missing_from theirs (missing_from ours (keys base))

-- `if let Some(value) = … { merged.insert(name, value) }`
unfoldable pub insert_some : Bytes → Option Value → Members → Members
insert_some name none merged = merged
insert_some name (some v) merged = insert_member name v merged

-- The loop of `merge_members` over the names, where `merge` merges one member.
unfoldable pub merge_names :
    (Bytes → Option Value → Option Value → Option Value → List Conflict → Outcome)
    → Bytes
    → Members
    → Members
    → Members
    → List Bytes
    → Members
    → List Conflict
    → Option (Members × List Conflict)
merge_names merge pointer base ours theirs [] merged conflicts = some (merged, conflicts)
merge_names merge pointer base ours theirs (name ∷ names) merged conflicts =
    elim (merge (extend pointer name) (get_member name base) (get_member name ours)
      (get_member name theirs) conflicts) [
        | none ↦ none
        | some (value, found) ↦
            merge_names merge pointer base ours theirs names (insert_some name value merged) found
      ]

unfoldable pub merge_members :
    (Bytes → Option Value → Option Value → Option Value → List Conflict → Outcome)
    → Bytes
    → Members
    → Members
    → Members
    → List Conflict
    → Outcome
merge_members merge pointer base ours theirs conflicts =
    elim (merge_names merge pointer base ours theirs (all_names base ours theirs) end conflicts) [
      | none ↦ none
      | some (merged, found) ↦ some (some (object merged), found)
    ]

-- `Some(Value::Object(…))`
unfoldable pub as_object : Option Value → Option Members
as_object (some (object ms)) = some ms
as_object _ = none

-- An ancestor that is not an object contributes no members.
unfoldable pub members_of : Option Value → Members
members_of base = elim (as_object base) [ none ↦ end | some ms ↦ ms ]

-- `conflicts.push(…); ours.cloned()`
unfoldable pub push_conflict :
    Bytes → Option Value → Option Value → Option Value → List Conflict → Outcome
push_conflict pointer base ours theirs conflicts = some (
  ours,
  conflicts ++ record { pointer = pointer; base = base; ours = ours; theirs = theirs } ∷ [],
)

-- The end of `merge_value`, once each side has changed the value in a way of its own: `members`
-- merges two objects.
unfoldable pub merge_changed :
    (Members → Members → Members → List Conflict → Outcome)
    → Bytes
    → Option Value
    → Option Value
    → Option Value
    → List Conflict
    → Outcome
merge_changed members pointer base ours theirs conflicts =
    let conflict = push_conflict pointer base ours theirs conflicts in
    elim (as_object ours) [
      | none ↦ conflict
      | some x ↦ elim (as_object theirs) [
        | none ↦ conflict
        | some y ↦ members (members_of base) x y conflicts
      ]
    ]

-- The body of `merge_value`.
unfoldable pub merge_sides :
    (Members → Members → Members → List Conflict → Outcome)
    → Bytes
    → Option Value
    → Option Value
    → Option Value
    → List Conflict
    → Outcome
merge_sides members pointer base ours theirs conflicts =
    if option_eq ours theirs
    then some (ours, conflicts)
    else if option_eq base ours
    then some (theirs, conflicts)
    else if option_eq base theirs
    then some (ours, conflicts)
    else merge_changed members pointer base ours theirs conflicts

-- Fuel bounds how deep objects are nested.
unfoldable pub merge_value :
    ℕ → Bytes → Option Value → Option Value → Option Value → List Conflict → Outcome
merge_value zero pointer = merge_sides (λ b o t conflicts. none) pointer
merge_value (suc fuel) pointer = merge_sides (merge_members (merge_value fuel) pointer) pointer

-- `merge_values`: `none` where the fuel ran out or `expect` found no value.
unfoldable pub merge_values : Option Value → Value → Value → Option (Value × List Conflict)
merge_values base ours theirs =
    elim (merge_value (depth ours) [] base (some ours) (some theirs) []) [
      | none ↦ none
      | some (none, conflicts) ↦ none
      | some (some merged, conflicts) ↦ some (merged, conflicts)
    ]
