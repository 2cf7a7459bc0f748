-- ===== src/Merge/Loop.antt =====
-- The loop of `merge_members` over names: what it visits, and what it leaves at each name.
use mathlib.Core.List.{append_assoc, append-nil}
use reldir.Base.{
  ◌≡◌, ◌⊎◌, refl, ap, ◌∙◌, arith, Bool, true, false, not, ◌&&◌, ◌||◌, List, [], ◌∷◌, ◌++◌, Option,
  none, some, inl, inr, Bool-cases, if◌then◌else◌,
}
use reldir.Store.Corruption.{Bytes}
use reldir.Store.Text.{bytes_eq, bytes_eq_iff, bytes_eq_refl}
use reldir.Json.{Value, Members, member, end, get_member, keys, has_key}
use reldir.Json.Laws.{get-insert}
use reldir.Pointer.{extend}
use reldir.Merge.{Conflict, Outcome, missing_from, all_names, insert_some, merge_names}

pub listed : Bytes → List Bytes → Bool
listed j [] = false
listed j (k ∷ ks) = if bytes_eq k j then true else listed j ks

listed-append :
    (j : Bytes) (ks ls : List Bytes) → listed j (ks ++ ls) ≡ (listed j ks || listed j ls)
unfolding listed
listed-append j [] ls = refl
listed-append j (k ∷ ks) ls = ground (arith, listed-append j ks ls)

listed-keys : (j : Bytes) (ms : Members) → listed j (keys ms) ≡ has_key j ms
unfolding listed keys has_key
listed-keys j end = refl
listed-keys j (member k v ms) = ground (arith, listed-keys j ms)

listed-missing_from :
    (j : Bytes) (ms : Members) (ks : List Bytes)
    → listed j (missing_from ms ks) ≡ (listed j ks && not (has_key j ms))
unfolding listed missing_from
listed-missing_from j ms [] = refl
listed-missing_from j ms (k ∷ ks) = grind (arith, bytes_eq_iff k j, listed-missing_from j ms ks)

-- The loop visits every name that one of the three maps holds, and no other.
pub listed-all_names :
    (j : Bytes) (b o t : Members)
    → listed j (all_names b o t) ≡ (has_key j o || has_key j t || has_key j b)
unfolding all_names
listed-all_names j b o t = grind (
  arith,
  listed-append j (keys o ++ missing_from o (keys t)) (missing_from t (missing_from o (keys b))),
  listed-append j (keys o) (missing_from o (keys t)),
  listed-missing_from j o (keys t),
  listed-missing_from j t (missing_from o (keys b)),
  listed-missing_from j o (keys b),
  listed-keys j o,
  listed-keys j t,
  listed-keys j b,
)

-- A name that a map does not hold has no value there.
pub has_key-get : (j : Bytes) (ms : Members) → has_key j ms ≡ false → get_member j ms ≡ none
unfolding has_key get_member
has_key-get j end e = refl
has_key-get j (member k v ms) e = ground (arith, has_key-get j ms)

-- The map after the loop, given the value of each name.
unfoldable pub filled : (Bytes → Option Value) → List Bytes → Members → Members
filled value_at [] merged = merged
filled value_at (k ∷ ks) merged = filled value_at ks (insert_some k (value_at k) merged)

-- The conflicts of the loop, given those of each name.
unfoldable pub gathered : (Bytes → List Conflict) → List Bytes → List Conflict
gathered found_at [] = []
gathered found_at (k ∷ ks) = found_at k ++ gathered found_at ks

get-insert_some :
    (k j : Bytes) (v : Option Value) (ms : Members)
    → bytes_eq k j ≡ false
    → get_member j (insert_some k v ms) ≡ get_member j ms
unfolding insert_some
get-insert_some k j none ms e = refl
get-insert_some k j (some v) ms e = ground (arith, get-insert k j v ms)

get-insert_same :
    (k : Bytes) (v : Option Value) (ms : Members)
    → (get_member k ms ≡ none) ⊎ (get_member k ms ≡ v)
    → get_member k (insert_some k v ms) ≡ v
unfolding insert_some
get-insert_same k none ms (inl e) = e
get-insert_same k none ms (inr e) = e
get-insert_same k (some v) ms h = ground (arith, get-insert k k v ms, bytes_eq_refl k)

-- One round: the name holds its value, and the other names are as they were.
get-round :
    (value_at : Bytes → Option Value) (j k : Bytes) (merged : Members)
    → (get_member j merged ≡ none) ⊎ (get_member j merged ≡ value_at j)
    → get_member j (insert_some k (value_at k) merged)
      ≡ (if bytes_eq k j then value_at j else get_member j merged)
get-round value_at j k merged h = elim (Bool-cases (bytes_eq k j)) [
  | inl y ↦ rw (y, (bytes_eq_iff k j).0 y) (get-insert_same j (value_at j) merged h)
  | inr n ↦ rw n (get-insert_some k j (value_at k) merged n)
]

-- Each name that was visited holds its value, and no other name has changed.
pub get-filled :
    (value_at : Bytes → Option Value) (j : Bytes) (ks : List Bytes) (merged : Members)
    → (get_member j merged ≡ none) ⊎ (get_member j merged ≡ value_at j)
    → get_member j (filled value_at ks merged)
      ≡ (if listed j ks then value_at j else get_member j merged)
unfolding filled listed
get-filled value_at j [] merged h = refl
get-filled value_at j (k ∷ ks) merged h = elim (Bool-cases (bytes_eq k j)) [
  | inl y ↦
      let m = insert_some k (value_at k) merged in
      let r : get_member j m ≡ value_at j = get-round value_at j k merged h ∙ rw y refl in
      ground (arith, get-filled value_at j ks m (inr r), r)
  | inr n ↦
      let m = insert_some k (value_at k) merged in
      let r : get_member j m ≡ get_member j merged = get-round value_at j k merged h ∙ rw n refl in
      ground (arith, get-filled value_at j ks m (rw r h), r)
]

-- A merge of members that gives `value_at` and `found_at` at each name makes the loop fill the map
-- and gather the conflicts, in the order of the names.
pub merge_names-runs :
    (merge : Bytes → Option Value → Option Value → Option Value → List Conflict → Outcome)
    → (pointer : Bytes) (b o t : Members)
    → (value_at : Bytes → Option Value) (found_at : Bytes → List Conflict)
    → ((name : Bytes) (conflicts : List Conflict)
        → merge
            (extend pointer name)
            (get_member name b)
            (get_member name o)
            (get_member name t)
            conflicts
          ≡ some (value_at name, conflicts ++ found_at name))
    → (names : List Bytes) (merged : Members) (conflicts : List Conflict)
    → merge_names merge pointer b o t names merged conflicts
      ≡ some (filled value_at names merged, conflicts ++ gathered found_at names)
unfolding merge_names filled gathered
merge_names-runs merge p b o t value_at found_at runs [] merged cs = rw (append-nil cs) refl
merge_names-runs merge p b o t value_at found_at runs (k ∷ ks) merged cs =
    rw (merge_names, runs k cs)
      (merge_names-runs merge p b o t value_at found_at runs ks (insert_some k (value_at k) merged)
          (cs ++ found_at k)
        ∙ ap (λ c. some (filled value_at ks (insert_some k (value_at k) merged), c))
            (append_assoc cs (found_at k) (gathered found_at ks)))
