-- ===== src/Merge/Examples.antt =====
-- A member one side changed, one both removed, one both changed: run on concrete documents.
use reldir.Base.{◌≡◌, refl, arith, All, List, [], ◌∷◌, some}
use reldir.Store.Corruption.{Bytes}
use reldir.Json.{
  Value, Members, number, object, end, member, get_member, option_eq, depth, value_eq, member_count,
  keys, has_key, insert_member,
}
use reldir.Store.Text.{bytes_eq}
use reldir.Pointer.{extend, escape_pointer, replace_char}
use reldir.Merge.{
  Conflict, merge_sides, merge_changed, as_object, merge_members, merge_names, all_names,
  push_conflict, insert_some, missing_from, merge_value, merge_values, members_of,
}
use reldir.Merge.Correct.{merge_values-faithful, merge_value-get}
use reldir.Merge.Faithful.{IsConflict}

-- `{"a": 1, "b": {"c": 1}, "d": 1}`
abbrev base_members : Members
base_members = member (b'a' ∷ []) (number (b'1' ∷ [])) (
    member (b'b' ∷ []) (object (member (b'c' ∷ []) (number (b'1' ∷ [])) end))
      (member (b'd' ∷ []) (number (b'1' ∷ [])) end))

-- `{"a": 2, "b": {"c": 2}}`
abbrev ours_members : Members
ours_members =
    member (b'a' ∷ []) (number (b'2' ∷ []))
      (member (b'b' ∷ []) (object (member (b'c' ∷ []) (number (b'2' ∷ [])) end)) end)

-- `{"b": {"c": 3}, "a": 1, "e": 5}`
abbrev theirs_members : Members
theirs_members =
    member (b'b' ∷ []) (object (member (b'c' ∷ []) (number (b'3' ∷ [])) end))
      (member (b'a' ∷ []) (number (b'1' ∷ [])) (member (b'e' ∷ []) (number (b'5' ∷ [])) end))

-- `{"a": 2, "b": {"c": 2}, "e": 5}`
abbrev merged_members : Members
merged_members = member (b'a' ∷ []) (number (b'2' ∷ [])) (
    member (b'b' ∷ []) (object (member (b'c' ∷ []) (number (b'2' ∷ [])) end))
      (member (b'e' ∷ []) (number (b'5' ∷ [])) end))

-- `/b/c` is the one conflict.
abbrev the_conflict : Conflict
the_conflict = record {
  pointer = b'/' ∷ b'b' ∷ b'/' ∷ b'c' ∷ [];
  base = some (number (b'1' ∷ []));
  ours = some (number (b'2' ∷ []));
  theirs = some (number (b'3' ∷ []));
}

merges :
    merge_values (some (object base_members)) (object ours_members) (object theirs_members)
    ≡ some (object merged_members, the_conflict ∷ [])
unfolding merge_values merge_value depth merge_sides option_eq value_eq member_count get_member
    bytes_eq merge_changed as_object merge_members merge_names all_names keys members_of
    push_conflict has_key insert_member insert_some missing_from escape_pointer extend replace_char
merges = refl

merge_values-faithful_example :
    (v : Value) × ((ds : List Conflict) × ((merge_values
            (some (object base_members))
            (object ours_members)
            (object theirs_members)
          ≡ some (v, ds))
        × All
            (IsConflict []
              (some (object base_members))
              (some (object ours_members))
              (some (object theirs_members))
              (some v))
            ds))
merge_values-faithful_example =
    merge_values-faithful (some (object base_members)) (object ours_members) (object theirs_members)

merge_value-get_example :
    (m : Members) × ((ds : List Conflict) × ((merge_value 2 []
            (some (object base_members))
            (some (object ours_members))
            (some (object theirs_members))
            []
          ≡ some (some (object m), ds))
        × ((name : Bytes)
            → (found : List Conflict) × (merge_value 1
                  (extend [] name)
                  (get_member name base_members)
                  (get_member name ours_members)
                  (get_member name theirs_members)
                  []
                ≡ some (get_member name m, found)))))
unfolding option_eq value_eq member_count get_member bytes_eq depth members_of as_object
merge_value-get_example =
    merge_value-get 1 [] (some (object base_members)) ours_members theirs_members refl refl refl
      (omega arith)
