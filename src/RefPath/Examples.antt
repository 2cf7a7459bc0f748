-- ===== src/RefPath/Examples.antt =====
-- `edges[?kind='a'].to` in a row of three edges.
use reldir.Base.{◌≡◌, ◌↔◌, refl, false, List, [], ◌∷◌, none, some, inl, inr}
use reldir.Store.Corruption.{Bytes}
use reldir.Store.Text.{bytes_eq}
use reldir.Json.{
  Value, Members, string, array, object, nil, cons, end, member, get_member, value_eq,
}
use reldir.Pointer.{extend, escape_pointer, replace_char}
use reldir.RefPath.{
  Step, member_step, where_step, Occurrence, occurrences, walk, walk_step, walk_items, is_null,
  member_of, items_of, selected, at_index, decimal,
}
use reldir.RefPath.Selects.{Selects, Token, resolve, written}
use reldir.RefPath.Walk.{IsIn}
use reldir.RefPath.Occurrences.{occurrences-Selects, occurrences-resolve}

abbrev edge : Bytes → Value → Value
edge kind to = object (member (b'k' ∷ []) (string kind) (member (b't' ∷ []) to end))

abbrev edges : Members
edges =
    member (b'e' ∷ [])
      (array (
        cons (edge (b'a' ∷ []) (string (b'x' ∷ []))) (
          cons (edge (b'b' ∷ []) (string (b'y' ∷ [])))
            (cons (edge (b'a' ∷ []) (string (b'z' ∷ []))) nil))))
      end

abbrev to_of_kind_a : List Step
to_of_kind_a = where_step (b'k' ∷ []) (string (b'a' ∷ [])) ∷ member_step (b't' ∷ []) ∷ []

-- `/e/2/t`, in the element `/e/2`.
abbrev last_target : Occurrence
last_target = record {
  pointer = b'/' ∷ b'e' ∷ b'/' ∷ b'2' ∷ b'/' ∷ b't' ∷ [];
  value = string (b'z' ∷ []);
  element = some (b'/' ∷ b'e' ∷ b'/' ∷ b'2' ∷ []);
}

last_target-IsIn : IsIn last_target (occurrences (member_step (b'e' ∷ []) ∷ to_of_kind_a) edges)
unfolding IsIn occurrences walk walk_step walk_items is_null member_of items_of selected at_index
    decimal get_member bytes_eq value_eq extend escape_pointer replace_char
last_target-IsIn = inr (inl refl)

occurrences-Selects_example :
    IsIn last_target (occurrences (member_step (b'e' ∷ []) ∷ to_of_kind_a) edges)
    ↔ Selects (member_step (b'e' ∷ []) ∷ to_of_kind_a) (object edges) [] none last_target
occurrences-Selects_example = occurrences-Selects (b'e' ∷ []) to_of_kind_a edges last_target

occurrences-resolve_example :
    (ts : List Token) × ((last_target.pointer ≡ written ts)
      × ((resolve ts (object edges) ≡ some last_target.value)
          × (is_null last_target.value ≡ false)))
occurrences-resolve_example =
    occurrences-resolve (b'e' ∷ []) to_of_kind_a edges last_target last_target-IsIn
