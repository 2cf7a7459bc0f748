-- ===== src/RefPath/Selects.antt =====
-- What a reference path selects, place by place.
use reldir.Base.{
  ℕ, zero, suc, ◌≡◌, refl, sym, ◌∙◌, true, false, List, [], ◌∷◌, ◌++◌, Option, none, some,
}
use mathlib.Core.List.{append_assoc, append-nil}
use reldir.Store.Corruption.{Bytes}
use reldir.Json.{Value, Items, nil, cons}
use reldir.Pointer.{extend, escape_pointer}
use reldir.RefPath.{
  Step, member_step, each_step, where_step, Occurrence, at_index, decimal, selected, is_null,
  member_of, items_of,
}

unfoldable pub item_at : ℕ → Items → Option Value
item_at i nil = none
item_at zero (cons item items) = some item
item_at (suc i) (cons item items) = item_at i items

-- From a value at `pointer`, inside the array element `element`, the steps lead to this occurrence.
pub data Selects : List Step → Value → Bytes → Option Bytes → Occurrence → Type 0 where
  stops :
      {value : Value} {pointer : Bytes} {element : Option Bytes}
      → is_null value ≡ false
      → Selects [] value pointer element
          (record { pointer = pointer; value = value; element = element })
  in_member :
      {name : Bytes} {rest : List Step} {value : Value} {child : Value} {pointer : Bytes}
      {element : Option Bytes} {o : Occurrence}
      → member_of name value ≡ some child
      → Selects rest child (extend pointer name) element o
      → Selects (member_step name ∷ rest) value pointer element o
  in_each :
      {rest : List Step} {value : Value} {items : Items} {item : Value} {pointer : Bytes}
      {element : Option Bytes} {o : Occurrence}
      → (i : ℕ) → items_of value ≡ some items
      → item_at i items ≡ some item
      → Selects rest item (at_index pointer i) (some (at_index pointer i)) o
      → Selects (each_step ∷ rest) value pointer element o
  in_selected :
      {name : Bytes} {equals : Value} {rest : List Step} {value : Value} {items : Items}
      {item : Value} {pointer : Bytes} {element : Option Bytes} {o : Occurrence}
      → (i : ℕ) → items_of value ≡ some items
      → item_at i items ≡ some item
      → selected name equals item ≡ true
      → Selects rest item (at_index pointer i) (some (at_index pointer i)) o
      → Selects (where_step name equals ∷ rest) value pointer element o

-- A name or an index of a pointer.
pub data Token : Type 0 where
  name_token : Bytes → Token
  index_token : ℕ → Token

-- The value that tokens lead to.
unfoldable pub resolve : List Token → Value → Option Value
resolve [] v = some v
resolve (name_token name ∷ ts) v = elim (member_of name v) [
  | none ↦ none
  | some child ↦ resolve ts child
]
resolve (index_token i ∷ ts) v = elim (items_of v) [
  | none ↦ none
  | some items ↦ elim (item_at i items) [ none ↦ none | some item ↦ resolve ts item ]
]

-- How tokens are written (RFC 6901).
unfoldable pub written : List Token → Bytes
written [] = []
written (name_token name ∷ ts) = (b'/' ∷ escape_pointer name) ++ written ts
written (index_token i ∷ ts) = (b'/' ∷ decimal i) ++ written ts

-- A selected value is found by the pointer it is selected at.
pub Selects-resolve :
    (steps : List Step) (v : Value) (p : Bytes) (e : Option Bytes) (o : Occurrence)
    → Selects steps v p e o
    → (ts : List Token) × ((o.pointer ≡ p ++ written ts)
        × ((resolve ts v ≡ some o.value) × (is_null o.value ≡ false)))
unfolding resolve written extend at_index
Selects-resolve steps v p e o (stops h) = ([], (sym (append-nil p), (refl, h)))
Selects-resolve steps v p e o (in_member {name} {rest} {value} {child} {pointer} g s) =
    let (ts, (q, (r, h))) = Selects-resolve rest child (extend pointer name) e o s in
    (
      name_token name ∷ ts,
      (q ∙ append_assoc pointer (b'/' ∷ escape_pointer name) (written ts), (rw (resolve, g) r, h)),
    )
Selects-resolve steps v p e o (in_each {rest} {value} {items} {item} {pointer} i f g s) =
    let (ts, (q, (r, h))) =
      Selects-resolve rest item (at_index pointer i) (some (at_index pointer i)) o s in
    (
      index_token i ∷ ts,
      (q ∙ append_assoc pointer (b'/' ∷ decimal i) (written ts), (rw (resolve, f, g) r, h)),
    )
Selects-resolve steps v p e o
      (in_selected {name} {equals} {rest} {value} {items} {item} {pointer} i f g t s) =
    let (ts, (q, (r, h))) =
      Selects-resolve rest item (at_index pointer i) (some (at_index pointer i)) o s in
    (
      index_token i ∷ ts,
      (q ∙ append_assoc pointer (b'/' ∷ decimal i) (written ts), (rw (resolve, f, g) r, h)),
    )
