-- ===== src/RefPath/Walk.antt =====
-- `walk` (schema/path.rs) against what the path selects.
use reldir.Base.{
  ℕ, zero, suc, ◌+◌, ◌≡◌, ◌⊎◌, ◌↔◌, refl, sym, ap, subst, ◌∙◌, arith, inl, inr, Bool, true, false,
  List, [], ◌∷◌, ◌++◌, Option, some, Bool-cases, Option-cases,
}
use reldir.Store.Corruption.{Bytes}
use reldir.Json.{Value, Items, null, bool, number, string, array, object, nil, cons}
use reldir.Pointer.{extend}
use reldir.RefPath.{
  Step, member_step, each_step, where_step, Occurrence, at_index, always, selected, walk, walk_step,
  is_null, member_of, items_of, walk_items,
}
use reldir.RefPath.Selects.{Selects, stops, in_member, in_each, in_selected, item_at}

-- An occurrence is in a list.
unfoldable pub IsIn : Occurrence → List Occurrence → Type 0
IsIn o [] = ⊥
IsIn o (p ∷ ps) = (o ≡ p) ⊎ IsIn o ps

IsIn-append : (o : Occurrence) (ps qs : List Occurrence) → IsIn o (ps ++ qs) → IsIn o ps ⊎ IsIn o qs
unfolding IsIn
IsIn-append o [] qs h = inr h
IsIn-append o (p ∷ ps) qs (inl e) = inl (inl e)
IsIn-append o (p ∷ ps) qs (inr h) = elim (IsIn-append o ps qs h) [
  | inl k ↦ inl (inr k)
  | inr k ↦ inr k
]

left-IsIn : (o : Occurrence) (ps qs : List Occurrence) → IsIn o ps → IsIn o (ps ++ qs)
unfolding IsIn
left-IsIn o [] qs h = absurd h
left-IsIn o (p ∷ ps) qs (inl e) = inl e
left-IsIn o (p ∷ ps) qs (inr h) = inr (left-IsIn o ps qs h)

right-IsIn : (o : Occurrence) (ps qs : List Occurrence) → IsIn o qs → IsIn o (ps ++ qs)
unfolding IsIn
right-IsIn o [] qs h = h
right-IsIn o (p ∷ ps) qs h = inr (right-IsIn o ps qs h)

module _ (select : Value → Bool) (go : Value → Bytes → Option Bytes → List Occurrence)
    (pointer : Bytes) (o : Occurrence) where
  -- What an element leads to holds the occurrence.
  abbrev pub Leads : ℕ → Value → Type 0
  Leads k item = IsIn o (go item (at_index pointer k) (some (at_index pointer k)))

  -- An element that is selected, at some index, and what it leads to.
  abbrev pub IsItem : ℕ → Items → Type 0
  IsItem from items =
      (i : ℕ) × ((item : Value) × ((item_at i items ≡ some item)
          × ((select item ≡ true) × Leads (i + from) item)))

  later-IsItem :
      (from : ℕ) (item : Value) (items : Items)
      → IsItem (suc from) items
      → IsItem from (cons item items)
  unfolding item_at
  later-IsItem from item items (i, (v, (g, (t, h)))) =
      (suc i, (v, (g, (t, subst (λ k. Leads k v) (omega arith) h))))

  walk_items-IsItem :
      (from : ℕ) (items : Items)
      → IsIn o (walk_items select go pointer from items)
      → IsItem from items
  unfolding walk_items IsIn item_at
  walk_items-IsItem from nil h = absurd h
  walk_items-IsItem from (cons item items) h = elim (Bool-cases (select item)) [
    | inl y ↦
        elim (IsIn-append o (go item (at_index pointer from) (some (at_index pointer from)))
          (walk_items select go pointer (suc from) items) (rw y at h)) [
            | inl k ↦ (0, (item, (refl, (y, subst (λ n. Leads n item) (omega arith) k))))
            | inr k ↦ later-IsItem from item items (walk_items-IsItem (suc from) items k)
          ]
    | inr n ↦ later-IsItem from item items (walk_items-IsItem (suc from) items (rw n at h))
  ]

  item-IsIn :
      (from : ℕ) (items : Items)
      → IsItem from items
      → IsIn o (walk_items select go pointer from items)
  unfolding walk_items item_at
  item-IsIn from nil (i, (v, (g, _))) = absurd (cc)
  item-IsIn from (cons item items) (zero, (v, (g, (t, h)))) =
      let e : item ≡ v = grind (arith, g) in
      let y : select item ≡ true = ap select e ∙ t in
      let k : Leads from item =
        subst (λ n. Leads n item) (omega arith) (subst (λ u. Leads (0 + from) u) (sym e) h) in
      rw y (
        left-IsIn o (go item (at_index pointer from) (some (at_index pointer from)))
          (walk_items select go pointer (suc from) items) k)
  item-IsIn from (cons item items) (suc i, (v, (g, (t, h)))) =
      let k =
        item-IsIn (suc from) items (i, (v, (g, (t, subst (λ n. Leads n v) (omega arith) h)))) in
      elim (Bool-cases (select item)) [
        | inl y ↦ rw y (
            right-IsIn o (go item (at_index pointer from) (some (at_index pointer from)))
              (walk_items select go pointer (suc from) items) k)
        | inr n ↦ rw n k
      ]

-- A value with members, or with elements, is not null.
member_of-not_null : (name : Bytes) (v c : Value) → member_of name v ≡ some c → is_null v ≡ false
unfolding member_of is_null
member_of-not_null name null c e = cc
member_of-not_null name (bool b) c e = refl
member_of-not_null name (number b) c e = refl
member_of-not_null name (string b) c e = refl
member_of-not_null name (array b) c e = refl
member_of-not_null name (object b) c e = refl

items_of-not_null : (v : Value) (items : Items) → items_of v ≡ some items → is_null v ≡ false
unfolding items_of is_null
items_of-not_null null c e = cc
items_of-not_null (bool b) c e = refl
items_of-not_null (number b) c e = refl
items_of-not_null (string b) c e = refl
items_of-not_null (array b) c e = refl
items_of-not_null (object b) c e = refl

module _ (rest : List Step) (o : Occurrence) where
  -- One step finds what it selects, where the steps that are left do.
  step-Selects :
      ((v : Value) (p : Bytes) (e : Option Bytes) → IsIn o (walk rest v p e) → Selects rest v p e o)
      → (step : Step) (v : Value) (p : Bytes) (e : Option Bytes)
      → IsIn o (walk_step step (walk rest) v p e)
      → Selects (step ∷ rest) v p e o
  unfolding walk_step IsIn
  step-Selects ih (member_step name) v p e h = elim (Option-cases (member_of name v)) [
    | inl n ↦ absurd (rw (walk_step, n) at h)
    | inr (c, y) ↦ in_member y (ih c (extend p name) e (rw (walk_step, y) at h))
  ]
  step-Selects ih each_step v p e h = elim (Option-cases (items_of v)) [
    | inl n ↦ absurd (rw (walk_step, n) at h)
    | inr (items, y) ↦
        let (i, (item, (g, (_, k)))) =
          walk_items-IsItem always (walk rest) p o 0 items (rw (walk_step, y) at h) in
        in_each i y g (
          ih item (at_index p i) (some (at_index p i))
            (subst (λ n. Leads always (walk rest) p o n item) (omega arith) k))
  ]
  step-Selects ih (where_step name equals) v p e h = elim (Option-cases (items_of v)) [
    | inl n ↦ absurd (rw (walk_step, n) at h)
    | inr (items, y) ↦
        let (i, (item, (g, (t, k)))) =
          walk_items-IsItem (selected name equals) (walk rest) p o 0 items
            (rw (walk_step, y) at h) in
        in_selected i y g t (
          ih item (at_index p i) (some (at_index p i))
            (subst (λ n. Leads (selected name equals) (walk rest) p o n item) (omega arith) k))
  ]

-- Each thing the walk finds is selected.
walk-Selects :
    (steps : List Step) (v : Value) (p : Bytes) (e : Option Bytes) (o : Occurrence)
    → IsIn o (walk steps v p e)
    → Selects steps v p e o
unfolding walk IsIn
walk-Selects [] v p e o h = elim (Bool-cases (is_null v)) [
  | inl y ↦ absurd (rw y at h)
  | inr n ↦ elim (rw n at h) [
    | inl k ↦ subst (λ x. Selects [] v p e x) (sym k) (stops n)
    | inr k ↦ absurd k
  ]
]
walk-Selects (step ∷ rest) v p e o h = elim (Bool-cases (is_null v)) [
  | inl y ↦ absurd (rw y at h)
  | inr n ↦ step-Selects rest o (λ v p e. walk-Selects rest v p e o) step v p e (rw n at h)
]

-- Each thing selected is found by the walk.
Selects-walk :
    (steps : List Step) (v : Value) (p : Bytes) (e : Option Bytes) (o : Occurrence)
    → Selects steps v p e o
    → IsIn o (walk steps v p e)
unfolding walk IsIn walk_step always
Selects-walk steps v p e o (stops n) = rw n (inl refl)
Selects-walk steps v p e o (in_member {name} {rest} {value} {child} {pointer} y s) =
    rw (member_of-not_null name value child y, walk_step, y)
      (Selects-walk rest child (extend pointer name) e o s)
Selects-walk steps v p e o (in_each {rest} {value} {items} {item} {pointer} i y g s) =
    rw (items_of-not_null value items y, walk_step, y)
      (item-IsIn always (walk rest) pointer o 0 items (
        i,
        (
          item,
          (
            g,
            (
              refl,
              subst (λ n. Leads always (walk rest) pointer o n item) (omega arith)
                  (Selects-walk rest item (at_index pointer i) (some (at_index pointer i)) o s),
            ),
          ),
        ),
      ))
Selects-walk steps v p e o
      (in_selected {name} {equals} {rest} {value} {items} {item} {pointer} i y g t s) =
    rw (items_of-not_null value items y, walk_step, y)
      (item-IsIn (selected name equals) (walk rest) pointer o 0 items (
        i,
        (
          item,
          (
            g,
            (
              t,
              subst (λ n. Leads (selected name equals) (walk rest) pointer o n item) (omega arith)
                  (Selects-walk rest item (at_index pointer i) (some (at_index pointer i)) o s),
            ),
          ),
        ),
      ))

-- `walk` finds exactly the occurrences that the steps select, place by place: each member named, each
-- element of an array, each element a filter takes, and at the end any value but null.
pub walk_iff_Selects :
    (steps : List Step) (v : Value) (p : Bytes) (e : Option Bytes) (o : Occurrence)
    → IsIn o (walk steps v p e) ↔ Selects steps v p e o
walk_iff_Selects steps v p e o = (walk-Selects steps v p e o, Selects-walk steps v p e o)
