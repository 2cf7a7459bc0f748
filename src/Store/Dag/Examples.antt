-- ===== src/Store/Dag/Examples.antt =====
-- A criss-cross history: 2 and 3 descend from 1, and 4 and 5 from both of them.
use reldir.Base.{
  ℕ, ◌≡◌, ◌<◌, ◌⊎◌, ◌↔◌, refl, subst, arith, All, inl, inr, Bool, true, ◌||◌, ◌==◌, List, [], ◌∷◌,
  Bool-cases, if◌then◌else◌,
}
use reldir.Store.Corruption.{Corruption, truncated, ObjectId}
use reldir.Store.Text.{bytes_eq, bytes_lt, bytes_eq_iff}
use reldir.Store.IdSet.{holds, sort, without}
use reldir.Store.Dag.{
  done, ancestors, common_loop, push_parents, ancestors_loop, is_ancestor, prune_ancestors,
  merge_base,
}
use reldir.Store.Dag.Prune.{prune_ancestors-keeps}
use reldir.Store.Dag.Reach.{Reaches, Descends, first, further, IsHistory}
use reldir.Store.Dag.Ancestors.{ancestors-Reaches, is_ancestor-Reaches}
use reldir.Store.Dag.MergeBase.{IsBest, merge_base-IsBest}

abbrev rev : ℕ → ObjectId
rev n = n ∷ []

abbrev criss_cross : ObjectId → Corruption ⊎ List ObjectId
criss_cross [] = inl truncated
criss_cross (n ∷ _) =
    if n == 1
    then inr []
    else if n == 2 || n == 3
    then inr (rev 1 ∷ [])
    else if n == 4 || n == 5
    then inr (rev 2 ∷ rev 3 ∷ [])
    else inl truncated

abbrev all_five : List ObjectId
all_five = rev 1 ∷ rev 2 ∷ rev 3 ∷ rev 4 ∷ rev 5 ∷ []

-- What holds of each id of a list holds of an id that it holds.
each :
    (P : ObjectId → Type 0) (xs : List ObjectId)
    → All P xs
    → (id : ObjectId) → holds id xs ≡ true
    → P id
unfolding holds
each P [] a id e = cc
each P (x ∷ xs) (a, rest) id e = elim (Bool-cases (bytes_eq x id)) [
  | inl y ↦ subst P ((bytes_eq_iff x id).0 y) a
  | inr n ↦ each P xs rest id (grind (arith, n, e))
]

within_all_five :
    (ps : List ObjectId)
    → All (λ p. holds p all_five ≡ true) ps
    → (p : ObjectId) → holds p ps ≡ true
    → holds p all_five ≡ true
within_all_five ps a = each (λ p. holds p all_five ≡ true) ps a

all_five-IsHistory : IsHistory criss_cross all_five
unfolding holds bytes_eq
all_five-IsHistory =
    each
      (λ id.
        (ps : List ObjectId) × ((criss_cross id ≡ inr ps)
          × ((p : ObjectId) → holds p ps ≡ true → holds p all_five ≡ true)))
      all_five
      (
        ([], (refl, within_all_five [] tt)),
        (
          (rev 1 ∷ [], (refl, within_all_five (rev 1 ∷ []) (refl, tt))),
          (
            (rev 1 ∷ [], (refl, within_all_five (rev 1 ∷ []) (refl, tt))),
            (
              (rev 2 ∷ rev 3 ∷ [], (refl, within_all_five (rev 2 ∷ rev 3 ∷ []) (refl, (refl, tt)))),
              (
                (
                  rev 2 ∷ rev 3 ∷ [],
                  (refl, within_all_five (rev 2 ∷ rev 3 ∷ []) (refl, (refl, tt))),
                ),
                tt,
              ),
            ),
          ),
        ),
      )

ancestors-Reaches_example :
    (all : List ObjectId) × ((ancestors criss_cross 5 (rev 4) ≡ done all)
      × ((id : ObjectId) → (holds id all ≡ true) ↔ Reaches criss_cross (rev 4 ∷ []) id))
unfolding holds bytes_eq
ancestors-Reaches_example =
    ancestors-Reaches criss_cross all_five all_five-IsHistory 5 (rev 4) refl (omega arith)

is_ancestor-Reaches_example :
    (found : Bool) × ((is_ancestor criss_cross 5 (rev 1) (rev 4) ≡ done found)
      × ((found ≡ true) ↔ Reaches criss_cross (rev 4 ∷ []) (rev 1)))
unfolding holds bytes_eq
is_ancestor-Reaches_example =
    is_ancestor-Reaches criss_cross all_five all_five-IsHistory 5 (rev 1) (rev 4) refl (omega arith)

merge_base-IsBest_example :
    (best : List ObjectId) × ((merge_base criss_cross 5 (rev 4) (rev 5) ≡ done best)
      × ((id : ObjectId) → (holds id best ≡ true) ↔ IsBest criss_cross (rev 4) (rev 5) id))
unfolding holds bytes_eq
merge_base-IsBest_example =
    merge_base-IsBest criss_cross all_five all_five-IsHistory 5 (rev 4) (rev 5) refl refl
      (omega arith)

two_bases : merge_base criss_cross 5 (rev 4) (rev 5) ≡ done (rev 2 ∷ rev 3 ∷ [])
unfolding merge_base ancestors ancestors_loop common_loop push_parents bytes_eq holds sort without
    bytes_lt
two_bases = refl

-- The number of a revision falls from child to parent.
key : ObjectId → ℕ
key [] = 0
key (n ∷ _) = n

-- What holds of each of these parents holds of the parents of a revision that has them.
each_parent :
    (P : ObjectId → Type 0) (qs : List ObjectId)
    → All P qs
    → (ps : List ObjectId) → ◌≡◌ {A = Corruption ⊎ List ObjectId} (inr qs) (inr ps)
    → (p : ObjectId) → holds p ps ≡ true
    → P p
each_parent P qs a ps e p h = each P qs a p (grind (arith, e, h))

key-parent :
    (f : ObjectId) (ps : List ObjectId)
    → criss_cross f ≡ inr ps
    → (p : ObjectId) → holds p ps ≡ true
    → key p < key f
unfolding key holds
key-parent [] ps e p h = cc
key-parent (n ∷ rest) ps e p h = elim (Bool-cases (n == 1)) [
  | inl y ↦ each_parent (λ p. key p < n) [] tt ps (rw y at e) p h
  | inr m ↦ elim (Bool-cases (n == 2 || n == 3)) [
    | inl y ↦
        each_parent (λ p. key p < n) (rev 1 ∷ []) (ground (arith, y), tt) ps (rw (m, y) at e) p h
    | inr k ↦ elim (Bool-cases (n == 4 || n == 5)) [
      | inl y ↦
          each_parent (λ p. key p < n) (rev 2 ∷ rev 3 ∷ [])
            (ground (arith, y), (ground (arith, y), tt)) ps (rw (m, k, y) at e) p h
      | inr l ↦
          let no : ◌≡◌ {A = Corruption ⊎ List ObjectId} (inl truncated) (inr ps) =
            rw (m, k, l) at e in
          absurd (cc)
    ]
  ]
]

key-Descends : (f : ObjectId) {id : ObjectId} → Descends criss_cross f id → key id < key f
key-Descends f (first {p} {ps} e h) = key-parent f ps e p h
key-Descends f (further {id} {p} {ps} d e h) =
    omega (arith, key-Descends f d, key-parent id ps e p h)

prune_ancestors-keeps_example :
    (kept : List ObjectId) × ((prune_ancestors criss_cross 5 (rev 4 ∷ rev 2 ∷ []) ≡ done kept)
      × ((id : ObjectId)
          → (holds id kept ≡ true) ↔ (
              (holds id (rev 4 ∷ rev 2 ∷ []) ≡ true)
              × ((h : ObjectId)
                  → holds h (rev 4 ∷ rev 2 ∷ []) ≡ true
                  → ¬ Descends criss_cross h id))))
unfolding holds bytes_eq
prune_ancestors-keeps_example =
    prune_ancestors-keeps criss_cross all_five all_five-IsHistory
      (λ id d. omega (arith, key-Descends id d)) 5 (rev 4 ∷ rev 2 ∷ [])
      (each (λ h. holds h all_five ≡ true) (rev 4 ∷ rev 2 ∷ []) (refl, (refl, tt))) (omega arith)
