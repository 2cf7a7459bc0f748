-- ===== src/Store/Dag/MergeBase.antt =====
-- `merge_base` against the common ancestors (store/dag.rs).
use reldir.Base.{
  ℕ, ◌≡◌, ◌≤◌, ◌⊎◌, ◌↔◌, refl, sym, ◌∙◌, arith, inl, inr, true, not, ◌&&◌, List, [], ◌∷◌, length,
  Bool-cases,
}
use reldir.Store.Corruption.{ObjectId}
use reldir.Store.IdSet.{holds, holds-sort, holds-without, without, sort}
use reldir.Store.Dag.{done, merge_base}
use reldir.Store.Dag.Reach.{Reaches, Descends, IsHistory, parent, first, further}
use reldir.Store.Dag.Ancestors.{ancestors-Reaches}
use reldir.Store.Dag.Common.{IsCommon, start-Ends}

-- A common ancestor of two revisions.
abbrev pub IsCommonAncestor :
    {E : Type 0} → (ObjectId → E ⊎ List ObjectId) → ObjectId → ObjectId → ObjectId → Type 0
IsCommonAncestor parents a b id = Reaches parents (a ∷ []) id × Reaches parents (b ∷ []) id

-- A common ancestor that is not a strict ancestor of another.
abbrev pub IsBest :
    {E : Type 0} → (ObjectId → E ⊎ List ObjectId) → ObjectId → ObjectId → ObjectId → Type 0
IsBest parents a b id =
    IsCommonAncestor parents a b id
    × ((c : ObjectId) → IsCommonAncestor parents a b c → ¬ Descends parents c id)

module _ {E : Type 0} (parents : ObjectId → E ⊎ List ObjectId) where
  -- Ancestors of what is reached are reached.
  Reaches-Descends :
      (roots : List ObjectId) (c : ObjectId) {id : ObjectId}
      → Reaches parents roots c
      → Descends parents c id
      → Reaches parents roots id
  Reaches-Descends roots c r (first e h) = parent r e h
  Reaches-Descends roots c r (further d e h) = parent (Reaches-Descends roots c r d) e h

  -- A strict ancestor of a common ancestor is the parent of a common ancestor.
  last_step :
      (a b c : ObjectId) {id : ObjectId}
      → IsCommonAncestor parents a b c
      → Descends parents c id
      → (d : ObjectId) × ((ps : List ObjectId) × (IsCommonAncestor parents a b d
            × ((parents d ≡ inr ps) × (holds id ps ≡ true))))
  last_step a b c k (first {p} {ps} e h) = (c, (ps, (k, (e, h))))
  last_step a b c (r, s) (further {id} {p} {ps} d e h) =
      (id, (ps, ((Reaches-Descends (a ∷ []) c r d, Reaches-Descends (b ∷ []) c s d), (e, h))))

  module _ (a b : ObjectId) (of_a visited common pc : List ObjectId)
      (reaches_a : (id : ObjectId) → (holds id of_a ≡ true) ↔ Reaches parents (a ∷ []) id)
      (reaches_b : (id : ObjectId) → (holds id visited ≡ true) ↔ Reaches parents (b ∷ []) id)
      (sets : IsCommon parents of_a visited common pc) where
    holds-common : (id : ObjectId) → (holds id common ≡ true) ↔ IsCommonAncestor parents a b id
    holds-common id = (
      λ h. (
        (reaches_a id).0 (grind (arith, h, sets.both id)),
        (reaches_b id).0 (grind (arith, h, sets.both id)),
      ),
      λ (r, s). grind (arith, sets.both id, (reaches_a id).1 r, (reaches_b id).1 s),
    )

    -- The common ancestors that are no parent of one are the best.
    sort-IsBest :
        (id : ObjectId) → (holds id (sort (without pc common)) ≡ true) ↔ IsBest parents a b id
    sort-IsBest id = (
      λ h.
          let left : (holds id common && not (holds id pc)) ≡ true =
            sym (holds-without id pc common) ∙ sym (holds-sort id (without pc common)) ∙ h in
          (
            (holds-common id).0 (ground (arith, left)),
            λ c k d.
                let (e, (ps, (j, (f, i)))) = last_step a b c k d in
                let hit : holds id pc ≡ true = sets.dominates e ps id ((holds-common e).1 j) f i in
                grind (arith, left, hit),
          ),
      λ (k, n). elim (Bool-cases (holds id pc)) [
        | inl y ↦
            let (c, (ps, (j, (f, i)))) = sets.dominated id y in
            absurd (n c ((holds-common c).0 j) (first f i))
        | inr m ↦
            let held : holds id common ≡ true = (holds-common id).1 k in
            grind (arith, m, held, holds-sort id (without pc common), holds-without id pc common)
      ],
    )

  module _ (history : List ObjectId) (whole : IsHistory parents history) where
    -- In a store that holds the whole history of both revisions, with as much fuel as the history is
    -- long, `merge_base` gives a list that holds exactly the common ancestors that are not strict
    -- ancestors of a common ancestor.
    pub merge_base-IsBest :
        (fuel : ℕ) (a b : ObjectId)
        → holds a history ≡ true
        → holds b history ≡ true
        → length history ≤ fuel
        → (best : List ObjectId) × ((merge_base parents fuel a b ≡ done best)
            × ((id : ObjectId) → (holds id best ≡ true) ↔ IsBest parents a b id))
    unfolding merge_base
    merge_base-IsBest fuel a b ea eb h =
        let (of_a, (runs_a, reaches_a)) = ancestors-Reaches parents history whole fuel a ea h in
        let ends = start-Ends parents history whole of_a (b ∷ []) fuel b (λ id. refl) eb h in
        (
          sort (without ends.parents_of_common ends.common),
          (
            rw (merge_base, runs_a, ends.runs) refl,
            sort-IsBest a b of_a ends.visited ends.common ends.parents_of_common reaches_a
                ends.reaches ends.sets,
          ),
        )
