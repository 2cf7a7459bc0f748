-- ===== src/Store/Dag.antt =====
-- Walks over history (store/dag.rs). The parents of a revision, which `revision::load` reads from the
-- store, are a parameter; so is the type of the errors it fails with.
pub mod Reach
pub mod Steps
pub mod Walk
pub mod Fuel
pub mod Ancestors
pub mod Common
pub mod MergeBase
pub mod Heads
pub mod Prune
mod Examples
use reldir.Base.{
  length, leb, ℕ, zero, suc, Bool, true, false, ◌⊎◌, inl, inr, List, [], ◌∷◌, ◌++◌, if◌then◌else◌,
}
use reldir.Store.Corruption.{ObjectId}
use reldir.Store.Text.{bytes_eq}
use reldir.Store.IdSet.{holds, without, sort, dedup}

-- `Result<A, StoreError>`, of a walk that may run out of fuel.
pub data Result (E A : Type 0) : Type 0 where
  done : A → Result E A
  failed : E → Result E A
  out_of_fuel : Result E A

-- The ids that were seen, and those that wait.
pub record Frontier : Type 0 where
  pub seen : List ObjectId
  pub queue : List ObjectId

-- `for parent in parents { if seen.insert(parent) { queue.push_back(parent) } }`
unfoldable pub push_parents : List ObjectId → Frontier → Frontier
push_parents [] f = f
push_parents (p ∷ ps) f =
    let old = push_parents ps f in
    let new = push_parents ps (record { seen = p ∷ f.seen; queue = f.queue ++ p ∷ [] }) in
    if holds p f.seen then old else new

module _ {E : Type 0} (parents : ObjectId → E ⊎ List ObjectId) where
  unfoldable pub ancestors_loop :
      ℕ → List ObjectId → List ObjectId → List ObjectId → Result E (List ObjectId)
  ancestors_loop fuel seen [] out = done out
  ancestors_loop zero seen (id ∷ queue) out = out_of_fuel
  ancestors_loop (suc fuel) seen (id ∷ queue) out = elim (parents id) [
    | inl e ↦ failed e
    | inr ps ↦
        let next = push_parents ps (record { seen = seen; queue = queue }) in
        ancestors_loop fuel next.seen next.queue (out ++ id ∷ [])
  ]

  unfoldable pub ancestors : ℕ → ObjectId → Result E (List ObjectId)
  ancestors fuel from = ancestors_loop fuel (from ∷ []) (from ∷ []) []

  unfoldable pub is_ancestor_loop : ℕ → ObjectId → List ObjectId → List ObjectId → Result E Bool
  is_ancestor_loop fuel ancestor seen [] = done false
  is_ancestor_loop zero ancestor seen (id ∷ queue) = out_of_fuel
  is_ancestor_loop (suc fuel) ancestor seen (id ∷ queue) =
      let rest : Result E Bool = elim (parents id) [
        | inl e ↦ failed e
        | inr ps ↦
            let next = push_parents ps (record { seen = seen; queue = queue }) in
            is_ancestor_loop fuel ancestor next.seen next.queue
      ] in
      if bytes_eq id ancestor then done true else rest

  unfoldable pub is_ancestor : ℕ → ObjectId → ObjectId → Result E Bool
  is_ancestor fuel ancestor of = is_ancestor_loop fuel ancestor (of ∷ []) (of ∷ [])

  -- The second loop of `merge_base`: `common`, and the parents of the revisions in it.
  unfoldable pub common_loop :
      ℕ
      → List ObjectId
      → List ObjectId
      → List ObjectId
      → List ObjectId
      → List ObjectId
      → Result E (List ObjectId × List ObjectId)
  common_loop fuel of_a seen [] common parents_of_common = done (common, parents_of_common)
  common_loop zero of_a seen (id ∷ queue) common parents_of_common = out_of_fuel
  common_loop (suc fuel) of_a seen (id ∷ queue) common parents_of_common = elim (parents id) [
    | inl e ↦ failed e
    | inr ps ↦
        let next = push_parents ps (record { seen = seen; queue = queue }) in
        let in_common =
          common_loop fuel of_a next.seen next.queue (id ∷ common) (ps ++ parents_of_common) in
        let not_common = common_loop fuel of_a next.seen next.queue common parents_of_common in
        if holds id of_a then in_common else not_common
  ]

  unfoldable pub merge_base : ℕ → ObjectId → ObjectId → Result E (List ObjectId)
  merge_base fuel a b = elim (ancestors fuel a) [
    | failed e ↦ failed e
    | out_of_fuel ↦ out_of_fuel
    | done of_a ↦ elim (common_loop fuel of_a (b ∷ []) (b ∷ []) [] []) [
      | failed e ↦ failed e
      | out_of_fuel ↦ out_of_fuel
      | done (common, parents_of_common) ↦ done (sort (without parents_of_common common))
    ]
  ]

  -- The first loop of `prune_ancestors`.
  unfoldable pub push_heads : List ObjectId → Frontier → Result E Frontier
  push_heads [] f = done f
  push_heads (head ∷ heads) f = elim (parents head) [
    | inl e ↦ failed e
    | inr ps ↦ push_heads heads (push_parents ps f)
  ]

  -- Its second loop: all that is reached.
  unfoldable pub seen_loop : ℕ → List ObjectId → List ObjectId → Result E (List ObjectId)
  seen_loop fuel seen [] = done seen
  seen_loop zero seen (id ∷ queue) = out_of_fuel
  seen_loop (suc fuel) seen (id ∷ queue) = elim (parents id) [
    | inl e ↦ failed e
    | inr ps ↦
        let next = push_parents ps (record { seen = seen; queue = queue }) in
        seen_loop fuel next.seen next.queue
  ]

  unfoldable pub prune_ancestors : ℕ → List ObjectId → Result E (List ObjectId)
  prune_ancestors fuel heads =
      let unique = dedup (sort heads) in
      let walked : Result E (List ObjectId) =
        elim (push_heads unique (record { seen = []; queue = [] })) [
          | failed e ↦ failed e
          | out_of_fuel ↦ out_of_fuel
          | done f ↦ elim (seen_loop fuel f.seen f.queue) [
            | failed e ↦ failed e
            | out_of_fuel ↦ out_of_fuel
            | done seen ↦ done (without seen unique)
          ]
        ] in
      if leb (length unique) 1 then done unique else walked
