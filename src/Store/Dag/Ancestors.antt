-- ===== src/Store/Dag/Ancestors.antt =====
-- `ancestors` and `is_ancestor`.
use reldir.Base.{
  ℕ, zero, suc, ◌≡◌, ◌≤◌, ◌⊎◌, ◌↔◌, refl, arith, inl, inr, Bool, true, false, List, [], ◌∷◌, ◌++◌,
  length, Bool-cases,
}
use reldir.Store.Corruption.{ObjectId}
use reldir.Store.Text.{bytes_eq}
use reldir.Store.IdSet.{holds, holds-append}
use reldir.Store.Dag.{done, push_parents, ancestors_loop, ancestors, is_ancestor_loop, is_ancestor}
use reldir.Store.Dag.Reach.{Reaches, IsHistory}
use reldir.Store.Dag.Walk.{IsWalk, start-IsWalk, round-IsWalk, visited-Reaches}
use reldir.Store.Dag.Fuel.{Fits, waits-Fits, front-Fits, round-Fits, start-Fits}

module _ {E : Type 0} (parents : ObjectId → E ⊎ List ObjectId) (history : List ObjectId)
    (whole : IsHistory parents history) where
  pub ancestors_loop-visits :
      (roots : List ObjectId) (fuel : ℕ) (seen queue out : List ObjectId)
      → IsWalk parents roots (record { seen = seen; queue = queue }) out
      → Fits parents history whole fuel (record { seen = seen; queue = queue })
      → (all : List ObjectId) × ((ancestors_loop parents fuel seen queue out ≡ done all)
          × ((id : ObjectId) → (holds id all ≡ true) ↔ Reaches parents roots id))
  unfolding ancestors_loop
  ancestors_loop-visits roots fuel seen [] out w h =
      (out, (refl, visited-Reaches parents roots seen out w))
  ancestors_loop-visits roots zero seen (id ∷ queue) out w h =
      absurd (waits-Fits parents history whole id seen queue h)
  ancestors_loop-visits roots (suc fuel) seen (id ∷ queue) out w h =
      let (ps, (e, below)) = front-Fits parents history whole (suc fuel) id seen queue h in
      let next = push_parents ps (record { seen = seen; queue = queue }) in
      let (all, (runs, reaches)) =
        ancestors_loop-visits roots fuel next.seen next.queue (out ++ id ∷ [])
          (round-IsWalk parents roots seen queue out id ps w e)
          (round-Fits parents history whole fuel id seen queue ps below h) in
      (all, (rw (ancestors_loop, e) runs, reaches))

  -- In a store that holds the whole history of a revision, with as much fuel as the history is
  -- long, `ancestors` gives a list that holds exactly the revisions reached from it by parents.
  pub ancestors-Reaches :
      (fuel : ℕ) (from : ObjectId)
      → holds from history ≡ true
      → length history ≤ fuel
      → (all : List ObjectId) × ((ancestors parents fuel from ≡ done all)
          × ((id : ObjectId) → (holds id all ≡ true) ↔ Reaches parents (from ∷ []) id))
  unfolding ancestors
  ancestors-Reaches fuel from e h =
      ancestors_loop-visits (from ∷ []) fuel (from ∷ []) (from ∷ []) []
        (start-IsWalk parents (from ∷ []) (from ∷ []) (λ id. refl))
        (start-Fits parents history whole fuel from e h)

  is_ancestor_loop-Reaches :
      (roots : List ObjectId) (ancestor : ObjectId) (fuel : ℕ) (seen queue out : List ObjectId)
      → IsWalk parents roots (record { seen = seen; queue = queue }) out
      → Fits parents history whole fuel (record { seen = seen; queue = queue })
      → holds ancestor out ≡ false
      → (found : Bool) × ((is_ancestor_loop parents fuel ancestor seen queue ≡ done found)
          × ((found ≡ true) ↔ Reaches parents roots ancestor))
  unfolding is_ancestor_loop holds
  is_ancestor_loop-Reaches roots ancestor fuel seen [] out w h n =
      let reached = (visited-Reaches parents roots seen out w ancestor).1 in
      (false, (refl, (λ e. cc, λ r. grind (arith, reached r, n))))
  is_ancestor_loop-Reaches roots ancestor zero seen (id ∷ queue) out w h n =
      absurd (waits-Fits parents history whole id seen queue h)
  is_ancestor_loop-Reaches roots ancestor (suc fuel) seen (id ∷ queue) out w h n =
      elim (Bool-cases (bytes_eq id ancestor)) [
        | inl y ↦ (
          true,
          (
            rw (is_ancestor_loop, y) refl,
            (λ e. w.sound ancestor (w.waiting ancestor (ground (arith, y))), λ r. refl),
          ),
        )
        | inr m ↦
            let (ps, (e, below)) = front-Fits parents history whole (suc fuel) id seen queue h in
            let next = push_parents ps (record { seen = seen; queue = queue }) in
            let (found, (runs, reaches)) =
              is_ancestor_loop-Reaches roots ancestor fuel next.seen next.queue (out ++ id ∷ [])
                (round-IsWalk parents roots seen queue out id ps w e)
                (round-Fits parents history whole fuel id seen queue ps below h)
                (grind (arith, holds-append ancestor out (id ∷ []), n, m)) in
            (found, (rw (is_ancestor_loop, m, e) runs, reaches))
      ]

  -- In a store that holds the whole history of `of`, with as much fuel as the history is long,
  -- `is_ancestor` answers, and answers yes exactly when `ancestor` is reached from `of` by parents.
  pub is_ancestor-Reaches :
      (fuel : ℕ) (ancestor of : ObjectId)
      → holds of history ≡ true
      → length history ≤ fuel
      → (found : Bool) × ((is_ancestor parents fuel ancestor of ≡ done found)
          × ((found ≡ true) ↔ Reaches parents (of ∷ []) ancestor))
  unfolding is_ancestor holds
  is_ancestor-Reaches fuel ancestor of e h =
      is_ancestor_loop-Reaches (of ∷ []) ancestor fuel (of ∷ []) (of ∷ []) []
        (start-IsWalk parents (of ∷ []) (of ∷ []) (λ id. refl))
        (start-Fits parents history whole fuel of e h) refl
