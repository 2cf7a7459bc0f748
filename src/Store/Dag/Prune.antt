-- ===== src/Store/Dag/Prune.antt =====
-- `prune_ancestors` against descent between the heads (store/dag.rs).
use reldir.Base.{
  ℕ, zero, suc, ◌≡◌, ◌≤◌, ◌⊎◌, ◌↔◌, refl, sym, subst, ◌∙◌, arith, inl, inr, leb, true, not, ◌&&◌,
  List, [], ◌∷◌, ◌++◌, length, Bool-cases,
}
use reldir.Store.Corruption.{ObjectId}
use reldir.Store.IdSet.{
  holds, holds-sort, holds-dedup, holds-without, holds-one, without, sort, dedup,
}
use reldir.Store.Dag.{done, Frontier, push_parents, push_heads, seen_loop, prune_ancestors}
use reldir.Store.Dag.Reach.{Reaches, Descends, IsHistory, root, parent, first, further}
use reldir.Store.Dag.Walk.{IsWalk, roots-IsWalk, round-IsWalk, visited-Reaches}
use reldir.Store.Dag.Steps.{rounds, length-without}
use reldir.Store.Dag.Fuel.{Fits, waits-Fits, front-Fits, round-Fits}
use reldir.Store.Dag.Heads.{IsParent, push_heads-Pushed}

module _ {E : Type 0} (parents : ObjectId → E ⊎ List ObjectId) (history : List ObjectId)
    (whole : IsHistory parents history) where
  seen_loop-Reaches :
      (roots : List ObjectId) (fuel : ℕ) (seen queue out : List ObjectId)
      → IsWalk parents roots (record { seen = seen; queue = queue }) out
      → Fits parents history whole fuel (record { seen = seen; queue = queue })
      → (all : List ObjectId) × ((seen_loop parents fuel seen queue ≡ done all)
          × ((id : ObjectId) → (holds id all ≡ true) ↔ Reaches parents roots id))
  unfolding seen_loop
  seen_loop-Reaches roots fuel seen [] out w h = (
    seen,
    (
      refl,
      λ id. (w.sound id, λ r. w.visited id ((visited-Reaches parents roots seen out w id).1 r)),
    ),
  )
  seen_loop-Reaches roots zero seen (id ∷ queue) out w h =
      absurd (waits-Fits parents history whole id seen queue h)
  seen_loop-Reaches roots (suc fuel) seen (id ∷ queue) out w h =
      let (ps, (e, below)) = front-Fits parents history whole (suc fuel) id seen queue h in
      let next = push_parents ps (record { seen = seen; queue = queue }) in
      let (all, (runs, reaches)) =
        seen_loop-Reaches roots fuel next.seen next.queue (out ++ id ∷ [])
          (round-IsWalk parents roots seen queue out id ps w e)
          (round-Fits parents history whole fuel id seen queue ps below h) in
      (all, (rw (seen_loop, e) runs, reaches))

  -- What is reached from the parents of heads descends from one of the heads.
  abbrev IsBelow : List ObjectId → ObjectId → Type 0
  IsBelow heads id = (h : ObjectId) × ((holds h heads ≡ true) × Descends parents h id)

  Reaches-IsBelow :
      (heads roots : List ObjectId)
      → ((p : ObjectId) → holds p roots ≡ true → IsParent parents history whole heads p)
      → {id : ObjectId} → Reaches parents roots id
      → IsBelow heads id
  unfolding IsParent
  Reaches-IsBelow heads roots from (root {r} e) =
      let (h, (ps, (i, (g, j)))) = from r e in (h, (i, first g j))
  Reaches-IsBelow heads roots from (parent r e j) =
      let (h, (i, d)) = Reaches-IsBelow heads roots from r in (h, (i, further d e j))

  Descends-Reaches :
      (heads roots : List ObjectId)
      → ((p : ObjectId) → IsParent parents history whole heads p → holds p roots ≡ true)
      → (h : ObjectId) → holds h heads ≡ true
      → {id : ObjectId} → Descends parents h id
      → Reaches parents roots id
  unfolding IsParent
  Descends-Reaches heads roots takes h i (first {p} {ps} e j) =
      root (takes p (h, (ps, (i, (e, j)))))
  Descends-Reaches heads roots takes h i (further d e j) =
      parent (Descends-Reaches heads roots takes h i d) e j

  -- The two loops find what descends from the heads.
  walked :
      (fuel : ℕ) (heads : List ObjectId)
      → ((h : ObjectId) → holds h heads ≡ true → holds h history ≡ true)
      → length history ≤ fuel
      → (f : Frontier) × ((seen : List ObjectId) × ((push_heads parents heads
                (record { seen = []; queue = [] })
              ≡ done f)
            × ((seen_loop parents fuel f.seen f.queue ≡ done seen)
                × ((id : ObjectId) → (holds id seen ≡ true) ↔ IsBelow heads id))))
  unfolding holds rounds
  walked fuel heads inside h =
      let pushed =
        push_heads-Pushed parents history whole heads [] (record { seen = []; queue = [] }) fuel
          (λ p. refl) (λ p. refl) (λ p e. cc) inside
          (omega (arith, h, length-without [] history)) in
      let f = pushed.frontier in
      let (seen, (runs, reaches)) =
        seen_loop-Reaches pushed.all fuel f.seen f.queue []
          (roots-IsWalk parents pushed.all f pushed.seen pushed.queue)
          (record {
            enough = pushed.enough;
            within = λ id e. pushed.within id (sym (pushed.queue id) ∙ e);
          }) in
      let from : (p : ObjectId)
          → holds p pushed.all ≡ true
          → IsParent parents history whole heads p =
        λ p e. elim (pushed.from p e) [ inl k ↦ absurd (cc) | inr k ↦ k ] in
      (
        f,
        (
          seen,
          (
            pushed.runs,
            (
              runs,
              λ id. (
                λ e. Reaches-IsBelow heads pushed.all from ((reaches id).0 e),
                λ (k, (i, d)).
                    (reaches id).1 (Descends-Reaches heads pushed.all pushed.takes k i d),
              ),
            ),
          ),
        ),
      )

  -- Where no revision is its own strict ancestor -- ids are content hashes -- and the store holds the
  -- whole history of the heads, with as much fuel as the history is long, `prune_ancestors` gives a
  -- list that holds exactly the heads that are not strict ancestors of a head.
  pub prune_ancestors-keeps :
      ((id : ObjectId) → ¬ Descends parents id id)
      → (fuel : ℕ) (heads : List ObjectId)
      → ((h : ObjectId) → holds h heads ≡ true → holds h history ≡ true)
      → length history ≤ fuel
      → (kept : List ObjectId) × ((prune_ancestors parents fuel heads ≡ done kept)
          × ((id : ObjectId)
              → (holds id kept ≡ true) ↔ (
                  (holds id heads ≡ true)
                  × ((h : ObjectId) → holds h heads ≡ true → ¬ Descends parents h id))))
  unfolding prune_ancestors
  prune_ancestors-keeps acyclic fuel heads inside h =
      let unique = dedup (sort heads) in
      let same : (id : ObjectId) → holds id unique ≡ holds id heads =
        λ id. holds-dedup id (sort heads) ∙ holds-sort id heads in
      elim (Bool-cases (leb (length unique) 1)) [
        | inl y ↦ (
          unique,
          (
            rw (prune_ancestors, y) refl,
            λ id. (
              λ e. (
                sym (same id) ∙ e,
                λ k i d. acyclic id (
                    subst (λ x. Descends parents x id)
                      (holds-one k id unique (ground (arith, y)) (same k ∙ i) e) d),
              ),
              λ (e, _). same id ∙ e,
            ),
          ),
        )
        | inr n ↦
            let (f, (seen, (pushes, (runs, below)))) =
              walked fuel unique (λ k e. inside k (sym (same k) ∙ e)) h in
            (
              without seen unique,
              (
                rw (prune_ancestors, n, pushes, runs) refl,
                λ id. (
                  λ e.
                      let left : (holds id unique && not (holds id seen)) ≡ true =
                        sym (holds-without id seen unique) ∙ e in
                      let held : holds id unique ≡ true = ground (arith, left) in
                      (
                        sym (same id) ∙ held,
                        λ k i d.
                            let hit : holds id seen ≡ true = (below id).1 (k, (same k ∙ i, d)) in
                            grind (arith, left, hit),
                      ),
                  λ (e, free). elim (Bool-cases (holds id seen)) [
                    | inl y ↦
                        let (k, (i, d)) = (below id).0 y in absurd (free k (sym (same k) ∙ i) d)
                    | inr m ↦ grind (arith, m, e, same id, holds-without id seen unique)
                  ],
                ),
              ),
            )
      ]
