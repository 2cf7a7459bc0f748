-- ===== src/Store/Dag/Heads.antt =====
-- The first loop of `prune_ancestors`: the parents of the heads.
use reldir.Base.{
  ℕ, ◌≡◌, ◌≤◌, ◌⊎◌, refl, sym, ap, ◌∙◌, arith, inl, inr, true, List, [], ◌∷◌, ◌++◌, Bool-cases,
}
use reldir.Store.Corruption.{ObjectId}
use reldir.Store.Text.{bytes_eq, bytes_eq_iff, bytes_eq_refl}
use reldir.Store.IdSet.{holds, holds-append}
use reldir.Store.Dag.{Result, done, Frontier, push_parents, push_heads}
use reldir.Store.Dag.Reach.{IsHistory}
use reldir.Store.Dag.Steps.{rounds, rounds-push_parents, holds-seen, holds-queue}

module _ {E : Type 0} (parents : ObjectId → E ⊎ List ObjectId) (history : List ObjectId)
    (whole : IsHistory parents history) where
  -- A parent of one of these heads.
  unfoldable pub IsParent : List ObjectId → ObjectId → Type 0
  IsParent heads p =
      (h : ObjectId) × ((ps : List ObjectId) × ((holds h heads ≡ true)
          × ((parents h ≡ inr ps) × (holds p ps ≡ true))))

  -- What the loop ends with: the frontier holds these roots, seen and waiting; they are in the
  -- history; and they are the roots it began with and the parents of the heads.
  pub record Pushed (heads roots : List ObjectId) (run : Result E Frontier) (fuel : ℕ)
      : Type 0 where
    pub frontier : Frontier
    pub all : List ObjectId
    pub runs : run ≡ done frontier
    pub seen : (p : ObjectId) → holds p frontier.seen ≡ holds p all
    pub queue : (p : ObjectId) → holds p frontier.queue ≡ holds p all
    pub within : (p : ObjectId) → holds p all ≡ true → holds p history ≡ true
    pub enough : rounds history frontier ≤ fuel
    pub from : (p : ObjectId) → holds p all ≡ true → (holds p roots ≡ true) ⊎ IsParent heads p
    pub keeps : (p : ObjectId) → holds p roots ≡ true → holds p all ≡ true
    pub takes : (p : ObjectId) → IsParent heads p → holds p all ≡ true

  pub push_heads-Pushed :
      (heads roots : List ObjectId) (f : Frontier) (fuel : ℕ)
      → ((p : ObjectId) → holds p f.seen ≡ holds p roots)
      → ((p : ObjectId) → holds p f.queue ≡ holds p roots)
      → ((p : ObjectId) → holds p roots ≡ true → holds p history ≡ true)
      → ((h : ObjectId) → holds h heads ≡ true → holds h history ≡ true)
      → rounds history f ≤ fuel
      → Pushed heads roots (push_heads parents heads f) fuel
  unfolding push_heads holds IsParent
  push_heads-Pushed [] roots f fuel seen queue within inside enough = record {
    frontier = f;
    all = roots;
    runs = refl;
    seen = seen;
    queue = queue;
    within = within;
    enough = enough;
    from = λ p e. inl e;
    keeps = λ p e. e;
    takes = λ p (h, (ps, (e, _))). cc;
  }
  push_heads-Pushed (head ∷ heads) roots f fuel seen queue within inside enough =
      let (ps, (e, below)) = whole head (inside head (ground (arith, bytes_eq_refl head))) in
      let rest =
        push_heads-Pushed heads (roots ++ ps) (push_parents ps f) fuel
          (λ p. grind (arith, seen p, holds-seen p ps f, holds-append p roots ps))
          (λ p. grind (arith, seen p, queue p, holds-queue p ps f, holds-append p roots ps))
          (λ p h. grind (arith, h, within p, below p, holds-append p roots ps))
          (λ h i. inside h (ground (arith, i)))
          (omega (arith, enough, rounds-push_parents history ps f below)) in
      record {
        frontier = rest.frontier;
        all = rest.all;
        runs = rw (push_heads, e) rest.runs;
        seen = rest.seen;
        queue = rest.queue;
        within = rest.within;
        enough = rest.enough;
        from = λ p h. elim (rest.from p h) [
          | inl k ↦ elim (Bool-cases (holds p roots)) [
            | inl y ↦ inl y
            | inr n ↦ inr (
              head,
              (
                ps,
                (
                  ground (arith, bytes_eq_refl head),
                  (e, grind (arith, n, k, holds-append p roots ps)),
                ),
              ),
            )
          ]
          | inr (h, (qs, (i, (g, j)))) ↦ inr (h, (qs, (grind (arith, i), (g, j))))
        ];
        keeps = λ p h. rest.keeps p (grind (arith, h, holds-append p roots ps));
        takes = λ p (h, (qs, (i, (g, j)))). elim (Bool-cases (bytes_eq head h)) [
          | inl y ↦
              let same : inr ps ≡ inr qs = sym e ∙ ap parents ((bytes_eq_iff head h).0 y) ∙ g in
              rest.keeps p (grind (arith, same, j, holds-append p roots ps))
          | inr n ↦ rest.takes p (h, (qs, (grind (arith, n, i), (g, j))))
        ];
      }
