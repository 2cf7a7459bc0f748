-- ===== src/Store/Dag/Common.antt =====
-- The second loop of `merge_base`: the common ancestors and their parents.
use reldir.Base.{
  ℕ, zero, suc, ◌≡◌, ◌≤◌, ◌⊎◌, ◌↔◌, refl, sym, ap, ◌∙◌, arith, inl, inr, true, false, ◌&&◌, List,
  [], ◌∷◌, ◌++◌, length, Bool-cases,
}
use reldir.Store.Corruption.{ObjectId}
use reldir.Store.Text.{bytes_eq, bytes_eq_iff, bytes_eq_refl}
use reldir.Store.IdSet.{holds, holds-append}
use reldir.Store.Dag.{Result, done, push_parents, common_loop}
use reldir.Store.Dag.Reach.{Reaches, IsHistory}
use reldir.Store.Dag.Walk.{IsWalk, start-IsWalk, round-IsWalk, visited-Reaches}
use reldir.Store.Dag.Fuel.{Fits, waits-Fits, front-Fits, round-Fits, start-Fits}

-- The two sets after `out` was visited: those of it that are in `of_a`, and their parents.
pub record IsCommon {E : Type 0} (parents : ObjectId → E ⊎ List ObjectId)
    (of_a out common parents_of_common : List ObjectId) : Type 0 where
  pub both : (id : ObjectId) → holds id common ≡ (holds id out && holds id of_a)
  pub dominated :
      (p : ObjectId)
      → holds p parents_of_common ≡ true
      → (c : ObjectId) × ((ps : List ObjectId) × ((holds c common ≡ true)
            × ((parents c ≡ inr ps) × (holds p ps ≡ true))))
  pub dominates :
      (c : ObjectId) (ps : List ObjectId) (p : ObjectId)
      → holds c common ≡ true
      → parents c ≡ inr ps
      → holds p ps ≡ true
      → holds p parents_of_common ≡ true

module _ {E : Type 0} (parents : ObjectId → E ⊎ List ObjectId) (of_a : List ObjectId) where
  -- A visited id that is in `of_a` joins the common ancestors, and its parents are dominated.
  joins-IsCommon :
      (out common pc : List ObjectId) (id : ObjectId) (ps : List ObjectId)
      → parents id ≡ inr ps
      → holds id of_a ≡ true
      → IsCommon parents of_a out common pc
      → IsCommon parents of_a (out ++ id ∷ []) (id ∷ common) (ps ++ pc)
  unfolding holds
  joins-IsCommon out common pc id ps e y s = record {
    both = λ q. grind (arith, y, bytes_eq_iff id q, holds-append q out (id ∷ []), s.both q);
    dominated = λ p h. elim (Bool-cases (holds p ps)) [
      | inl k ↦ (id, (ps, (ground (arith, bytes_eq_refl id), (e, k))))
      | inr n ↦
          let (c, (qs, (i, (f, j)))) = s.dominated p (grind (arith, n, h, holds-append p ps pc)) in
          (c, (qs, (grind (arith, i), (f, j))))
    ];
    dominates = λ c qs p h f j. elim (Bool-cases (bytes_eq id c)) [
      | inl k ↦
          let same : inr ps ≡ inr qs = sym e ∙ ap parents ((bytes_eq_iff id c).0 k) ∙ f in
          grind (arith, same, j, holds-append p ps pc)
      | inr n ↦ grind (arith, n, h, holds-append p ps pc, s.dominates c qs p, f, j)
    ];
  }

  -- One that is not leaves them as they are.
  stays-IsCommon :
      (out common pc : List ObjectId) (id : ObjectId)
      → holds id of_a ≡ false
      → IsCommon parents of_a out common pc
      → IsCommon parents of_a (out ++ id ∷ []) common pc
  unfolding holds
  stays-IsCommon out common pc id n s = record {
    both = λ q. grind (arith, n, bytes_eq_iff id q, holds-append q out (id ∷ []), s.both q);
    dominated = s.dominated;
    dominates = s.dominates;
  }

-- The sets before the first round.
none-IsCommon :
    {E : Type 0} (parents : ObjectId → E ⊎ List ObjectId) (of_a : List ObjectId)
    → IsCommon parents of_a [] [] []
unfolding holds
none-IsCommon parents of_a = record {
  both = λ id. refl;
  dominated = λ p h. cc;
  dominates = λ c ps p h. cc;
}

module _ {E : Type 0} (parents : ObjectId → E ⊎ List ObjectId) (history : List ObjectId)
    (whole : IsHistory parents history) (of_a roots : List ObjectId) where
  -- What the loop ends with.
  pub record Ends (run : Result E (List ObjectId × List ObjectId)) : Type 0 where
    pub common : List ObjectId
    pub parents_of_common : List ObjectId
    pub visited : List ObjectId
    pub runs : run ≡ done (common, parents_of_common)
    pub reaches : (id : ObjectId) → (holds id visited ≡ true) ↔ Reaches parents roots id
    pub sets : IsCommon parents of_a visited common parents_of_common

  Ends-same : (r s : Result E (List ObjectId × List ObjectId)) → r ≡ s → Ends s → Ends r
  Ends-same r s e ends = record {
    common = ends.common;
    parents_of_common = ends.parents_of_common;
    visited = ends.visited;
    runs = e ∙ ends.runs;
    reaches = ends.reaches;
    sets = ends.sets;
  }

  common_loop-Ends :
      (fuel : ℕ) (seen queue out common pc : List ObjectId)
      → IsWalk parents roots (record { seen = seen; queue = queue }) out
      → Fits parents history whole fuel (record { seen = seen; queue = queue })
      → IsCommon parents of_a out common pc
      → Ends (common_loop parents fuel of_a seen queue common pc)
  unfolding common_loop
  common_loop-Ends fuel seen [] out common pc w h s = record {
    common = common;
    parents_of_common = pc;
    visited = out;
    runs = refl;
    reaches = visited-Reaches parents roots seen out w;
    sets = s;
  }
  common_loop-Ends zero seen (id ∷ queue) out common pc w h s =
      absurd (waits-Fits parents history whole id seen queue h)
  common_loop-Ends (suc fuel) seen (id ∷ queue) out common pc w h s =
      let (ps, (e, below)) = front-Fits parents history whole (suc fuel) id seen queue h in
      let next = push_parents ps (record { seen = seen; queue = queue }) in
      let w' = round-IsWalk parents roots seen queue out id ps w e in
      let h' = round-Fits parents history whole fuel id seen queue ps below h in
      let run = common_loop parents (suc fuel) of_a seen (id ∷ queue) common pc in
      elim (Bool-cases (holds id of_a)) [
        | inl y ↦ Ends-same run _ (rw (common_loop, e, y) refl) (
            common_loop-Ends fuel next.seen next.queue (out ++ id ∷ []) (id ∷ common) (ps ++ pc) w'
              h' (joins-IsCommon parents of_a out common pc id ps e y s))
        | inr n ↦ Ends-same run _ (rw (common_loop, e, n) refl) (
            common_loop-Ends fuel next.seen next.queue (out ++ id ∷ []) common pc w' h'
              (stays-IsCommon parents of_a out common pc id n s))
      ]

  pub start-Ends :
      (fuel : ℕ) (b : ObjectId)
      → ((id : ObjectId) → holds id (b ∷ []) ≡ holds id roots)
      → holds b history ≡ true
      → length history ≤ fuel
      → Ends (common_loop parents fuel of_a (b ∷ []) (b ∷ []) [] [])
  start-Ends fuel b same e h =
      common_loop-Ends fuel (b ∷ []) (b ∷ []) [] [] [] (start-IsWalk parents roots (b ∷ []) same)
        (start-Fits parents history whole fuel b e h) (none-IsCommon parents of_a)
