-- ===== src/Store/Dag/Fuel.antt =====
-- How many rounds a walk within a history takes.
use reldir.Base.{ℕ, suc, ◌≡◌, ◌≤◌, ◌⊎◌, refl, arith, inr, true, List, [], ◌∷◌, length}
use reldir.Store.Corruption.{ObjectId}
use reldir.Store.Text.{bytes_eq_iff, bytes_eq_refl}
use reldir.Store.IdSet.{holds}
use reldir.Store.Dag.{Frontier, push_parents}
use reldir.Store.Dag.Reach.{IsHistory}
use reldir.Store.Dag.Steps.{rounds, length-without, without-new, rounds-push_parents, holds-queue}

module _ {E : Type 0} (parents : ObjectId → E ⊎ List ObjectId) (history : List ObjectId)
    (whole : IsHistory parents history) where
  -- What a frontier within the history needs of the fuel.
  pub record Fits (fuel : ℕ) (f : Frontier) : Type 0 where
    pub enough : rounds history f ≤ fuel
    pub within : (id : ObjectId) → holds id f.queue ≡ true → holds id history ≡ true

  -- Without fuel nothing waits.
  pub waits-Fits :
      (id : ObjectId) (seen queue : List ObjectId)
      → ¬ Fits 0 (record { seen = seen; queue = id ∷ queue })
  unfolding rounds
  waits-Fits id seen queue h = omega (arith, h.enough)

  -- The id at the front loads, and its parents are in the history.
  pub front-Fits :
      (fuel : ℕ) (id : ObjectId) (seen queue : List ObjectId)
      → Fits fuel (record { seen = seen; queue = id ∷ queue })
      → (ps : List ObjectId) × ((parents id ≡ inr ps)
          × ((p : ObjectId) → holds p ps ≡ true → holds p history ≡ true))
  unfolding holds
  front-Fits fuel id seen queue h = whole id (h.within id (ground (arith, bytes_eq_refl id)))

  -- A round takes one unit of fuel.
  pub round-Fits :
      (fuel : ℕ) (id : ObjectId) (seen queue ps : List ObjectId)
      → ((p : ObjectId) → holds p ps ≡ true → holds p history ≡ true)
      → Fits (suc fuel) (record { seen = seen; queue = id ∷ queue })
      → Fits fuel (push_parents ps (record { seen = seen; queue = queue }))
  unfolding rounds holds
  round-Fits fuel id seen queue ps below h =
      let f : Frontier = record { seen = seen; queue = queue } in
      record {
        enough = omega (arith, h.enough, rounds-push_parents history ps f below);
        within = λ q e. grind (arith, e, holds-queue q ps f, below q, h.within q);
      }

  -- As much fuel as the history is long is enough from one of its revisions.
  pub start-Fits :
      (fuel : ℕ) (from : ObjectId)
      → holds from history ≡ true
      → length history ≤ fuel
      → Fits fuel (record { seen = from ∷ []; queue = from ∷ [] })
  unfolding rounds holds
  start-Fits fuel from e h = record {
    enough = omega (arith, h, length-without [] history, without-new from [] history e refl);
    within = λ id k. grind (arith, bytes_eq_iff from id, k, e);
  }
