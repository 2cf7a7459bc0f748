-- ===== src/Store/Dag/Reach.antt =====
-- What the walks of store/dag.rs look for: the revisions that a set of roots descends from.
use reldir.Base.{◌≡◌, ◌⊎◌, inr, true, List}
use reldir.Store.Corruption.{ObjectId}
use reldir.Store.IdSet.{holds}

-- Along parents, from one of the roots.
pub data Reaches {E : Type 0} (parents : ObjectId → E ⊎ List ObjectId) (roots : List ObjectId)
    : ObjectId → Type 0 where
  root : {r : ObjectId} → holds r roots ≡ true → Reaches parents roots r
  parent :
      {id p : ObjectId} {ps : List ObjectId}
      → Reaches parents roots id
      → parents id ≡ inr ps
      → holds p ps ≡ true
      → Reaches parents roots p

-- A strict ancestor, by one parent at least.
pub data Descends {E : Type 0} (parents : ObjectId → E ⊎ List ObjectId) (from : ObjectId)
    : ObjectId → Type 0 where
  first :
      {p : ObjectId} {ps : List ObjectId}
      → parents from ≡ inr ps
      → holds p ps ≡ true
      → Descends parents from p
  further :
      {id p : ObjectId} {ps : List ObjectId}
      → Descends parents from id
      → parents id ≡ inr ps
      → holds p ps ≡ true
      → Descends parents from p

-- A store that holds a whole history: every revision in it loads, and its parents are in it.
abbrev pub IsHistory : {E : Type 0} → (ObjectId → E ⊎ List ObjectId) → List ObjectId → Type 0
IsHistory parents history =
    (id : ObjectId)
    → holds id history ≡ true
    → (ps : List ObjectId) × ((parents id ≡ inr ps)
        × ((p : ObjectId) → holds p ps ≡ true → holds p history ≡ true))
