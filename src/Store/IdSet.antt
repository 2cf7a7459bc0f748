-- ===== src/Store/IdSet.antt =====
-- Sets of object ids: what the walks of store/dag.rs use of `HashSet`, and `sort_unstable`, `dedup`.
use reldir.Base.{
  ◌≤◌, length, sym, ◌∙◌, true, false, ◌≡◌, refl, arith, Bool, not, ◌&&◌, ◌||◌, List, [], ◌∷◌, ◌++◌,
  if◌then◌else◌,
}
use reldir.Store.Corruption.{ObjectId}
use reldir.Store.Text.{bytes_eq, bytes_lt, bytes_eq_iff}

-- `contains`
unfoldable pub holds : ObjectId → List ObjectId → Bool
holds id [] = false
holds id (x ∷ xs) = bytes_eq x id || holds id xs

-- `Iterator::filter(|id| !set.contains(id))`, also `HashSet::difference`.
unfoldable pub without : List ObjectId → List ObjectId → List ObjectId
without set [] = []
without set (x ∷ xs) = let rest = without set xs in if holds x set then rest else x ∷ rest

insert_sorted : ObjectId → List ObjectId → List ObjectId
insert_sorted id [] = id ∷ []
insert_sorted id (x ∷ xs) =
    let rest = insert_sorted id xs in if bytes_lt x id then x ∷ rest else id ∷ x ∷ xs

-- `sort_unstable`
unfoldable pub sort : List ObjectId → List ObjectId
unfolding insert_sorted
sort [] = []
sort (x ∷ xs) = insert_sorted x (sort xs)

-- `Vec::dedup`
unfoldable pub dedup : List ObjectId → List ObjectId
dedup [] = []
dedup (x ∷ []) = x ∷ []
dedup (x ∷ y ∷ ys) = let rest = dedup (y ∷ ys) in if bytes_eq x y then rest else x ∷ rest

pub holds-append :
    (id : ObjectId) (xs ys : List ObjectId) → holds id (xs ++ ys) ≡ (holds id xs || holds id ys)
unfolding holds
holds-append id [] ys = refl
holds-append id (x ∷ xs) ys = ground (arith, holds-append id xs ys)

pub holds-without :
    (id : ObjectId) (set xs : List ObjectId)
    → holds id (without set xs) ≡ (holds id xs && not (holds id set))
unfolding holds without
holds-without id set [] = refl
holds-without id set (x ∷ xs) = grind (arith, bytes_eq_iff x id, holds-without id set xs)

holds-insert_sorted :
    (id x : ObjectId) (xs : List ObjectId)
    → holds id (insert_sorted x xs) ≡ (bytes_eq x id || holds id xs)
unfolding holds insert_sorted
holds-insert_sorted id x [] = refl
holds-insert_sorted id x (y ∷ ys) = ground (arith, holds-insert_sorted id x ys)

pub holds-sort : (id : ObjectId) (xs : List ObjectId) → holds id (sort xs) ≡ holds id xs
unfolding holds sort
holds-sort id [] = refl
holds-sort id (x ∷ xs) = ground (arith, holds-insert_sorted id x (sort xs), holds-sort id xs)

pub holds-dedup : (id : ObjectId) (xs : List ObjectId) → holds id (dedup xs) ≡ holds id xs
unfolding holds dedup
holds-dedup id [] = refl
holds-dedup id (x ∷ []) = refl
holds-dedup id (x ∷ y ∷ ys) = grind (arith, bytes_eq_iff x y, holds-dedup id (y ∷ ys))

-- Two ids of a list of one are the same.
pub holds-one :
    (a b : ObjectId) (xs : List ObjectId)
    → length xs ≤ 1
    → holds a xs ≡ true
    → holds b xs ≡ true
    → a ≡ b
unfolding holds
holds-one a b [] h i j = cc
holds-one a b (x ∷ []) h i j =
    sym ((bytes_eq_iff x a).0 (ground (arith, i))) ∙ (bytes_eq_iff x b).0 (ground (arith, j))
holds-one a b (x ∷ y ∷ ys) h i j = absurd (omega (arith, h))
