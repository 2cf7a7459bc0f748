-- ===== src/Store/Dag/Steps.antt =====
-- One round of a breadth-first walk: what was seen, what waits and what was visited.
use reldir.Base.{
  ℕ, ◌≡◌, ◌≤◌, ◌<◌, ◌+◌, arith, true, false, not, ◌&&◌, ◌||◌, List, [], ◌∷◌, ◌++◌, length,
  length-append,
}
use reldir.Store.Corruption.{ObjectId}
use reldir.Store.Text.{bytes_eq_iff, bytes_eq_refl}
use reldir.Store.IdSet.{holds, holds-append, without}
use reldir.Store.Dag.{Frontier, push_parents}

-- The frontier after a new parent.
abbrev pushed : ObjectId → Frontier → Frontier
pushed p f = record { seen = p ∷ f.seen; queue = f.queue ++ p ∷ [] }

pub holds-seen :
    (id : ObjectId) (ps : List ObjectId) (f : Frontier)
    → holds id (push_parents ps f).seen ≡ (holds id f.seen || holds id ps)
unfolding holds push_parents
holds-seen id [] f = ground arith
holds-seen id (p ∷ ps) f =
    grind (arith, bytes_eq_iff p id, holds-seen id ps f, holds-seen id ps (pushed p f))

pub holds-queue :
    (id : ObjectId) (ps : List ObjectId) (f : Frontier)
    → holds id (push_parents ps f).queue
      ≡ (holds id f.queue || holds id ps && not (holds id f.seen))
unfolding holds push_parents
holds-queue id [] f = ground arith
holds-queue id (p ∷ ps) f = grind (
  arith,
  bytes_eq_iff p id,
  holds-queue id ps f,
  holds-queue id ps (pushed p f),
  holds-append id f.queue (p ∷ []),
)

without-more :
    (p : ObjectId) (seen history : List ObjectId)
    → length (without (p ∷ seen) history) ≤ length (without seen history)
unfolding without holds
without-more p seen [] = omega arith
without-more p seen (x ∷ xs) = ground (arith, without-more p seen xs)

pub length-without : (set xs : List ObjectId) → length (without set xs) ≤ length xs
unfolding without
length-without set [] = omega arith
length-without set (x ∷ xs) = ground (arith, length-without set xs)

-- A new id that is in the history leaves fewer unseen.
pub without-new :
    (p : ObjectId) (seen history : List ObjectId)
    → holds p history ≡ true
    → holds p seen ≡ false
    → length (without (p ∷ seen) history) < length (without seen history)
unfolding without holds
without-new p seen [] h n = cc
without-new p seen (x ∷ xs) h n =
    grind (arith, without-more p seen xs, without-new p seen xs, bytes_eq_iff x p, bytes_eq_iff p x)

-- The rounds that are left: what waits, and what of the history was not seen.
unfoldable pub rounds : List ObjectId → Frontier → ℕ
rounds history f = length f.queue + length (without f.seen history)

pub rounds-push_parents :
    (history ps : List ObjectId) (f : Frontier)
    → ((p : ObjectId) → holds p ps ≡ true → holds p history ≡ true)
    → rounds history (push_parents ps f) ≤ rounds history f
unfolding rounds push_parents holds
rounds-push_parents history [] f h = omega arith
rounds-push_parents history (p ∷ ps) f h =
    let within : (q : ObjectId) → holds q ps ≡ true → holds q history ≡ true =
      λ q e. h q (ground (arith, e)) in
    grind (
      arith,
      bytes_eq_refl p,
      h,
      rounds-push_parents history ps f (λ q e. within q e),
      rounds-push_parents history ps (pushed p f) (λ q e. within q e),
      without-new p f.seen history,
      length-append f.queue (p ∷ []),
    )
