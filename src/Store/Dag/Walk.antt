-- ===== src/Store/Dag/Walk.antt =====
-- The invariant of the breadth-first walks of store/dag.rs.
use reldir.Base.{
  ◌≡◌, ◌⊎◌, ◌↔◌, sym, ap, ◌∙◌, arith, inl, inr, true, ◌||◌, List, [], ◌∷◌, ◌++◌, Bool-cases,
}
use reldir.Store.Corruption.{ObjectId}
use reldir.Store.Text.{bytes_eq, bytes_eq_iff, bytes_eq_refl}
use reldir.Store.IdSet.{holds, holds-append}
use reldir.Store.Dag.{Frontier, push_parents}
use reldir.Store.Dag.Reach.{Reaches, root, parent}
use reldir.Store.Dag.Steps.{holds-seen, holds-queue}

-- A walk from these roots that has visited `out`: what was seen is reached from the roots; all of
-- it waits or was visited; and what was visited has its parents seen.
pub record IsWalk {E : Type 0} (parents : ObjectId → E ⊎ List ObjectId) (roots : List ObjectId)
    (f : Frontier) (out : List ObjectId) : Type 0 where
  pub sound : (id : ObjectId) → holds id f.seen ≡ true → Reaches parents roots id
  pub waiting : (id : ObjectId) → holds id f.queue ≡ true → holds id f.seen ≡ true
  pub visited : (id : ObjectId) → holds id out ≡ true → holds id f.seen ≡ true
  pub covered : (id : ObjectId) → holds id f.seen ≡ true → (holds id f.queue || holds id out) ≡ true
  pub rooted : (id : ObjectId) → holds id roots ≡ true → holds id f.seen ≡ true
  pub closed :
      (id : ObjectId) (ps : List ObjectId) (p : ObjectId)
      → holds id out ≡ true
      → parents id ≡ inr ps
      → holds p ps ≡ true
      → holds p f.seen ≡ true

module _ {E : Type 0} (parents : ObjectId → E ⊎ List ObjectId) (roots : List ObjectId) where
  -- A walk before its first round, where the roots were seen and wait.
  pub roots-IsWalk :
      (f : Frontier)
      → ((id : ObjectId) → holds id f.seen ≡ holds id roots)
      → ((id : ObjectId) → holds id f.queue ≡ holds id roots)
      → IsWalk parents roots f []
  unfolding holds
  roots-IsWalk f same waits = record {
    sound = λ id e. root (sym (same id) ∙ e);
    waiting = λ id e. same id ∙ sym (waits id) ∙ e;
    visited = λ id e. cc;
    covered = λ id e. grind (arith, e, same id, waits id);
    rooted = λ id e. same id ∙ e;
    closed = λ id ps p e. cc;
  }

  pub start-IsWalk :
      (seen : List ObjectId)
      → ((id : ObjectId) → holds id seen ≡ holds id roots)
      → IsWalk parents roots (record { seen = seen; queue = seen }) []
  start-IsWalk seen same = roots-IsWalk (record { seen = seen; queue = seen }) same same

  -- A round keeps the invariant: the id at the front is visited, and its parents are pushed.
  pub round-IsWalk :
      (seen queue out : List ObjectId) (id : ObjectId) (ps : List ObjectId)
      → IsWalk parents roots (record { seen = seen; queue = id ∷ queue }) out
      → parents id ≡ inr ps
      → IsWalk parents roots
          (push_parents ps (record { seen = seen; queue = queue }))
          (out ++ id ∷ [])
  unfolding holds
  round-IsWalk seen queue out id ps w e =
      let f : Frontier = record { seen = seen; queue = queue } in
      record {
        sound = λ q h. elim (Bool-cases (holds q seen)) [
          | inl y ↦ w.sound q y
          | inr n ↦
              parent (w.sound id (w.waiting id (ground (arith, bytes_eq_refl id)))) e
                (grind (arith, h, n, holds-seen q ps f))
        ];
        waiting = λ q h. grind (arith, h, holds-seen q ps f, holds-queue q ps f, w.waiting q);
        visited = λ q h. grind (
          arith,
          h,
          holds-append q out (id ∷ []),
          holds-seen q ps f,
          w.visited q,
          w.waiting q,
          bytes_eq_iff id q,
          bytes_eq_refl id,
        );
        covered = λ q h. grind (
          arith,
          h,
          holds-append q out (id ∷ []),
          holds-seen q ps f,
          holds-queue q ps f,
          w.covered q,
        );
        rooted = λ q h. grind (arith, holds-seen q ps f, w.rooted q h);
        closed = λ q qs p h k l. elim (Bool-cases (bytes_eq id q)) [
          | inl y ↦
              let same : inr ps ≡ inr qs = sym e ∙ ap parents ((bytes_eq_iff id q).0 y) ∙ k in
              grind (arith, same, l, holds-seen p ps f)
          | inr n ↦
              grind (
                arith,
                n,
                holds-append q out (id ∷ []),
                h,
                k,
                l,
                w.closed q qs p,
                holds-seen p ps f,
              )
        ];
      }

  reached :
      (seen out : List ObjectId)
      → IsWalk parents roots (record { seen = seen; queue = [] }) out
      → {id : ObjectId} → Reaches parents roots id
      → holds id out ≡ true
  unfolding holds
  reached seen out w (root {r} e) = w.covered r (w.rooted r e)
  reached seen out w (parent {id} {p} {ps} r e h) =
      w.covered p (w.closed id ps p (reached seen out w r) e h)

  -- Where nothing waits, the visited are the reached.
  pub visited-Reaches :
      (seen out : List ObjectId)
      → IsWalk parents roots (record { seen = seen; queue = [] }) out
      → (id : ObjectId) → (holds id out ≡ true) ↔ Reaches parents roots id
  visited-Reaches seen out w id = (λ h. w.sound id (w.visited id h), λ r. reached seen out w r)
