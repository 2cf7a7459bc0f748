-- ===== src/Journal/Atomic.antt =====
-- `commit` (engine/journal.rs) up to and past its commit point: what an error says.
use reldir.Base.{sym, ◌∙◌, ◌≡◌, ◌≢◌, ◌⊎◌, inl, inr, refl, [], ◌∷◌, ◌++◌}
use mathlib.Core.List.{append-nil, append_assoc}
use reldir.Store.Corruption.{Bytes}
use reldir.Overlay.{FilePath}
use reldir.Files.{Fs, IsFs, Act, err, map_err, attempt}
use reldir.Files.Rules.{SameOn, Ensures-Keeps}
use reldir.Files.Ensures.{
  Ensures, Ensures-pure, Ensures-raise, Ensures-bind, Ensures-match, Ensures-map_err, Ensures-if,
  Ensures-weaken, Ensures-any, After-err,
}
use reldir.Journal.{Code, committed_recovery_pending, Plan, Format, Journal, store}
use reldir.Journal.Preflight.{is_nothing}
use reldir.Journal.Apply.{Failure, sync, blocked, other, panic}
use reldir.Journal.Commit.{Observer, apply_or_pending, pending_after, complete, commit}
use reldir.Journal.Staged.{prepare-Quiet}

-- A path that is neither the directory nor below it.
abbrev pub Outside : FilePath → FilePath → Type 0
Outside top q = (rest : FilePath) → q ≢ top ++ rest

abbrev pub Pending : {W : Type 0} → Code → W → Type 0
Pending e w = e ≡ committed_recovery_pending

abbrev pub Always : {W : Type 0} → W → Type 0
Always w = Unit

abbrev pub Whatever : {W A : Type 0} → A → W → Type 0
Whatever a w = Unit

module _ (fs : Fs) (format : Format) where
  pending_after-Pending :
      (dir : FilePath) (f : Failure)
      → Ensures Always (pending_after fs format dir f) Whatever Pending
  unfolding pending_after attempt
  pending_after-Pending dir (sync e) =
      Ensures-bind Always Whatever Whatever Pending _ _ (record { at = λ w h. tt })
        (λ u. Ensures-raise Always Whatever Pending _ (λ w h. refl))
  pending_after-Pending dir (blocked path) = Ensures-raise Always Whatever Pending _ (λ w h. refl)
  pending_after-Pending dir (other e) = Ensures-raise Always Whatever Pending _ (λ w h. refl)
  pending_after-Pending dir panic = Ensures-raise Always Whatever Pending _ (λ w h. refl)

  -- An action whose errors are made into this one.
  made_pending :
      {E A : Type 0} (m : Act fs.World E A)
      → Ensures Always (map_err (λ e. committed_recovery_pending) m) Whatever Pending
  made_pending m = Ensures-map_err Always Whatever Pending _ m (
      Ensures-any Always Whatever (λ e w. Pending committed_recovery_pending w) m (λ a w. tt)
        (λ e w. refl))

  -- Past the commit point, every error says so.
  pub complete-Pending :
      (root transactions dir : FilePath) (observer : Observer fs.World) (journal : Journal)
      → Ensures Always (complete fs format root transactions dir observer journal) Whatever Pending
  unfolding complete apply_or_pending
  complete-Pending root transactions dir observer journal =
      Ensures-bind Always Whatever Whatever Pending _ _ (made_pending _) (λ u.
        Ensures-bind Always Whatever Whatever Pending _ _
          (Ensures-match Always Whatever Whatever Pending Whatever _ _
            (Ensures-any Always Whatever Whatever _ (λ a w. tt) (λ e w. tt))
            (λ kept. Ensures-pure Always Whatever Pending kept (λ w h. tt))
            (pending_after-Pending dir))
          (λ kept. Ensures-bind Always Whatever Whatever Pending _ _ (made_pending _) (λ v.
            Ensures-bind Always Whatever Whatever Pending _ _ (made_pending _)
              (λ x. Ensures-pure Always Whatever Pending _ (λ w h. tt)))))

-- An error without a commit: nothing outside the staging area was touched.
abbrev Untouched : (fs : Fs) → FilePath → fs.World → Code → fs.World → Type 0
Untouched fs root before e w =
    (e ≡ committed_recovery_pending) ⊎ SameOn fs (Outside (store root)) before w

commit-Untouched :
    (fs : Fs) (laws : IsFs fs) (format : Format) (root : FilePath) (id created : Bytes)
    (plan : Plan) (observer : Observer fs.World) (before : fs.World)
    → Ensures
        (SameOn fs (Outside (store root)) before)
        (commit fs format root id created plan observer)
        Whatever
        (Untouched fs root before)
unfolding commit
commit-Untouched fs laws format root id created plan observer before =
    let Same = SameOn fs (Outside (store root)) before in
    let top = store root in
    Ensures-if Same Whatever (Untouched fs root before) (is_nothing plan) _ _
      (λ y. Ensures-pure Same Whatever _ _ (λ w h. tt))
      (λ n.
        Ensures-bind Same Whatever Whatever (Untouched fs root before) _ _
          (Ensures-weaken Same Same (λ a. Same) Whatever (λ e. Same) (Untouched fs root before) _
            (λ w h. h) (λ a w h. tt) (λ e w h. inr h)
            (Ensures-Keeps fs (Outside top) before _ (
              prepare-Quiet fs laws (Outside top) format top (top ++ id ∷ []) (λ q h. h (id ∷ []))
                (λ name q h e. h (id ∷ name ∷ []) (e ∙ append_assoc top (id ∷ []) (name ∷ []))) id
                created plan (λ q h e. h [] (e ∙ sym (append-nil top))))))
          (λ journal.
            Ensures-weaken Always Always Whatever Whatever Pending (Untouched fs root before) _
              (λ w h. tt) (λ a w h. tt) (λ e w h. inl h)
              (complete-Pending fs format root top (top ++ id ∷ []) observer journal)))

-- Where `commit` fails with any error but COMMITTED_RECOVERY_PENDING, every path outside the staging
-- area holds what it held before.
pub commit-atomic :
    (fs : Fs) (laws : IsFs fs) (format : Format) (root : FilePath) (id created : Bytes)
    (plan : Plan) (observer : Observer fs.World) (w : fs.World) (e : Code)
    → (commit fs format root id created plan observer w).0 ≡ err e
    → e ≢ committed_recovery_pending
    → (q : FilePath) → Outside (store root) q
    → fs.held (commit fs format root id created plan observer w).1 q ≡ fs.held w q
commit-atomic fs laws format root id created plan observer w e failed apart q out =
    let after =
      (commit-Untouched fs laws format root id created plan observer w).at w (λ q h. refl) in
    elim (After-err Whatever (Untouched fs root w) _ e _ failed after) [
      | inl pending ↦ absurd (apart pending)
      | inr same ↦ same q out
    ]
