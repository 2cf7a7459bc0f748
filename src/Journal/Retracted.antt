-- ===== src/Journal/Retracted.antt =====
-- A `commit` (engine/journal.rs) that fails before its commit point leaves no journal.
use reldir.Base.{◌≡◌, ◌≢◌, ◌⊎◌, inl, inr, refl, sym, ap, ◌∙◌, List, [], ◌∷◌, ◌++◌, none, ℕ}
use mathlib.Core.List.{append_assoc}
use reldir.Store.Corruption.{Bytes}
use reldir.Overlay.{FilePath, Entry, IoError, not_found}
use reldir.Files.{Fs, IsFs, Act, Result, ok, err, attempt, ◌>>=◌, raise, Keeps, Anywhere, Elsewhere}
use reldir.Files.Rules.{Keeps-only}
use reldir.Files.Ensures.{
  Ensures, After, Ensures-pure, Ensures-raise, Ensures-bind, Ensures-match, Ensures-if,
  Ensures-weaken, Ensures-any, After-err,
}
use reldir.Files.Stays.{
  Stays, Stays-bind, Stays-match, Stays-if, Stays-err, Stays-pure, Stays-raise, Stays-lift,
  Stays-of, Stays-attempt, Stays-held,
}
use reldir.Journal.{Code, committed_recovery_pending, commit_unknown, Plan, Format, store}
use reldir.Journal.Preflight.{io, is_missing, is_nothing, missing-eq}
use reldir.Journal.Apply.{staged_name}
use reldir.Journal.Commit.{
  journal_name, Observer, commit, prepare, retract, not_durable, discard, discard_entries,
  unless_missing,
}
use reldir.Journal.Untouched.{Avoids, ensure_dir-Quiet}
use reldir.Journal.Staged.{stage-Quiet}
use reldir.Journal.Atomic.{Pending, Always, Whatever, complete-Pending}
use reldir.Journal.Names.{staged_name-ne-journal, below-ne, child-injective}

module _ (fs : Fs) (laws : IsFs fs) (format : Format) (transactions dir : FilePath)
    (apart : dir ++ journal_name ∷ [] ≢ transactions) where
  abbrev journal_path : FilePath
  journal_path = dir ++ journal_name ∷ []

  -- No journal is there.
  abbrev NoJournal : fs.World → Type 0
  NoJournal w = fs.held w journal_path ≡ none

  -- An error that says that nothing was done.
  abbrev Undone : Code → fs.World → Type 0
  Undone e w = (e ≡ commit_unknown) ⊎ NoJournal w

  removal-Stays : (p : FilePath) → Stays NoJournal (unless_missing fs (fs.remove_file p))
  unfolding unless_missing
  removal-Stays p =
      Stays-match NoJournal _ _ (Stays-of NoJournal _ (laws.remove_only p journal_path))
        (λ u. Stays-pure NoJournal tt)
        (λ e. Stays-if NoJournal _ _ _ (Stays-pure NoJournal tt) (Stays-raise NoJournal _))

  discard_entries-Stays : (es : List Entry) → Stays NoJournal (discard_entries fs es)
  unfolding discard_entries
  discard_entries-Stays [] = Stays-pure NoJournal tt
  discard_entries-Stays (e ∷ es) =
      Stays-bind NoJournal _ _ (Stays-lift NoJournal _)
        (λ u. Stays-bind NoJournal _ _ (removal-Stays e.path) (λ v. discard_entries-Stays es))

  abbrev AtJournal : FilePath → Type 0
  AtJournal q = q ≡ journal_path

  stays : {E A : Type 0} (m : Act fs.World E A) → Keeps fs AtJournal m → Stays NoJournal m
  stays m km = Stays-held fs AtJournal journal_path none m refl km

  quiet : {E A : Type 0} (m : Act fs.World E A) → Keeps fs Anywhere m → Stays NoJournal m
  quiet m km = stays m (Keeps-only fs Anywhere AtJournal m (λ q h. tt) km)

  dir-Avoids : Avoids AtJournal dir
  dir-Avoids q h e = below-ne dir journal_name [] (sym h ∙ e)

  staged-Avoids : (n : ℕ) → Avoids AtJournal (dir ++ staged_name n ∷ [])
  staged-Avoids n q h e =
      staged_name-ne-journal n (child-injective dir (staged_name n) journal_name (sym e ∙ h))

  remove_dir-Stays : Stays NoJournal (unless_missing fs (fs.remove_dir dir))
  unfolding unless_missing
  remove_dir-Stays =
      Stays-match NoJournal _ _
        (stays _ (Keeps-only fs (Elsewhere dir) AtJournal _ dir-Avoids (laws.remove_dir_keeps dir)))
        (λ u. Stays-pure NoJournal tt)
        (λ e. Stays-if NoJournal _ _ _ (Stays-pure NoJournal tt) (Stays-raise NoJournal _))

  discard-Stays : Stays NoJournal (discard fs transactions dir)
  unfolding discard
  discard-Stays =
      Stays-match NoJournal _ _ (quiet _ (laws.read_dir_keeps dir))
        (λ es. Stays-bind NoJournal _ _ (discard_entries-Stays es) (λ u.
          Stays-bind NoJournal _ _ remove_dir-Stays (λ v.
            Stays-bind NoJournal _ _
              (Stays-attempt NoJournal _ (quiet _ (laws.sync_dir_keeps transactions)))
              (λ x. Stays-pure NoJournal tt))))
        (λ e. Stays-if NoJournal _ _ _ (Stays-pure NoJournal tt) (Stays-raise NoJournal _))

  -- What is said once nothing is left to undo.
  discarding :
      {A : Type 0} (e : Code)
      → Ensures NoJournal
          (attempt {F = Code} (discard fs transactions dir) >>= λ x. raise {A = A} e)
          Whatever
          Undone
  discarding e =
      Ensures-bind NoJournal (λ a. NoJournal) Whatever Undone _ _
        (Ensures-weaken NoJournal NoJournal (λ a. NoJournal) (λ a. NoJournal) (λ e. NoJournal)
          Undone _ (λ w h. h) (λ a w h. h) (λ e w h. inr h)
          (Stays-attempt NoJournal _ discard-Stays))
        (λ x. Ensures-raise NoJournal Whatever Undone e (λ w h. inr h))

  abbrev IfMissing : IoError → fs.World → Type 0
  IfMissing e w = e ≡ not_found → NoJournal w

  removed-NoJournal : Ensures Always (fs.remove_file journal_path) (λ u. NoJournal) IfMissing
  removed-NoJournal = record { at = λ w h. by_result w (fs.remove_file journal_path w).0 refl }
    where
      by_result :
          (w : fs.World) (r : Result IoError (Unit {0}))
          → (fs.remove_file journal_path w).0 ≡ r
          → After (λ u. NoJournal) IfMissing r (fs.remove_file journal_path w).1
      by_result w (ok tt) e = laws.remove_done journal_path w e
      by_result w (err x) e = λ m. laws.remove_missing journal_path w (e ∙ ap err m)

  sync-NoJournal : Ensures NoJournal (fs.sync_dir dir) (λ u. NoJournal) (λ e. Always)
  sync-NoJournal =
      Ensures-weaken NoJournal NoJournal (λ u. NoJournal) (λ u. NoJournal) (λ e. NoJournal)
        (λ e. Always) _ (λ w h. h) (λ a w h. h) (λ e w h. tt) (quiet _ (laws.sync_dir_keeps dir))

  -- A journal that is retracted is gone.
  retract-NoJournal : Ensures Always (retract fs format dir) (λ u. NoJournal) (λ e. Always)
  unfolding retract
  retract-NoJournal =
      Ensures-match Always (λ u. NoJournal) (λ u. NoJournal) (λ e. Always) IfMissing _ _
        removed-NoJournal (λ u. sync-NoJournal)
        (λ e.
          Ensures-if (IfMissing e) (λ u. NoJournal) (λ x. Always) (is_missing e) _ _
            (λ y.
              Ensures-weaken NoJournal (IfMissing e) (λ u. NoJournal) (λ u. NoJournal) (λ x. Always)
                (λ x. Always) _ (λ w h. h (missing-eq e y)) (λ a w h. h) (λ x w h. tt)
                sync-NoJournal)
            (λ n. Ensures-raise (IfMissing e) (λ u. NoJournal) (λ x. Always) e (λ w h. tt)))

  not_durable-Undone :
      (e : IoError) → Ensures Always (not_durable fs format transactions dir e) Whatever Undone
  unfolding not_durable
  not_durable-Undone e =
      Ensures-match Always (λ u. NoJournal) Whatever Undone (λ x. Always) _ _ retract-NoJournal
        (λ u. discarding (io e))
        (λ x. Ensures-raise Always Whatever Undone commit_unknown (λ w h. inl refl))

  prepare-Undone :
      (id created : Bytes) (plan : Plan)
      → Ensures NoJournal (prepare fs format transactions dir id created plan) Whatever Undone
  unfolding prepare
  prepare-Undone id created plan =
      Ensures-bind NoJournal (λ a. NoJournal) Whatever Undone _ _
        (failing _
          (stays _ (ensure_dir-Quiet fs laws AtJournal transactions (λ q h e. apart (sym h ∙ e)))))
        (λ u.
          Ensures-bind NoJournal (λ a. NoJournal) Whatever Undone _ _
            (failing _ (
              Stays-err NoJournal io _ (
                stays _ (
                  Keeps-only fs (Elsewhere dir) AtJournal _ dir-Avoids
                    (laws.create_dir_keeps dir)))))
            (λ v.
              Ensures-match NoJournal (λ a. NoJournal) Whatever Undone (λ e. NoJournal) _ _
                (stays _ (
                  stage-Quiet fs laws AtJournal format transactions dir id created plan
                    staged-Avoids))
                (λ journal.
                  Ensures-match NoJournal Whatever Whatever Undone (λ e. Always) _ _
                    (Ensures-any NoJournal Whatever (λ e. Always) _ (λ a w. tt) (λ e w. tt))
                    (λ x. Ensures-pure Always Whatever Undone journal (λ w h. tt))
                    not_durable-Undone)
                discarding))
    where
      failing :
          {A : Type 0} (m : Act fs.World Code A)
          → Stays NoJournal m
          → Ensures NoJournal m (λ a. NoJournal) Undone
      failing m hm =
          Ensures-weaken NoJournal NoJournal (λ a. NoJournal) (λ a. NoJournal) (λ e. NoJournal)
            Undone m (λ w h. h) (λ a w h. h) (λ e w h. inr h) hm

-- The journal of a transaction.
abbrev pub journal_at : FilePath → Bytes → FilePath
journal_at root id = (store root ++ id ∷ []) ++ journal_name ∷ []

abbrev Unwritten : (fs : Fs) → FilePath → Bytes → Code → fs.World → Type 0
Unwritten fs root id e w =
    (e ≡ committed_recovery_pending)
    ⊎ ((e ≡ commit_unknown) ⊎ (fs.held w (journal_at root id) ≡ none))

journal_at-ne-store : (root : FilePath) (id : Bytes) → journal_at root id ≢ store root
journal_at-ne-store root id e =
    below-ne (store root) id (journal_name ∷ [])
      (sym (append_assoc (store root) (id ∷ []) (journal_name ∷ [])) ∙ e)

commit-Unwritten :
    (fs : Fs) (laws : IsFs fs) (format : Format) (root : FilePath) (id created : Bytes)
    (plan : Plan) (observer : Observer fs.World)
    → Ensures
        (λ w. fs.held w (journal_at root id) ≡ none)
        (commit fs format root id created plan observer)
        Whatever
        (Unwritten fs root id)
unfolding commit
commit-Unwritten fs laws format root id created plan observer =
    let top = store root in
    let dir = top ++ id ∷ [] in
    let Before = λ (w : fs.World). fs.held w (journal_at root id) ≡ none in
    Ensures-if Before Whatever (Unwritten fs root id) (is_nothing plan) _ _
      (λ y. Ensures-pure Before Whatever _ _ (λ w h. tt))
      (λ n.
        Ensures-bind Before Whatever Whatever (Unwritten fs root id) _ _
          (Ensures-weaken Before Before Whatever Whatever
            (Undone fs laws format top dir (journal_at-ne-store root id)) (Unwritten fs root id) _
            (λ w h. h) (λ a w h. tt) (λ e w h. inr h)
            (prepare-Undone fs laws format top dir (journal_at-ne-store root id) id created plan))
          (λ journal.
            Ensures-weaken Always Always Whatever Whatever Pending (Unwritten fs root id) _
              (λ w h. tt) (λ a w h. tt) (λ e w h. inl h)
              (complete-Pending fs format root top dir observer journal)))

-- Where `commit` fails with any error but COMMITTED_RECOVERY_PENDING and COMMIT_UNKNOWN, under an id
-- that had no journal, there is still none for recovery to roll forward.
pub commit-retracts :
    (fs : Fs) (laws : IsFs fs) (format : Format) (root : FilePath) (id created : Bytes)
    (plan : Plan) (observer : Observer fs.World) (w : fs.World) (e : Code)
    → fs.held w (journal_at root id) ≡ none
    → (commit fs format root id created plan observer w).0 ≡ err e
    → e ≢ committed_recovery_pending
    → e ≢ commit_unknown
    → fs.held (commit fs format root id created plan observer w).1 (journal_at root id) ≡ none
commit-retracts fs laws format root id created plan observer w e new failed apart known =
    let after = (commit-Unwritten fs laws format root id created plan observer).at w new in
    elim (After-err Whatever (Unwritten fs root id) _ e _ failed after) [
      | inl pending ↦ absurd (apart pending)
      | inr (inl unknown) ↦ absurd (known unknown)
      | inr (inr gone) ↦ gone
    ]
