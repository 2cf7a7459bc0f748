-- ===== src/Journal/Staged.antt =====
-- A transaction up to its commit point (engine/journal.rs): what it may touch.
use reldir.Base.{ℕ, List, [], ◌∷◌, ◌++◌, All, All-append}
use reldir.Store.Corruption.{Bytes}
use reldir.Overlay.{FilePath, IoError}
use reldir.Files.{Fs, IsFs, full, attempt, ◌>>=◌, raise}
use reldir.Files.Rules.{Keeps-attempt}
use reldir.Journal.{Code, Change, write, delete, Artifact, Plan, Format, Journal}
use reldir.Journal.Preflight.{io}
use reldir.Journal.Apply.{staged_name}
use reldir.Journal.Commit.{
  create_all, sync_writes, stage_all, stage, record_journal, retract, not_durable, prepare,
  staging_of, no_staging, Staging, stage_change, stage_changes, stage_artifact, stage_artifacts,
  journal_name, discard,
}
use reldir.Journal.Untouched.{
  Avoids, Quiet, everywhere, inside, Quiet-bind, Quiet-match, Quiet-if, Quiet-io, Quiet-pure,
  Quiet-raise, ensure_dir-Quiet, discard-Quiet,
}

abbrev WritesAvoid : (FilePath → Type 0) → List (FilePath × Bytes) → Type 0
WritesAvoid P writes = All (λ (w : FilePath × Bytes). Avoids P w.0) writes

module _ (format : Format) (P : FilePath → Type 0) (dir : FilePath)
    (i : (n : ℕ) → Avoids P (dir ++ staged_name n ∷ [])) where
  stage_changes-WritesAvoid :
      (cs : List Change) (s : Staging)
      → WritesAvoid P s.writes
      → WritesAvoid P (stage_changes format dir cs s).writes
  unfolding stage_changes stage_change
  stage_changes-WritesAvoid [] s h = h
  stage_changes-WritesAvoid (write path bytes pre ∷ cs) s h =
      stage_changes-WritesAvoid cs _ (All-append _ s.writes _ h (i s.next, tt))
  stage_changes-WritesAvoid (delete path pre ∷ cs) s h = stage_changes-WritesAvoid cs _ h

  stage_artifacts-WritesAvoid :
      (as' : List Artifact) (s : Staging)
      → WritesAvoid P s.writes
      → WritesAvoid P (stage_artifacts format dir as' s).writes
  unfolding stage_artifacts stage_artifact
  stage_artifacts-WritesAvoid [] s h = h
  stage_artifacts-WritesAvoid (a ∷ rest) s h =
      stage_artifacts-WritesAvoid rest _ (All-append _ s.writes _ h (i s.next, tt))

  staging_of-WritesAvoid : (plan : Plan) → WritesAvoid P (staging_of format dir plan).writes
  unfolding staging_of
  staging_of-WritesAvoid plan =
      stage_artifacts-WritesAvoid plan.artifacts _
        (stage_changes-WritesAvoid plan.changes no_staging tt)

module _ (fs : Fs) (laws : IsFs fs) (P : FilePath → Type 0) where
  create_all-Quiet :
      (writes : List (FilePath × Bytes))
      → WritesAvoid P writes
      → Quiet fs laws P (create_all fs writes)
  unfolding create_all
  create_all-Quiet [] h = Quiet-pure fs laws P tt
  create_all-Quiet ((p, b) ∷ writes) h =
      Quiet-bind fs laws P _ _
        (Quiet-io fs laws P io _ (inside fs laws P _ p h.0 (laws.create_new_keeps p b)))
        (λ u. create_all-Quiet writes h.1)

  sync_writes-Quiet : (ps : List FilePath) → Quiet fs laws P (sync_writes fs ps)
  unfolding sync_writes
  sync_writes-Quiet [] = Quiet-pure fs laws P tt
  sync_writes-Quiet (p ∷ ps) =
      Quiet-io fs laws P io _ (everywhere fs laws P _ (laws.sync_files_keeps (p ∷ ps) full))

  sync-Quiet : (p : FilePath) → Quiet fs laws P (fs.sync_dir p)
  sync-Quiet p = everywhere fs laws P _ (laws.sync_dir_keeps p)

  module _ (format : Format) (transactions dir : FilePath) where
    pub stage-Quiet :
        (id created : Bytes) (plan : Plan)
        → ((n : ℕ) → Avoids P (dir ++ staged_name n ∷ []))
        → Quiet fs laws P (stage fs format dir id created plan)
    unfolding stage stage_all
    stage-Quiet id created plan i =
        Quiet-bind fs laws P _ _
          (Quiet-bind fs laws P _ _
            (create_all-Quiet _ (staging_of-WritesAvoid format P dir i plan))
            (λ u. sync_writes-Quiet _))
          (λ u.
            Quiet-bind fs laws P _ _ (Quiet-io fs laws P io _ (sync-Quiet dir))
              (λ v. Quiet-pure fs laws P _))

    module _ (d : Avoids P dir) (i : (name : Bytes) → Avoids P (dir ++ name ∷ [])) where
      record_journal-Quiet :
          (journal : Journal) → Quiet fs laws P (record_journal fs format transactions dir journal)
      unfolding record_journal
      record_journal-Quiet journal =
          Quiet-bind fs laws P _ _
            (inside fs laws P _ _ (i journal_name) (laws.create_synced_keeps _ _ full))
            (λ u. Quiet-bind fs laws P _ _ (sync-Quiet dir) (λ v. sync-Quiet transactions))

      retract-Quiet : Quiet fs laws P (retract fs format dir)
      unfolding retract
      retract-Quiet =
          Quiet-match fs laws P _ _
            (inside fs laws P _ _ (i journal_name) (laws.remove_file_keeps _)) (λ u. sync-Quiet dir)
            (λ e. Quiet-if fs laws P _ _ _ (sync-Quiet dir) (Quiet-raise fs laws P e))

      discarding :
          {A : Type 0} (e : Code)
          → Quiet fs laws P
              (attempt {F = Code} (discard fs transactions dir) >>= λ x. raise {A = A} e)
      discarding e =
          Quiet-bind fs laws P _ _
            (Keeps-attempt fs P _ (discard-Quiet fs laws P transactions dir d i))
            (λ x. Quiet-raise fs laws P e)

      not_durable-Quiet : (e : IoError) → Quiet fs laws P (not_durable fs format transactions dir e)
      unfolding not_durable
      not_durable-Quiet e =
          Quiet-match fs laws P _ _ retract-Quiet (λ u. discarding (io e))
            (λ f. Quiet-raise fs laws P _)

      -- Nothing but the staging area is touched before the commit point, whatever fails.
      pub prepare-Quiet :
          (id created : Bytes) (plan : Plan)
          → Avoids P transactions
          → Quiet fs laws P (prepare fs format transactions dir id created plan)
      unfolding prepare
      prepare-Quiet id created plan t =
          Quiet-bind fs laws P _ _ (ensure_dir-Quiet fs laws P transactions t) (λ u.
            Quiet-bind fs laws P _ _
              (Quiet-io fs laws P io _ (inside fs laws P _ dir d (laws.create_dir_keeps dir)))
              (λ v.
                Quiet-match fs laws P _ _ (stage-Quiet id created plan (λ n. i (staged_name n)))
                  (λ journal.
                    Quiet-match fs laws P _ _ (record_journal-Quiet journal)
                      (λ x. Quiet-pure fs laws P journal) not_durable-Quiet)
                  discarding))
