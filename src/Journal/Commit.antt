-- ===== src/Journal/Commit.antt =====
-- engine/journal.rs: `commit`, from the staging of the files to the end of a transaction. The id is
-- the parameter `id`, the time `created`.
use reldir.Base.{ℕ, suc, false, List, [], ◌∷◌, ◌++◌, none, some, codes, if◌then◌else◌}
use reldir.Store.Corruption.{Bytes}
use reldir.Overlay.{FilePath, Entry, IoError}
use reldir.Files.{Fs, Act, ok, err, pure, raise, lift, ◌>>=◌, ◌>>◌, attempt, map_err, full}
use reldir.Journal.{
  Code, transaction_incomplete, internal_metadata_corrupt, commit_unknown,
  committed_recovery_pending, Change, write, delete, Artifact, Plan, JournalChange, JournalArtifact,
  Journal, Format, journal_version, store,
}
use reldir.Journal.Record.{image_of, encode}
use reldir.Journal.Preflight.{io, is_missing, is_dir, is_file, is_nothing, parent_of}
use reldir.Journal.Apply.{Failure, sync, blocked, other, panic, staged_name, no_blobs}
use reldir.Journal.Placing.{apply}

abbrev pub journal_name : Bytes
journal_name = codes "journal"

abbrev pub sync_failed_name : Bytes
sync_failed_name = codes "sync-failed"

pub record Committed : Type 0 where
  pub id : Bytes
  pub kept_outside_edits : List FilePath

-- `Observer`: derived state that follows a commit.
pub record Observer (W : Type 0) : Type 0 where
  pub committed : Journal → Act W Code (Unit {0})
  pub applied : Journal → Act W Code (Unit {0})

-- What staging gathers: the files to write, the lines of the journal, the next number.
pub record Staging : Type 0 where
  pub writes : List (FilePath × Bytes)
  pub changes : List JournalChange
  pub artifacts : List JournalArtifact
  pub next : ℕ

module _ (format : Format) (dir : FilePath) where
  unfoldable pub stage_change : Change → Staging → Staging
  stage_change (write path bytes pre) s = record s {
    writes = s.writes ++ (dir ++ staged_name s.next ∷ [], bytes) ∷ [];
    changes =
        s.changes
        ++ record { n = some s.next; path = path; pre = pre; post = some (image_of format bytes) }
          ∷ [];
    next = suc s.next;
  }
  stage_change (delete path pre) s = record s {
    changes = s.changes ++ record { n = none; path = path; pre = some pre; post = none } ∷ [];
  }

  unfoldable pub stage_changes : List Change → Staging → Staging
  stage_changes [] s = s
  stage_changes (c ∷ cs) s = stage_changes cs (stage_change c s)

  unfoldable pub stage_artifact : Artifact → Staging → Staging
  stage_artifact a s = record s {
    writes = s.writes ++ (dir ++ staged_name s.next ∷ [], a.bytes) ∷ [];
    artifacts =
        s.artifacts ++ record { n = s.next; to = a.to; post = image_of format a.bytes } ∷ [];
    next = suc s.next;
  }

  unfoldable pub stage_artifacts : List Artifact → Staging → Staging
  stage_artifacts [] s = s
  stage_artifacts (a ∷ rest) s = stage_artifacts rest (stage_artifact a s)

abbrev pub no_staging : Staging
no_staging = record { writes = []; changes = []; artifacts = []; next = 0 }

unfoldable pub staging_of : Format → FilePath → Plan → Staging
staging_of format dir plan =
    stage_artifacts format dir plan.artifacts (stage_changes format dir plan.changes no_staging)

unfoldable pub journal_of : Bytes → Bytes → Plan → Staging → Journal
journal_of id created plan s = record {
  reldir_journal = journal_version;
  id = id;
  origin = plan.origin;
  created = created;
  planned_against = plan.planned_against;
  revision = plan.revision;
  idempotency_key = plan.idempotency_key;
  changes = s.changes;
  artifacts = s.artifacts;
  retire = plan.retire;
  prune = plan.prune;
}

unfoldable pub paths_of : List (FilePath × Bytes) → List FilePath
paths_of [] = []
paths_of ((path, bytes) ∷ writes) = path ∷ paths_of writes

module _ (fs : Fs) where
  unfoldable pub create_all : List (FilePath × Bytes) → Act fs.World Code (Unit {0})
  create_all [] = pure tt
  create_all ((path, bytes) ∷ writes) = do map_err io (fs.create_new path bytes); create_all writes

  unfoldable pub sync_writes : List FilePath → Act fs.World Code (Unit {0})
  sync_writes [] = pure tt
  sync_writes (p ∷ ps) = map_err io (fs.sync_files (p ∷ ps) full)

  unfoldable pub stage_all : List (FilePath × Bytes) → Act fs.World Code (Unit {0})
  stage_all writes = do create_all writes; sync_writes (paths_of writes)

  unfoldable pub ensure_dir : FilePath → Act fs.World Code (Unit {0})
  ensure_dir path = do
    found ← attempt (fs.metadata path)
    elim found [
      | ok meta ↦ if is_dir meta.kind then pure tt else raise internal_metadata_corrupt
      | err e ↦
          if is_missing e
          then (do map_err io (fs.create_dir path); map_err io (fs.sync_dir (parent_of path)))
          else raise (io e)
    ]

  -- A file or a directory that is gone already will do.
  unfoldable pub unless_missing : Act fs.World IoError (Unit {0}) → Act fs.World Code (Unit {0})
  unless_missing removal = do
    removed ← attempt removal
    elim removed [ ok done ↦ pure tt | err e ↦ if is_missing e then pure tt else raise (io e) ]

  unfoldable pub discard_entries : List Entry → Act fs.World Code (Unit {0})
  discard_entries [] = pure tt
  discard_entries (e ∷ es) = do
    lift (if is_file e.meta.kind then ok tt else err transaction_incomplete)
    unless_missing (fs.remove_file e.path)
    discard_entries es

  unfoldable pub discard : FilePath → FilePath → Act fs.World Code (Unit {0})
  discard transactions dir = do
    found ← attempt (fs.read_dir dir)
    elim found [
      | err e ↦ if is_missing e then pure tt else raise (io e)
      | ok entries ↦ do
        discard_entries entries
        unless_missing (fs.remove_dir dir)
        ignored ← attempt (fs.sync_dir transactions)
        pure tt
    ]

  unfoldable pub finish : FilePath → FilePath → Act fs.World Code (Unit {0})
  finish transactions dir = do
    unless_missing (fs.remove_file (dir ++ journal_name ∷ []))
    discard transactions dir

module _ (fs : Fs) (format : Format) where
  unfoldable pub stage : FilePath → Bytes → Bytes → Plan → Act fs.World Code Journal
  stage dir id created plan = do
    stage_all fs (staging_of format dir plan).writes
    map_err io (fs.sync_dir dir)
    pure (journal_of id created plan (staging_of format dir plan))

  -- The journal and its directories made durable: the commit point.
  unfoldable pub record_journal : FilePath → FilePath → Journal → Act fs.World IoError (Unit {0})
  record_journal transactions dir journal = do
    fs.create_synced (dir ++ journal_name ∷ []) (encode format journal) full
    fs.sync_dir dir
    fs.sync_dir transactions

  -- Takes a journal back that may have reached the disk.
  unfoldable pub retract : FilePath → Act fs.World IoError (Unit {0})
  retract dir = do
    removed ← attempt (fs.remove_file (dir ++ journal_name ∷ []))
    elim removed [
      | ok done ↦ fs.sync_dir dir
      | err e ↦ if is_missing e then fs.sync_dir dir else raise e
    ]

  unfoldable pub not_durable : FilePath → FilePath → IoError → Act fs.World Code Journal
  not_durable transactions dir error = do
    retracted ← attempt (retract dir)
    elim retracted [
      | ok done ↦ do ignored ← attempt {F = Code} (discard fs transactions dir); raise (io error)
      | err e ↦ raise commit_unknown
    ]

  -- Up to the commit point: a failure of staging takes the staging away.
  unfoldable pub prepare : FilePath → FilePath → Bytes → Bytes → Plan → Act fs.World Code Journal
  prepare transactions dir id created plan = do
    ensure_dir fs transactions
    map_err io (fs.create_dir dir)
    staged ← attempt (stage dir id created plan)
    elim staged [
      | err e ↦ do ignored ← attempt {F = Code} (discard fs transactions dir); raise e
      | ok journal ↦ do
        durable ← attempt (record_journal transactions dir journal)
        elim durable [ ok done ↦ pure journal | err e ↦ not_durable transactions dir e ]
    ]

  -- A failed sync leaves its mark; the texts of the reasons are left out. `panic` stands for the
  -- `unreachable!` of `apply`, which no journal leads to that gives numbers to its writes alone, as
  -- those of `commit` do.
  unfoldable pub pending_after : FilePath → Failure → Act fs.World Code (List FilePath)
  pending_after dir (sync e) = do
    ignored ← attempt {F = Code} (fs.create_synced (dir ++ sync_failed_name ∷ []) [] full)
    raise committed_recovery_pending
  pending_after dir (blocked path) = raise committed_recovery_pending
  pending_after dir (other e) = raise committed_recovery_pending
  pending_after dir panic = raise committed_recovery_pending

  -- `apply`, whose every failure says that the change has happened.
  unfoldable pub apply_or_pending :
      FilePath → FilePath → Journal → Act fs.World Code (List FilePath)
  apply_or_pending root dir journal = do
    applied ← attempt (apply fs format root dir journal false false no_blobs)
    elim applied [ ok kept ↦ pure kept | err failure ↦ pending_after dir failure ]

  -- From the commit point on.
  unfoldable pub complete :
      FilePath → FilePath → FilePath → Observer fs.World → Journal → Act fs.World Code Committed
  complete root transactions dir observer journal = do
    map_err (λ e. committed_recovery_pending) (observer.committed journal)
    kept ← apply_or_pending root dir journal
    map_err (λ e. committed_recovery_pending) (observer.applied journal)
    map_err (λ e. committed_recovery_pending) (finish fs transactions dir)
    pure (record { id = journal.id; kept_outside_edits = kept })

  unfoldable pub commit :
      FilePath → Bytes → Bytes → Plan → Observer fs.World → Act fs.World Code Committed
  commit root id created plan observer =
      if is_nothing plan then pure (record { id = id; kept_outside_edits = [] }) else do
        journal ← prepare (store root) (store root ++ id ∷ []) id created plan
        complete root (store root) (store root ++ id ∷ []) observer journal
