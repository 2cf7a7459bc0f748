-- ===== src/Journal/Recover.antt =====
-- engine/journal.rs: `pending` and `recover`, which read what transactions left behind.
use reldir.Base.{
  ℕ, Bool, true, false, not, ◌&&◌, List, [], ◌∷◌, ◌++◌, Option, none, some, if◌then◌else◌,
}
use reldir.Store.Corruption.{Bytes}
use reldir.Store.Text.{bytes_eq}
use reldir.Overlay.{FilePath, Entry, name_of}
use reldir.Files.{Fs, Act, ok, err, pure, raise, lift, ◌>>=◌, ◌>>◌, attempt, full}
use reldir.Journal.{
  Code, transaction_incomplete, Image, image_eq, JournalChange, Journal, Format, store,
}
use reldir.Journal.Record.{image_of, decode}
use reldir.Journal.Preflight.{io, is_missing, is_dir}
use reldir.Journal.Apply.{sync, blocked, other, panic, staged_name, Blobs}
use reldir.Journal.Placing.{apply}
use reldir.Journal.Commit.{journal_name, sync_failed_name, Observer, discard, finish}

pub record Pending : Type 0 where
  pub dir : FilePath
  pub journal : Journal

pub record Recovered : Type 0 where
  pub completed : List Journal
  pub discarded : List Bytes
  pub kept_outside_edits : List FilePath
  pub blocked_at : List (Bytes × FilePath)
  pub strays : List FilePath

abbrev pub nothing_recovered : Recovered
nothing_recovered = record {
  completed = [];
  discarded = [];
  kept_outside_edits = [];
  blocked_at = [];
  strays = [];
}

module _ (fs : Fs) (format : Format) where
  -- An entry is a transaction if it is a directory named by a ULID.
  unfoldable pub is_transaction : Entry → Bool
  is_transaction entry = is_dir entry.meta.kind && format.is_ulid (name_of entry.path)

  -- The copies of the committed bytes that `Pending::post` looks at, in their order.
  unfoldable pub find_copy : List FilePath → Image → Act fs.World Code (Option Bytes)
  find_copy [] post = raise transaction_incomplete
  find_copy (candidate ∷ candidates) post = do
    found ← attempt (fs.read candidate)
    elim found [
      | ok bytes ↦
          if image_eq (image_of format bytes) post
          then pure (some bytes)
          else find_copy candidates post
      | err e ↦ if is_missing e then find_copy candidates post else raise (io e)
    ]

  post_at :
      Pending → FilePath → FilePath → Option Image → Option ℕ → Act fs.World Code (Option Bytes)
  post_at pending root path (some post) (some n) =
      find_copy ((pending.dir ++ staged_name n ∷ []) ∷ (root ++ path) ∷ []) post
  post_at pending root path none n = pure none
  post_at pending root path (some post) none = pure none

  -- `Pending::post`
  unfoldable pub post_of : Pending → FilePath → JournalChange → Act fs.World Code (Option Bytes)
  unfolding post_at
  post_of pending root change = post_at pending root change.path change.post change.n

  -- The journal of a transaction directory: none where there is none, or it is not sealed.
  unfoldable pub read_journal : FilePath → Act fs.World Code (Option Journal)
  read_journal dir = do
    found ← attempt (fs.read (dir ++ journal_name ∷ []))
    elim found [
      | ok bytes ↦ lift (decode format bytes)
      | err e ↦ if is_missing e then pure none else raise (io e)
    ]

  unfoldable pub pending_entries :
      List Entry → List Pending → List FilePath → Act fs.World Code (List Pending × List FilePath)
  pending_entries [] out strays = pure (out, strays)
  pending_entries (e ∷ es) out strays =
      if not (is_transaction e) then pending_entries es out (strays ++ e.path ∷ []) else do
        found ← read_journal e.path
        elim found [
          | none ↦ pending_entries es out strays
          | some journal ↦
              pending_entries es (out ++ record { dir = e.path; journal = journal } ∷ []) strays
        ]

  unfoldable pub pending : FilePath → Act fs.World Code (List Pending × List FilePath)
  pending root = do
    found ← attempt (fs.read_dir (store root))
    elim found [
      | ok entries ↦ pending_entries entries [] []
      | err e ↦ if is_missing e then pure ([], []) else raise (io e)
    ]

  module _ (root : FilePath) (blobs : Blobs) (observer : Observer fs.World) where
    -- A transaction that committed: the change is finished, or is reported and kept. `panic` stands for
    -- the `unreachable!` of `apply`, which no journal leads to that `validate` accepts.
    unfoldable pub roll_forward :
        FilePath → Bytes → Journal → Recovered → Act fs.World Code Recovered
    roll_forward dir name journal outcome = do
      marked ← attempt (fs.metadata (dir ++ sync_failed_name ∷ []))
      observer.committed journal
      applied ← attempt (
          apply fs format root dir journal true (elim marked [ ok meta ↦ true | err e ↦ false ])
            blobs)
      elim applied [
        | ok kept ↦ do
          observer.applied journal
          finish fs (store root) dir
          pure (record outcome {
            kept_outside_edits = outcome.kept_outside_edits ++ kept;
            completed = outcome.completed ++ journal ∷ [];
          })
        | err (blocked path) ↦
            pure (record outcome { blocked_at = outcome.blocked_at ++ (name, path) ∷ [] })
        | err (sync e) ↦ do
          ignored ← attempt {F = Code} (fs.create_synced (dir ++ sync_failed_name ∷ []) [] full)
          pure (record outcome { blocked_at = outcome.blocked_at ++ (name, dir) ∷ [] })
        | err (other e) ↦ raise e
        | err panic ↦ raise transaction_incomplete
      ]

    unfoldable pub recover_transaction : FilePath → Bytes → Recovered → Act fs.World Code Recovered
    recover_transaction dir name outcome = do
      found ← read_journal dir
      elim found [
        | none ↦ do
          discard fs (store root) dir
          pure (record outcome { discarded = outcome.discarded ++ name ∷ [] })
        | some journal ↦
            if bytes_eq journal.id name
            then roll_forward dir name journal outcome
            else raise transaction_incomplete
      ]

    unfoldable pub recover_entries : List Entry → Recovered → Act fs.World Code Recovered
    recover_entries [] outcome = pure outcome
    recover_entries (e ∷ es) outcome =
        if not (is_transaction e)
        then recover_entries es (record outcome { strays = outcome.strays ++ e.path ∷ [] })
        else do next ← recover_transaction e.path (name_of e.path) outcome; recover_entries es next

    unfoldable pub recover : Act fs.World Code Recovered
    recover = do
      found ← attempt (fs.read_dir (store root))
      elim found [
        | ok entries ↦ recover_entries entries nothing_recovered
        | err e ↦ if is_missing e then pure nothing_recovered else raise (io e)
      ]
