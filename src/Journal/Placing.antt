-- ===== src/Journal/Placing.antt =====
-- engine/journal.rs: `apply` itself: each change, then the directories to prune, the artifacts and
-- the files to retire.
use reldir.Base.{ℕ, Bool, true, false, not, List, [], ◌∷◌, ◌++◌, Option, none, some, if◌then◌else◌}
use reldir.Overlay.{FilePath}
use reldir.Files.{Fs, Act, ok, err, pure, raise, ◌>>=◌, ◌>>◌, attempt, map_err}
use reldir.Journal.{Image, image_eq, same_image, JournalChange, JournalArtifact, Journal, Format}
use reldir.Journal.Record.{image_of}
use reldir.Journal.Preflight.{is_missing, current_image, parent_of}
use reldir.Journal.Apply.{
  Failure, blocked, other, panic, staged_name, insert_path, remove_path, journal_paths, Progress,
  Blobs, or_lost, sync_all, insert_if_dir, collect_ancestors, remove_if_there, place_fresh,
  create_parents,
}

module _ (fs : Fs) (format : Format) where
  -- `rewrite_in_place`: `n` is the number that the staged file is named for.
  unfoldable pub rewrite_in_place :
      FilePath → FilePath → Image → ℕ → Blobs → Act fs.World Failure (Unit {0})
  rewrite_in_place dir target post n blobs = do
    now ← attempt (fs.read target)
    bytes ← elim now [
      | ok held ↦
          if image_eq (image_of format held) post then pure held else or_lost (blobs post.sha256)
      | err e ↦ or_lost (blobs post.sha256)
    ]
    place_fresh fs dir target bytes n

  -- `fs.rename` of the staged file, or its bytes from history where it is gone.
  unfoldable pub place : FilePath → FilePath → Image → ℕ → Blobs → Act fs.World Failure (Unit {0})
  place dir target post n blobs = do
    moved ← attempt (fs.rename (dir ++ staged_name n ∷ []) target)
    elim moved [
      | ok done ↦ pure tt
      | err e ↦
          if is_missing e
          then (do bytes ← or_lost (blobs post.sha256); place_fresh fs dir target bytes n)
          else raise (blocked target)
    ]

  module _ (root dir : FilePath) (rewrite : Bool) (blobs : Blobs) where
    unfoldable pub apply_write :
        JournalChange → Image → ℕ → Option Image → Progress → Act fs.World Failure Progress
    apply_write change post n now progress =
        let target = root ++ change.path in
        let parent = root ++ parent_of change.path in
        if same_image now (some post)
        then (if rewrite
            then (do
              rewrite_in_place dir target post n blobs
              pure (record progress { touched = insert_path parent progress.touched }))
            else pure progress)
        else if not (same_image now change.pre)
        then pure (record progress { kept = progress.kept ++ change.path ∷ [] })
        else do
          touched ← create_parents fs root (parent_of change.path) progress.touched
          place dir target post n blobs
          pure (record progress { touched = insert_path parent touched })

    unfoldable pub apply_delete :
        JournalChange → Option Image → Progress → Act fs.World Failure Progress
    apply_delete change none progress = pure progress
    apply_delete change (some now) progress =
        if not (same_image (some now) change.pre)
        then pure (record progress { kept = progress.kept ++ change.path ∷ [] })
        else do
          remove_if_there fs (root ++ change.path)
          pure (record progress {
            touched = insert_path (root ++ parent_of change.path) progress.touched;
          })

    -- `match (&change.post, change.n)`
    unfoldable pub apply_to :
        JournalChange
        → Option Image
        → Option ℕ
        → Option Image
        → Progress
        → Act fs.World Failure Progress
    apply_to change (some post) (some n) now progress = apply_write change post n now progress
    apply_to change none none now progress = apply_delete change now progress
    apply_to change (some post) none now progress = raise panic
    apply_to change none (some n) now progress = raise panic

    unfoldable pub apply_change : JournalChange → Progress → Act fs.World Failure Progress
    apply_change change progress = do
      touched ← insert_if_dir fs (root ++ parent_of change.path) progress.touched
      now ← map_err other (current_image fs format (root ++ change.path))
      apply_to change change.post change.n now (record progress { touched = touched })

    unfoldable pub apply_changes : List JournalChange → Progress → Act fs.World Failure Progress
    apply_changes [] progress = pure progress
    apply_changes (c ∷ cs) progress = do next ← apply_change c progress; apply_changes cs next

  unfoldable pub prune_dir :
      FilePath → FilePath → List FilePath → Act fs.World Failure (List FilePath)
  prune_dir root directory touched = do
    found ← attempt (fs.read_dir (root ++ directory))
    elim found [
      | err e ↦ if is_missing e then pure touched else raise (blocked (root ++ directory))
      | ok (entry ∷ entries) ↦ pure touched
      | ok [] ↦ do
        removed ← attempt (fs.remove_dir (root ++ directory))
        elim removed [
          | ok done ↦ pure (insert_path root (remove_path (root ++ directory) touched))
          | err e ↦
              if is_missing e
              then pure (insert_path root (remove_path (root ++ directory) touched))
              else raise (blocked (root ++ directory))
        ]
    ]

  unfoldable pub prune_dirs :
      FilePath → List FilePath → List FilePath → Act fs.World Failure (List FilePath)
  prune_dirs root [] touched = pure touched
  prune_dirs root (d ∷ ds) touched = do next ← prune_dir root d touched; prune_dirs root ds next

  unfoldable pub publish :
      FilePath → FilePath → JournalArtifact → List FilePath → Act fs.World Failure (List FilePath)
  publish root dir artifact published = do
    known ← insert_if_dir fs (root ++ parent_of artifact.to) published
    now ← map_err other (current_image fs format (root ++ artifact.to))
    if same_image now (some artifact.post) then pure known else do
      made ← create_parents fs root (parent_of artifact.to) known
      map_err (λ e. blocked (root ++ artifact.to))
          (fs.rename (dir ++ staged_name artifact.n ∷ []) (root ++ artifact.to))
      pure (insert_path (root ++ parent_of artifact.to) made)

  unfoldable pub publish_all :
      FilePath
      → FilePath
      → List JournalArtifact
      → List FilePath
      → Act fs.World Failure (List FilePath)
  publish_all root dir [] published = pure published
  publish_all root dir (a ∷ rest) published = do
    next ← publish root dir a published
    publish_all root dir rest next

  unfoldable pub retire_all :
      FilePath → List FilePath → List FilePath → Act fs.World Failure (List FilePath)
  retire_all root [] published = pure published
  retire_all root (p ∷ ps) published = do
    remove_if_there fs (root ++ p)
    next ← insert_if_dir fs (root ++ parent_of p) published
    retire_all root ps next

  -- `if recovering`: every directory above a path of the journal is synced.
  unfoldable pub sync_ancestors : Bool → FilePath → Journal → Act fs.World Failure (Unit {0})
  sync_ancestors false root journal = pure tt
  sync_ancestors true root journal = do
    ancestors ← collect_ancestors fs root (journal_paths journal.changes journal.artifacts) []
    sync_all fs ancestors

  unfoldable pub apply :
      FilePath → FilePath → Journal → Bool → Bool → Blobs → Act fs.World Failure (List FilePath)
  apply root dir journal recovering rewrite blobs = do
    sync_ancestors recovering root journal
    progress ←
        apply_changes root dir rewrite blobs journal.changes (record { kept = []; touched = [] })
    touched ← prune_dirs root journal.prune progress.touched
    sync_all fs touched
    published ← publish_all root dir journal.artifacts []
    retired ← retire_all root journal.retire published
    sync_all fs retired
    pure progress.kept
