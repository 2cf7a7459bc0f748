-- ===== src/Journal/Apply.antt =====
-- engine/journal.rs: `apply`, which puts a committed change in place, and its helpers.
use reldir.Base.{
  ℕ, Bool, true, false, List, [], ◌∷◌, ◌++◌, Option, none, some, codes, if◌then◌else◌,
}
use reldir.Store.Corruption.{Bytes}
use reldir.Store.Text.{bytes_lt, bytes_eq}
use reldir.Overlay.{IoError, FilePath, already_exists, path_eq}
use reldir.Files.{Fs, Act, ok, err, pure, raise, ◌>>=◌, ◌>>◌, attempt, map_err, full}
use reldir.RefPath.{decimal}
use reldir.Journal.{Code, transaction_incomplete, JournalChange, JournalArtifact}
use reldir.Journal.Preflight.{io, is_missing, is_dir}

-- Why finishing a committed change stopped; the reasons' texts are left out.
pub data Failure : Type 0 where
  sync : Code → Failure
  blocked : FilePath → Failure
  other : Code → Failure
  panic : Failure

-- `staged_name`, and the name `place_fresh` writes to.
unfoldable pub staged_name : ℕ → Bytes
staged_name n = decimal n

unfoldable pub fresh_name : ℕ → Bytes
fresh_name n = staged_name n ++ codes ".fresh"

-- `BTreeSet<PathBuf>`: paths in the order of their components, none twice.
unfoldable pub path_lt : FilePath → FilePath → Bool
path_lt [] [] = false
path_lt [] (y ∷ ys) = true
path_lt (x ∷ xs) [] = false
path_lt (x ∷ xs) (y ∷ ys) =
    let rest = path_lt xs ys in if bytes_lt x y then true else if bytes_eq x y then rest else false

unfoldable pub insert_path : FilePath → List FilePath → List FilePath
insert_path p [] = p ∷ []
insert_path p (q ∷ qs) =
    let later = q ∷ insert_path p qs in
    if path_eq p q then q ∷ qs else if path_lt p q then p ∷ q ∷ qs else later

unfoldable pub remove_path : FilePath → List FilePath → List FilePath
remove_path p [] = []
remove_path p (q ∷ qs) = let rest = remove_path p qs in if path_eq p q then qs else q ∷ rest

-- The directories from the parent of a path below the root up to the root, that the walk of
-- `apply` visits.
unfoldable pub directories_above : FilePath → FilePath → List FilePath
directories_above root [] = []
directories_above root (c ∷ cs) = directories_above (root ++ c ∷ []) cs ++ root ∷ []

unfoldable pub journal_paths : List JournalChange → List JournalArtifact → List FilePath
journal_paths [] [] = []
journal_paths [] (a ∷ rest) = a.to ∷ journal_paths [] rest
journal_paths (c ∷ cs) artifacts = c.path ∷ journal_paths cs artifacts

-- What the loop over the changes carries: the edits it keeps, and the directories to sync.
pub record Progress : Type 0 where
  pub kept : List FilePath
  pub touched : List FilePath

-- `Blobs`: bytes recorded in history.
abbrev pub Blobs : Type 0
Blobs = Bytes → Option Bytes

unfoldable pub no_blobs : Blobs
no_blobs sha256 = none

-- The bytes of history, where there are any.
abbrev pub or_lost : {W : Type 0} → Option Bytes → Act W Failure Bytes
or_lost none = raise (other transaction_incomplete)
or_lost (some bytes) = pure bytes

abbrev pub optional : {A : Type 0} → Option A → (A → Bool) → Bool
optional none test = false
optional (some a) test = test a

-- `error.kind() == AlreadyExists`
unfoldable pub is_existing : IoError → Bool
is_existing already_exists = true
is_existing _ = false

module _ (fs : Fs) where
  unfoldable pub sync_all : List FilePath → Act fs.World Failure (Unit {0})
  sync_all [] = pure tt
  sync_all (d ∷ ds) = do map_err (λ e. sync (io e)) (fs.sync_dir d); sync_all ds

  -- `fs.metadata(path).is_ok_and(|meta| meta.kind == Kind::Dir)`, and an insertion where it holds.
  unfoldable pub insert_if_dir : FilePath → List FilePath → Act fs.World Failure (List FilePath)
  insert_if_dir path paths = do
    found ← attempt (fs.metadata path)
    elim found [
      | ok meta ↦ pure (if is_dir meta.kind then insert_path path paths else paths)
      | err e ↦ pure paths
    ]

  unfoldable pub collect_dirs : List FilePath → List FilePath → Act fs.World Failure (List FilePath)
  collect_dirs [] paths = pure paths
  collect_dirs (d ∷ ds) paths = do more ← insert_if_dir d paths; collect_dirs ds more

  unfoldable pub collect_ancestors :
      FilePath → List FilePath → List FilePath → Act fs.World Failure (List FilePath)
  collect_ancestors root [] paths = pure paths
  collect_ancestors root (p ∷ ps) paths = do
    more ← collect_dirs (directories_above root p) paths
    collect_ancestors root ps more

  -- A removal that finds nothing there has nothing to do.
  unfoldable pub remove_if_there : FilePath → Act fs.World Failure (Unit {0})
  remove_if_there path = do
    removed ← attempt (fs.remove_file path)
    elim removed [
      | ok done ↦ pure tt
      | err e ↦ if is_missing e then pure tt else raise (blocked path)
    ]

  unfoldable pub place_fresh : FilePath → FilePath → Bytes → ℕ → Act fs.World Failure (Unit {0})
  place_fresh dir target bytes n = do
    remove_if_there (dir ++ fresh_name n ∷ [])
    map_err (λ e. sync (io e)) (fs.create_synced (dir ++ fresh_name n ∷ []) bytes full)
    map_err (λ e. blocked target) (fs.rename (dir ++ fresh_name n ∷ []) target)

  -- A directory that a run in parallel made first will do.
  unfoldable pub create_dir_if_missing : FilePath → Act fs.World Failure (Unit {0})
  create_dir_if_missing path = do
    made ← attempt (fs.create_dir path)
    elim made [
      | ok done ↦ pure tt
      | err e ↦ if is_existing e then pure tt else raise (blocked path)
    ]

  -- `create_parents`: the components that are left of the way from the root.
  unfoldable pub create_parents :
      FilePath → List Bytes → List FilePath → Act fs.World Failure (List FilePath)
  create_parents parent [] touched = pure touched
  create_parents parent (c ∷ cs) touched = do
    found ← attempt (fs.metadata (parent ++ c ∷ []))
    elim found [
      | ok meta ↦
          if is_dir meta.kind
          then create_parents (parent ++ c ∷ []) cs touched
          else raise (blocked (parent ++ c ∷ []))
      | err e ↦
          if is_missing e
          then (do
            create_dir_if_missing (parent ++ c ∷ [])
            map_err (λ e. sync (io e)) (fs.sync_dir parent)
            create_parents (parent ++ c ∷ []) cs (insert_path parent touched))
          else raise (blocked (parent ++ c ∷ []))
    ]
