-- ===== src/Journal/Preflight.antt =====
-- engine/journal.rs: `preflight`, the check of a plan before anything is written.
use reldir.Base.{
  ℕ, ◌≡◌, refl, Bool, true, false, not, ◌&&◌, ◌||◌, ◌==◌, ltb, leb, List, [], ◌∷◌, ◌++◌, Option,
  none, some, length, if◌then◌else◌,
}
use reldir.Store.Corruption.{Bytes}
use reldir.Store.Revision.{parse}
use reldir.Overlay.{
  FilePath, Kind, file, dir, IoError, not_found, already_exists, unexpected_eof, other_error,
  path_eq, deleted, saturating_add, name_of,
}
use reldir.Files.{
  Fs, Act, Result, ok, err, Volume, pure, raise, lift, ◌>>=◌, ◌>>◌, attempt, map_err,
}
use reldir.Journal.{
  Code, mutation_conflict, internal_error, resource_limit, path_interference, cross_device,
  filename_too_long, concurrent_modification, io_error, path_violation, Image, same_image, Change,
  write, delete, path_of, Artifact, Plan, db, is_safe, artifact_destination, Format,
  parent_and_name, prunable,
}
use reldir.Journal.Record.{image_of, all_retirable}

-- `plan.changes.is_empty() && plan.artifacts.is_empty() && plan.prune.is_empty()`
unfoldable pub is_nothing : Plan → Bool
is_nothing plan = length plan.changes == 0 && length plan.artifacts == 0 && length plan.prune == 0

-- `error.kind() == NotFound`
unfoldable pub is_missing : IoError → Bool
is_missing not_found = true
is_missing _ = false

pub missing-eq : (e : IoError) → is_missing e ≡ true → e ≡ not_found
unfolding is_missing
missing-eq not_found h = refl
missing-eq already_exists h = cc
missing-eq unexpected_eof h = cc
missing-eq (other_error n) h = cc

abbrev pub io : IoError → Code
io e = io_error

-- The paths that a plan names so far, and the bytes it writes.
pub record Tally : Type 0 where
  pub paths : List FilePath
  pub bytes : ℕ

unfoldable pub written_by : Change → ℕ
written_by (write path bytes pre) = length bytes
written_by (delete path pre) = 0

unfoldable pub tally_changes : List Change → Tally → Result Code Tally
tally_changes [] tally = ok tally
tally_changes (c ∷ cs) tally =
    let rest = tally_changes cs (record {
      paths = path_of c ∷ tally.paths;
      bytes = saturating_add tally.bytes (written_by c);
    }) in
    if not (is_safe (path_of c))
    then err path_violation
    else if deleted (path_of c) tally.paths
    then err mutation_conflict
    else rest

unfoldable pub tally_artifacts : List Artifact → Tally → Result Code Tally
tally_artifacts [] tally = ok tally
tally_artifacts (a ∷ rest) tally =
    let more = tally_artifacts rest (record {
      paths = a.to ∷ tally.paths;
      bytes = saturating_add tally.bytes (length a.bytes);
    }) in
    if not (artifact_destination a.to) || deleted a.to tally.paths then err internal_error else more

-- The pre-image a change expects of its target.
unfoldable pub expected_image : Change → Option Image
expected_image (write path bytes pre) = pre
expected_image (delete path pre) = some pre

-- `plan.changes … .chain(plan.artifacts …)`
unfoldable pub change_targets : List Change → List (FilePath × Option Change)
change_targets [] = []
change_targets (c ∷ cs) = (path_of c, some c) ∷ change_targets cs

unfoldable pub artifact_targets : List Artifact → List (FilePath × Option Change)
artifact_targets [] = []
artifact_targets (a ∷ rest) = (a.to, none) ∷ artifact_targets rest

-- `volumes.get`
unfoldable pub known_volume : FilePath → List (FilePath × Volume) → Option Volume
known_volume path [] = none
known_volume path ((at, volume) ∷ rest) =
    let later = known_volume path rest in if path_eq at path then some volume else later

unfoldable pub fits : ℕ → List Bytes → Bool
fits name_max [] = true
fits name_max (c ∷ cs) = leb (length c) name_max && fits name_max cs

unfoldable pub is_dir : Kind → Bool
is_dir dir = true
is_dir _ = false

unfoldable pub is_file : Kind → Bool
is_file file = true
is_file _ = false

unfoldable pub prunable_all : List FilePath → Bool
prunable_all [] = true
prunable_all (p ∷ ps) = prunable p && prunable_all ps

unfoldable pub known_origin : Bytes → Bool
known_origin text = elim (parse text) [ none ↦ false | some origin ↦ true ]

-- The checks that read no file.
unfoldable pub check_plan : Plan → ℕ → Result Code (Unit {0})
check_plan plan max_bytes =
    if not (known_origin plan.origin)
    then err internal_error
    else elim (tally_changes plan.changes (record { paths = []; bytes = 0 })) [
      | err e ↦ err e
      | ok tally ↦ elim (tally_artifacts plan.artifacts tally) [
        | err e ↦ err e
        | ok all ↦
            if not (all_retirable plan.retire)
            then err internal_error
            else if not (prunable_all plan.prune)
            then err internal_error
            else if ltb max_bytes all.bytes
            then err resource_limit
            else ok tt
      ]
    ]

-- All components but the last.
unfoldable pub parent_of : FilePath → FilePath
parent_of path = elim (parent_and_name path) [ none ↦ [] | some (parent, name) ↦ parent ]

module _ (fs : Fs) (format : Format) where
  -- What a file holds now, by content.
  unfoldable pub current_image : FilePath → Act fs.World Code (Option Image)
  current_image path = do
    now ← attempt (fs.read path)
    elim now [
      | ok bytes ↦ pure (some (image_of format bytes))
      | err e ↦ if is_missing e then pure none else raise (io e)
    ]

  -- The device of `.db/`, or of the root where there is none yet.
  unfoldable pub staging_device : FilePath → Act fs.World Code ℕ
  staging_device root = do
    found ← attempt (fs.volume (root ++ db ∷ []))
    elim found [
      | ok volume ↦ pure volume.device
      | err e ↦
          if is_missing e
          then (do volume ← map_err io (fs.volume root); pure volume.device)
          else raise (io e)
    ]

  -- Down from the root: the deepest directory that is there, and the names below it that are not.
  unfoldable pub descend :
      List Bytes → FilePath → List Bytes → Act fs.World Code (FilePath × List Bytes)
  descend [] existing missing = pure (existing, missing)
  descend (name ∷ names) existing (m ∷ ms) = descend names existing ((m ∷ ms) ++ name ∷ [])
  descend (name ∷ names) existing [] = do
    found ← attempt (fs.metadata (existing ++ name ∷ []))
    elim found [
      | ok meta ↦
          if is_dir meta.kind
          then descend names (existing ++ name ∷ []) []
          else raise path_interference
      | err e ↦ if is_missing e then descend names existing (name ∷ []) else raise (io e)
    ]

  -- The volume of a directory, and the cache with it.
  unfoldable pub volume_of :
      FilePath → List (FilePath × Volume) → Act fs.World Code (Volume × List (FilePath × Volume))
  volume_of existing volumes = elim (known_volume existing volumes) [
    | some volume ↦ pure (volume, volumes)
    | none ↦ do
      volume ← map_err io (fs.volume existing)
      pure (volume, (existing, volume) ∷ volumes)
  ]

  -- A target that is there is a regular file.
  unfoldable pub check_regular : FilePath → List Bytes → Act fs.World Code (Unit {0})
  check_regular target (m ∷ missing) = pure tt
  check_regular target [] = do
    found ← attempt (fs.metadata target)
    elim found [
      | ok meta ↦ if is_file meta.kind then pure tt else raise path_interference
      | err e ↦ if is_missing e then pure tt else raise (io e)
    ]

  -- The planned pre-image is still what the target holds.
  unfoldable pub check_image : FilePath → Option Change → Act fs.World Code (Unit {0})
  check_image target none = pure tt
  check_image target (some change) = do
    now ← current_image target
    if same_image now (expected_image change) then pure tt else raise concurrent_modification

  unfoldable pub check_target :
      FilePath
      → ℕ
      → FilePath
      → Option Change
      → List (FilePath × Volume)
      → Act fs.World Code (List (FilePath × Volume))
  check_target root device relative change volumes = do
    (existing, missing) ← descend (parent_of relative) root []
    (volume, known) ← volume_of existing volumes
    lift (if volume.device == device then ok tt else err cross_device)
    lift (
        if fits volume.name_max (missing ++ name_of relative ∷ [])
        then ok tt
        else err filename_too_long)
    check_regular (root ++ relative) missing
    check_image (root ++ relative) change
    pure known

  unfoldable pub check_targets :
      FilePath
      → ℕ
      → List (FilePath × Option Change)
      → List (FilePath × Volume)
      → Act fs.World Code (Unit {0})
  check_targets root device [] volumes = pure tt
  check_targets root device ((relative, change) ∷ targets) volumes = do
    known ← check_target root device relative change volumes
    check_targets root device targets known

  unfoldable pub preflight : FilePath → Plan → ℕ → Act fs.World Code (Unit {0})
  preflight root plan max_bytes = if is_nothing plan then pure tt else do
    lift (check_plan plan max_bytes)
    device ← staging_device root
    check_targets root device (change_targets plan.changes ++ artifact_targets plan.artifacts) []
