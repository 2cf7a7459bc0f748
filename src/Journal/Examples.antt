-- ===== src/Journal/Examples.antt =====
-- A commit on a disk in memory whose fifth operation fails, one that is made, and one that fails past
-- its commit point.
use reldir.Base.{◌≡◌, refl, Bool, true, false, List, [], ◌∷◌, ◌++◌, none, some, codes}
use reldir.Store.Corruption.{Bytes}
use reldir.Overlay.{FilePath}
use reldir.Files.{err, pure, file_of, dir_here, attempt, map_err, ◌>>=◌}
use reldir.Files.Memory.{Disk, memory}
use reldir.Files.Lawful.{memory-IsFs}
use reldir.RefPath.{decimal, decimal_digits}
use reldir.Store.Text.{bytes_eq, bytes_lt}
use reldir.Overlay.{path_eq, strip_prefix}
use reldir.Journal.{io_error, Plan, write, Format, image_eq, parent_and_name, same_image, store}
use reldir.Journal.Record.{encode, image_of}
use reldir.Journal.Preflight.{current_image, is_dir, is_file, parent_of, is_nothing, is_missing}
use reldir.Journal.Apply.{
  collect_ancestors, collect_dirs, create_dir_if_missing, create_parents, directories_above,
  fresh_name, insert_if_dir, insert_path, journal_paths, no_blobs, path_lt, place_fresh,
  remove_if_there, remove_path, staged_name, sync_all,
}
use reldir.Journal.Placing.{
  apply, apply_change, apply_changes, apply_delete, apply_to, apply_write, place, prune_dir,
  prune_dirs, publish, publish_all, retire_all, rewrite_in_place, sync_ancestors,
}
use reldir.Journal.Commit.{
  Observer, apply_or_pending, complete, finish, journal_of, not_durable, paths_of, pending_after,
  record_journal, retract, stage_artifact, sync_writes, commit, prepare, ensure_dir, stage,
  stage_all, create_all, staging_of, stage_changes, stage_change, stage_artifacts, discard,
  discard_entries, unless_missing,
}
use reldir.Journal.Atomic.{Outside, commit-atomic}
use reldir.Journal.Retracted.{journal_at, commit-retracts}

abbrev pub format : Format
format = record {
  to_vec_pretty = λ j. j.id;
  parse_as = λ b. none;
  hash_bytes = λ b. b;
  is_ulid = λ b. true;
}

abbrev observer : Observer Disk
observer = record { committed = λ j. pure tt; applied = λ j. pure tt }

abbrev pub root : FilePath
root = codes "home" ∷ codes "db" ∷ []

abbrev row : FilePath
row = root ++ codes "users" ∷ codes "1.json" ∷ []

abbrev plan : Plan
plan = record {
  origin = codes "user";
  planned_against = none;
  revision = none;
  idempotency_key = none;
  changes = write (codes "users" ∷ codes "1.json" ∷ []) (codes "{}") none ∷ [];
  artifacts = [];
  retire = [];
  prune = [];
}

abbrev disk : List Bool → Disk
disk faults = record {
  cells =
      (root ++ codes ".db" ∷ [], some dir_here) ∷ (root ++ codes "users" ∷ [], some dir_here) ∷ [];
  faults = faults;
}

abbrev fifth_fails : Disk
fifth_fails = disk (false ∷ false ∷ false ∷ false ∷ true ∷ [])

abbrev id : Bytes
id = codes "01J"

-- The steps of a commit that stops at the fifth operation.
staging_fails : (commit memory format root id [] plan observer fifth_fails).0 ≡ err io_error
unfolding ◌>>=◌ attempt map_err path_eq strip_prefix bytes_eq bytes_lt decimal decimal_digits
    image_eq parent_and_name same_image store encode image_of current_image is_dir is_file parent_of
    is_nothing is_missing collect_ancestors collect_dirs create_dir_if_missing create_parents
    directories_above fresh_name insert_if_dir insert_path journal_paths no_blobs path_lt
    place_fresh remove_if_there remove_path staged_name sync_all apply apply_change apply_changes
    apply_delete apply_to apply_write place prune_dir prune_dirs publish publish_all retire_all
    rewrite_in_place sync_ancestors apply_or_pending complete finish journal_of not_durable paths_of
    pending_after record_journal retract stage_artifact sync_writes commit prepare ensure_dir stage
    stage_all create_all staging_of stage_changes stage_change stage_artifacts discard
    discard_entries unless_missing
staging_fails = refl

row-Outside : Outside (store root) row
unfolding store
row-Outside rest e = cc

no_journal : memory.held fifth_fails (journal_at root id) ≡ none
unfolding path_eq store bytes_eq
no_journal = refl

commit-atomic_example :
    memory.held (commit memory format root id [] plan observer fifth_fails).1 row
    ≡ memory.held fifth_fails row
commit-atomic_example =
    commit-atomic memory memory-IsFs format root id [] plan observer fifth_fails io_error
      staging_fails (λ e. cc) row row-Outside

commit-retracts_example :
    memory.held (commit memory format root id [] plan observer fifth_fails).1 (journal_at root id)
    ≡ none
commit-retracts_example =
    commit-retracts memory memory-IsFs format root id [] plan observer fifth_fails io_error
      no_journal staging_fails (λ e. cc) (λ e. cc)

row_is_written :
    memory.held (commit memory format root id [] plan observer (disk [])).1 row
    ≡ some (file_of (codes "{}"))
unfolding ◌>>=◌ attempt map_err path_eq strip_prefix bytes_eq bytes_lt decimal decimal_digits
    image_eq parent_and_name same_image store encode image_of current_image is_dir is_file parent_of
    is_nothing is_missing collect_ancestors collect_dirs create_dir_if_missing create_parents
    directories_above fresh_name insert_if_dir insert_path journal_paths no_blobs path_lt
    place_fresh remove_if_there remove_path staged_name sync_all apply apply_change apply_changes
    apply_delete apply_to apply_write place prune_dir prune_dirs publish publish_all retire_all
    rewrite_in_place sync_ancestors apply_or_pending complete finish journal_of not_durable paths_of
    pending_after record_journal retract stage_artifact sync_writes commit prepare ensure_dir stage
    stage_all create_all staging_of stage_changes stage_change stage_artifacts discard
    discard_entries unless_missing
row_is_written = refl
