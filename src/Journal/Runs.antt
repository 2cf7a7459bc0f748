-- ===== src/Journal/Runs.antt =====
-- A journal of two writes and a removal, made on a disk in memory where one target was edited.
use reldir.Base.{◌≡◌, refl, false, [], ◌∷◌, ◌++◌, All, none, some, codes, length}
use reldir.Store.Corruption.{Bytes}
use reldir.Store.Text.{bytes_eq, bytes_lt, contains}
use reldir.Overlay.{FilePath, path_eq, strip_prefix, starts_with, deleted}
use reldir.RefPath.{decimal, decimal_digits}
use reldir.Files.{ok, file_of, dir_here, attempt, map_err, ◌>>=◌}
use reldir.Files.Memory.{Disk, memory}
use reldir.Files.Lawful.{memory-IsFs}
use reldir.Journal.{
  Journal, JournalChange, Image, store, is_safe, plain_relative, all_normal, is_normal,
  governed_metadata, parent_and_name, same_image, image_eq, is_json,
}
use reldir.Journal.Record.{
  validate, validate_changes, validate_artifacts, all_retirable, all_prunable, consistent,
  with_number, image_of,
}
use reldir.Journal.Preflight.{current_image, is_dir, is_missing, parent_of}
use reldir.Journal.Apply.{
  Progress, no_blobs, insert_if_dir, create_parents, remove_if_there, insert_path, path_lt,
  staged_name,
}
use reldir.Journal.Placing.{apply_changes, apply_change, apply_to, apply_write, apply_delete, place}
use reldir.Journal.Others.{Ready}
use reldir.Journal.Applied.{RecallsPost}
use reldir.Journal.Outcome.{file_at, outside_edits}
use reldir.Journal.AllSettled.{SettledFrom}
use reldir.Journal.Made.{beginning, apply_changes-Settled}
use reldir.Journal.Examples.{format, root}

abbrev image : Bytes → Image
image b = record { sha256 = b; size = length b }

abbrev id : Bytes
id = codes "01J"

abbrev new_row : JournalChange
new_row = record {
  n = some 0;
  path = codes "users" ∷ codes "2.json" ∷ [];
  pre = none;
  post = some (image (codes "{}"));
}

abbrev old_row : JournalChange
old_row = record {
  n = none;
  path = codes "users" ∷ codes "1.json" ∷ [];
  pre = some (image (codes "[]"));
  post = none;
}

abbrev edited_row : JournalChange
edited_row = record {
  n = some 1;
  path = codes "users" ∷ codes "3.json" ∷ [];
  pre = some (image (codes "[]"));
  post = some (image (codes "{}"));
}

abbrev journal : Journal
journal = record {
  reldir_journal = 3;
  id = id;
  origin = codes "user";
  created = [];
  planned_against = none;
  revision = none;
  idempotency_key = none;
  changes = new_row ∷ edited_row ∷ old_row ∷ [];
  artifacts = [];
  retire = [];
  prune = [];
}

abbrev disk : Disk
disk = record {
  cells =
      (root ++ codes "users" ∷ [], some dir_here)
      ∷ (root ++ old_row.path, some (file_of (codes "[]")))
      ∷ (
        (root ++ codes ".db" ∷ codes "transactions" ∷ id ∷ []) ++ codes "0" ∷ [],
        some (file_of (codes "{}")),
      )
      ∷ (
        (root ++ codes ".db" ∷ codes "transactions" ∷ id ∷ []) ++ codes "1" ∷ [],
        some (file_of (codes "{}")),
      )
      ∷ (root ++ edited_row.path, some (file_of (codes "[7]")))
      ∷ [];
  faults = [];
}

abbrev dir : FilePath
dir = store root ++ id ∷ []

abbrev finished : Progress
finished = record { kept = edited_row.path ∷ []; touched = (root ++ codes "users" ∷ []) ∷ [] }

is_valid : validate format journal ≡ ok tt
unfolding validate validate_changes validate_artifacts all_retirable all_prunable consistent
    with_number is_safe plain_relative all_normal is_normal governed_metadata parent_and_name
    is_json starts_with strip_prefix path_eq bytes_eq deleted contains
is_valid = refl

is_made :
    (apply_changes memory format root dir false no_blobs journal.changes beginning disk).0
    ≡ ok finished
unfolding apply_changes apply_change apply_to apply_write apply_delete place insert_if_dir
    create_parents remove_if_there insert_path path_lt staged_name decimal decimal_digits
    current_image is_dir is_missing parent_of image_of store parent_and_name same_image image_eq
    path_eq bytes_eq bytes_lt ◌>>=◌ attempt map_err
is_made = refl

recalled : All (λ (c : JournalChange). RecallsPost format no_blobs c.post) journal.changes
unfolding no_blobs
recalled = (λ b e. cc, (λ b e. cc, (tt, tt)))

disk-Ready :
    All (λ (c : JournalChange). Ready memory memory-IsFs format dir c.n c.post disk) journal.changes
unfolding staged_name decimal decimal_digits path_eq bytes_eq store image_of
disk-Ready = ((codes "{}", (refl, refl)), ((codes "{}", (refl, refl)), (tt, tt)))

apply_changes-Settled_example :
    (finished.kept
      ≡ outside_edits format (λ path. file_at memory disk (root ++ path)) journal.changes)
    × All
        (SettledFrom memory format root disk
          (apply_changes memory format root dir false no_blobs journal.changes beginning disk).1)
        journal.changes
apply_changes-Settled_example =
    apply_changes-Settled memory memory-IsFs format root journal false no_blobs disk finished
      is_valid recalled disk-Ready is_made
