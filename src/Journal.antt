-- ===== src/Journal.antt =====
-- engine/journal.rs: what a change is, and the journal that makes it one. The paths a change names
-- are lists of components: one that is not `Normal` is spelled `/`, `.` or `..`. The JSON of a
-- journal, SHA-256 and the form of a ULID are the parameters `Format`. An error is its code.
pub mod Record
pub mod Preflight
pub mod Apply
pub mod Placing
pub mod Commit
pub mod Recover
pub mod Untouched
pub mod Staged
pub mod Atomic
pub mod Names
pub mod Retracted
pub mod Holding
pub mod Placed
pub mod Others
pub mod Settles
pub mod Outcome
pub mod Settled
pub mod Applied
pub mod AllSettled
pub mod Valid
pub mod Made
mod Runs
mod Examples
use Prim.Native.Nat.{min}
use reldir.Base.{
  ℕ, ◌+◌, ◌-◌, ◌^◌, ◌≡◌, Bool, true, false, not, ◌&&◌, ◌||◌, ◌==◌, leb, List, [], ◌∷◌, ◌++◌, Option,
  none, some, codes, length, if◌then◌else◌,
}
use reldir.Store.Corruption.{Bytes}
use reldir.Store.Text.{bytes_eq, is_utf8}
use reldir.Store.Revision.{parse}
use reldir.Merge.Markers.{begins}
use reldir.Pointer.{rsplit_once}
use reldir.Overlay.{FilePath, path_eq, starts_with, deleted, saturating_add}
use reldir.Files.{Result, ok, err}

pub data Code : Type 0 where
  transaction_incomplete path_violation mutation_conflict internal_error resource_limit : Code
  path_interference cross_device filename_too_long concurrent_modification : Code
  internal_metadata_corrupt commit_unknown committed_recovery_pending io_error : Code

pub record Image : Type 0 where
  pub sha256 : Bytes
  pub size : ℕ

unfoldable pub image_eq : Image → Image → Bool
image_eq a b = bytes_eq a.sha256 b.sha256 && a.size == b.size

-- `==` of `Option<Image>`
unfoldable pub same_image : Option Image → Option Image → Bool
same_image none none = true
same_image (some a) (some b) = image_eq a b
same_image none (some b) = false
same_image (some a) none = false

pub data Change : Type 0 where
  write : FilePath → Bytes → Option Image → Change
  delete : FilePath → Image → Change

-- `Change::path`
unfoldable pub path_of : Change → FilePath
path_of (write path bytes pre) = path
path_of (delete path pre) = path

pub record Artifact : Type 0 where
  pub bytes : Bytes
  pub to : FilePath

pub record Plan : Type 0 where
  pub origin : Bytes
  pub planned_against : Option Bytes
  pub revision : Option Bytes
  pub idempotency_key : Option Bytes
  pub changes : List Change
  pub artifacts : List Artifact
  pub retire : List FilePath
  pub prune : List FilePath

pub record JournalChange : Type 0 where
  pub n : Option ℕ
  pub path : FilePath
  pub pre : Option Image
  pub post : Option Image

pub record JournalArtifact : Type 0 where
  pub n : ℕ
  pub to : FilePath
  pub post : Image

pub record Journal : Type 0 where
  pub reldir_journal : ℕ
  pub id : Bytes
  pub origin : Bytes
  pub created : Bytes
  pub planned_against : Option Bytes
  pub revision : Option Bytes
  pub idempotency_key : Option Bytes
  pub changes : List JournalChange
  pub artifacts : List JournalArtifact
  pub retire : List FilePath
  pub prune : List FilePath

abbrev pub journal_version : ℕ
journal_version = 3

abbrev pub trailer_text : Bytes
trailer_text = codes "#reldir-journal-end "

abbrev pub db : Bytes
db = codes ".db"

-- `store`: where transactions are staged.
unfoldable pub store : FilePath → FilePath
store root = root ++ db ∷ codes "transactions" ∷ []

-- `Component::Normal`
unfoldable pub is_normal : Bytes → Bool
is_normal c =
    not (bytes_eq c (codes "/")) && not (bytes_eq c (codes ".")) && not (bytes_eq c (codes ".."))

unfoldable pub all_normal : FilePath → Bool
all_normal [] = true
all_normal (c ∷ cs) = is_normal c && all_normal cs

unfoldable pub plain_relative : FilePath → Bool
plain_relative [] = false
plain_relative (c ∷ cs) = is_normal c && all_normal cs

-- `Path::parent` and `Path::file_name`
unfoldable pub parent_and_name : FilePath → Option (FilePath × Bytes)
parent_and_name [] = none
parent_and_name (c ∷ cs) = elim (parent_and_name cs) [
  | none ↦ some ([], c)
  | some (parent, name) ↦ some (c ∷ parent, name)
]

-- `Path::extension`: what follows the last dot of the name, unless the name begins there.
unfoldable pub extension : Bytes → Option Bytes
extension name = elim (rsplit_once b'.' name) [
  | none ↦ none
  | some ([], after) ↦ none
  | some (b ∷ before, after) ↦ some after
]

unfoldable pub is_json : Bytes → Bool
is_json name = elim (extension name) [ none ↦ false | some e ↦ bytes_eq e (codes "json") ]

unfoldable pub governed_metadata : FilePath → Bool
governed_metadata path = path_eq path (db ∷ codes "config" ∷ []) || elim (parent_and_name path) [
  | none ↦ false
  | some (parent, name) ↦ path_eq parent (db ∷ codes "schema" ∷ []) && is_json name
]

-- `safe_relative`, as the test it refuses by.
unfoldable pub is_safe : FilePath → Bool
is_safe path =
    plain_relative path && not (starts_with (db ∷ []) path && not (governed_metadata path))

unfoldable pub safe_relative : FilePath → Result Code (Unit {0})
safe_relative path = if is_safe path then ok tt else err path_violation

unfoldable pub artifact_destination : FilePath → Bool
artifact_destination path =
    plain_relative path
    && (starts_with (db ∷ codes "objects" ∷ codes "pack" ∷ []) path
        || starts_with (db ∷ codes "history" ∷ []) path)

unfoldable pub prunable : FilePath → Bool
prunable path =
    plain_relative path
    && length path == 1
    && not (starts_with (db ∷ []) path)
    && not (starts_with (codes "schema" ∷ []) path)

-- What the journal takes from libraries: JSON of a journal with a newline at its end, and back,
-- hexadecimal SHA-256, and whether a text is a ULID.
pub record Format : Type 0 where
  pub to_vec_pretty : Journal → Bytes
  pub parse_as : Bytes → Option Journal
  pub hash_bytes : Bytes → Bytes
  pub is_ulid : Bytes → Bool
