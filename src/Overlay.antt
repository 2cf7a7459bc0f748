-- ===== src/Overlay.antt =====
-- A tree seen through a set of planned changes (engine/fs/overlay.rs). Paths are their components;
-- `usize` has 64 bits; an error is its kind.
pub mod Tree
pub mod Reads
mod Examples
use reldir.Base.{
  ℕ, zero, suc, ◌+◌, ◌-◌, ◌^◌, Bool, true, false, not, ◌&&◌, ◌||◌, ltb, leb, List, [], ◌∷◌, ◌++◌,
  Option, none, some, length, take, drop, if◌then◌else◌,
}
use Prim.Native.Nat.{min}
use reldir.Store.Corruption.{Bytes}
use reldir.Store.Text.{bytes_eq, bytes_lt}

abbrev pub FilePath : Type 0
FilePath = List Bytes

pub data Kind : Type 0 where
  file dir symlink other : Kind

pub data ℤ : Type 0 where
  pos negsuc : ℕ → ℤ

pub record Stat : Type 0 where
  pub size : ℕ
  pub mtime_ns : ℤ
  pub ctime_ns : ℤ
  pub inode : ℕ
  pub device : ℕ

pub record Meta : Type 0 where
  pub kind : Kind
  pub links : ℕ
  pub stat : Stat

pub record Entry : Type 0 where
  pub path : FilePath
  pub meta : Meta

-- The kinds of `io::Error` that the overlay tells apart; any other has a number.
pub data IoError : Type 0 where
  not_found already_exists unexpected_eof : IoError
  other_error : ℕ → IoError

pub data IoResult (A : Type 0) : Type 0 where
  done : A → IoResult A
  failed : IoError → IoResult A

-- `Source`: read access to a tree.
pub record Source : Type 0 where
  pub metadata : FilePath → IoResult Meta
  pub read_dir : FilePath → IoResult (List Entry)
  pub read : FilePath → IoResult Bytes
  pub read_at : FilePath → ℕ → ℕ → IoResult Bytes

unfoldable pub path_eq : FilePath → FilePath → Bool
path_eq [] [] = true
path_eq (x ∷ xs) (y ∷ ys) = bytes_eq x y && path_eq xs ys
path_eq _ _ = false

-- `Path::strip_prefix`
unfoldable pub strip_prefix : FilePath → FilePath → Option FilePath
strip_prefix [] path = some path
strip_prefix (x ∷ xs) [] = none
strip_prefix (x ∷ xs) (y ∷ ys) =
    let rest = strip_prefix xs ys in if bytes_eq x y then rest else none

unfoldable pub starts_with : FilePath → FilePath → Bool
starts_with prefix path = elim (strip_prefix prefix path) [ none ↦ false | some rest ↦ true ]

-- `BTreeMap::get`
unfoldable pub written_bytes : FilePath → List (FilePath × Bytes) → Option Bytes
written_bytes path [] = none
written_bytes path ((at, bytes) ∷ writes) =
    let rest = written_bytes path writes in if path_eq at path then some bytes else rest

-- `BTreeSet::contains`
unfoldable pub deleted : FilePath → List FilePath → Bool
deleted path [] = false
deleted path (at ∷ deletes) = path_eq at path || deleted path deletes

-- `Stat::default`
abbrev pub no_stat : Stat
no_stat = record { size = 0; mtime_ns = pos 0; ctime_ns = pos 0; inode = 0; device = 0 }

unfoldable pub written : Bytes → Meta
written bytes = record {
  kind = file;
  links = 1;
  stat = record { size = length bytes; mtime_ns = pos 0; ctime_ns = pos 0; inode = 0; device = 0 };
}

-- `slice::get` of a range
unfoldable pub get_range : ℕ → ℕ → Bytes → Option Bytes
get_range start end bytes =
    if leb start end && leb end (length bytes)
    then some (take (end - start) (drop start bytes))
    else none

-- `start.saturating_add(len)`
unfoldable pub saturating_add : ℕ → ℕ → ℕ
saturating_add start len = min (start + len) (2 ^ 64 - 1)

unfoldable pub created_dir : FilePath → List (FilePath × Bytes) → Bool
created_dir path [] = false
created_dir path ((at, bytes) ∷ writes) =
    (starts_with path at && not (path_eq at path)) || created_dir path writes

-- What a base that has nothing there shows at a path.
unfoldable pub created_meta : FilePath → List (FilePath × Bytes) → IoResult Meta → IoResult Meta
created_meta path writes (failed not_found) =
    if created_dir path writes
    then done (record { kind = dir; links = 1; stat = no_stat })
    else failed not_found
created_meta path writes result = result

-- `name_of`: the last component, or nothing.
unfoldable pub name_of : FilePath → Bytes
name_of [] = []
name_of (x ∷ []) = x
name_of (x ∷ y ∷ ys) = name_of (y ∷ ys)

-- The entry of a child in a listing sorted by name: `binary_search_by`, then replaced or inserted.
unfoldable pub place : FilePath → Meta → List Entry → List Entry
place child meta [] = record { path = child; meta = meta } ∷ []
place child meta (e ∷ entries) =
    let later = e ∷ place child meta entries in
    let before = record { path = child; meta = meta } ∷ e ∷ entries in
    let same = record { path = e.path; meta = meta } ∷ entries in
    if bytes_lt (name_of e.path) (name_of child)
    then later
    else if bytes_eq (name_of e.path) (name_of child)
    then same
    else before

-- `entries.retain(…)`
unfoldable pub kept : List FilePath → List Entry → List Entry
kept deletes [] = []
kept deletes (e ∷ entries) =
    let rest = kept deletes entries in if deleted e.path deletes then rest else e ∷ rest

module _ (base : Source) (writes : List (FilePath × Bytes)) (deletes : List FilePath) where
  unfoldable pub overlay_metadata : FilePath → IoResult Meta
  overlay_metadata path = elim (written_bytes path writes) [
    | some bytes ↦ done (written bytes)
    | none ↦
        if deleted path deletes
        then failed not_found
        else created_meta path writes (base.metadata path)
  ]

  unfoldable pub overlay_read : FilePath → IoResult Bytes
  overlay_read path = elim (written_bytes path writes) [
    | some bytes ↦ done bytes
    | none ↦ if deleted path deletes then failed not_found else base.read path
  ]

  unfoldable pub overlay_read_at : FilePath → ℕ → ℕ → IoResult Bytes
  overlay_read_at path offset len = elim (written_bytes path writes) [
    | some bytes ↦ elim (get_range offset (saturating_add offset len) bytes) [
      | some slice ↦ done slice
      | none ↦ failed unexpected_eof
    ]
    | none ↦ if deleted path deletes then failed not_found else base.read_at path offset len
  ]

  -- The metadata of a child that the writes put there.
  unfoldable pub child_meta : FilePath → IoResult Meta
  child_meta child = elim (written_bytes child writes) [
    | some bytes ↦ done (written bytes)
    | none ↦ overlay_metadata child
  ]

  -- `for written in self.writes.keys()`: a child of `path` that a write stands for, or lies below.
  unfoldable pub place_writes :
      FilePath → List (FilePath × Bytes) → List Entry → IoResult (List Entry)
  place_writes path [] entries = done entries
  place_writes path ((at, _) ∷ rest) entries = elim (strip_prefix path at) [
    | none ↦ place_writes path rest entries
    | some [] ↦ place_writes path rest entries
    | some (first ∷ _) ↦
        let child = path ++ first ∷ [] in
        elim (child_meta child) [
          | failed e ↦ failed e
          | done meta ↦ place_writes path rest (place child meta entries)
        ]
  ]

  unfoldable pub overlay_read_dir : FilePath → IoResult (List Entry)
  overlay_read_dir path = elim (base.read_dir path) [
    | done entries ↦ place_writes path writes (kept deletes entries)
    | failed not_found ↦
        if created_dir path writes then place_writes path writes [] else failed not_found
    | failed e ↦ failed e
  ]

  unfoldable pub overlay : Source
  overlay = record {
    metadata = overlay_metadata;
    read_dir = overlay_read_dir;
    read = overlay_read;
    read_at = overlay_read_at;
  }
