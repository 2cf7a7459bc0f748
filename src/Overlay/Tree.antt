-- ===== src/Overlay/Tree.antt =====
-- The files that a source shows, and those that a change would leave behind.
use reldir.Base.{
  ℕ, ◌≡◌, ◌≢◌, ◌≤◌, ◌<◌, ◌+◌, ◌-◌, ◌^◌, List, Option, none, some, length, take, drop, if◌then◌else◌,
}
use reldir.Store.Corruption.{Bytes}
use reldir.Overlay.{FilePath, Meta, file, IoError, done, failed, Source, written_bytes, deleted}

-- A tree of files, without the directories they stand in.
abbrev pub Files : Type 0
Files = FilePath → Option Bytes

-- The tree once the writes and the deletes have been made.
unfoldable pub planned : List (FilePath × Bytes) → List FilePath → Files → Files
planned writes deletes files path = elim (written_bytes path writes) [
  | some bytes ↦ some bytes
  | none ↦ if deleted path deletes then none else files path
]

-- A source answers with the bytes and the size of the files, whole or in part, and fails where one is
-- too short. Where there is no file, nothing is read, whole or in part, and the metadata are no file's.
pub record Shows (source : Source) (files : Files) : Type 0 where
  pub reads : (p : FilePath) (b : Bytes) → files p ≡ some b → source.read p ≡ done b
  pub misses : (p : FilePath) → files p ≡ none → (e : IoError) × (source.read p ≡ failed e)
  pub hides :
      (p : FilePath) (m : Meta) → files p ≡ none → source.metadata p ≡ done m → m.kind ≢ file
  pub slices_nothing :
      (p : FilePath) (offset len : ℕ)
      → files p ≡ none
      → (e : IoError) × (source.read_at p offset len ≡ failed e)
  pub sizes :
      (p : FilePath) (b : Bytes)
      → files p ≡ some b
      → (m : Meta) × ((source.metadata p ≡ done m) × ((m.kind ≡ file) × (m.stat.size ≡ length b)))
  pub slices :
      (p : FilePath) (b : Bytes) (offset len : ℕ)
      → files p ≡ some b
      → length b < 2 ^ 64 - 1
      → offset + len ≤ length b
      → source.read_at p offset len ≡ done (take len (drop offset b))
  pub ends :
      (p : FilePath) (b : Bytes) (offset len : ℕ)
      → files p ≡ some b
      → length b < 2 ^ 64 - 1
      → length b < offset + len
      → (e : IoError) × (source.read_at p offset len ≡ failed e)
