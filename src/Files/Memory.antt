-- ===== src/Files/Memory.antt =====
-- A file system in memory, in which any operation can be made to fail: it keeps the promises.
use reldir.Base.{
  ◌≡◌, ◌≢◌, ◌↔◌, refl, sym, Bool, true, false, List, [], ◌∷◌, ◌++◌, Option, none, some, arith,
  Bool-cases, inl, inr, if◌then◌else◌,
}
use reldir.Store.Corruption.{Bytes}
use reldir.Store.Text.{bytes_eq_iff}
use reldir.Overlay.{
  FilePath, Kind, file, dir, other, Meta, Entry, IoError, not_found, already_exists, other_error,
  path_eq, no_stat, strip_prefix,
}
use reldir.Files.{Fs, Act, Result, ok, err, Held, file_of, dir_here, other_here}

-- What was last put at each path, the newest first; and which of the operations to come fail.
pub record Disk : Type 0 where
  pub cells : List (FilePath × Option Held)
  pub faults : List Bool

abbrev pub found : FilePath → List (FilePath × Option Held) → Option Held
found q [] = none
found q ((p, h) ∷ cells) = let rest = found q cells in if path_eq p q then h else rest

pub path_eq_iff : (p q : FilePath) → (path_eq p q ≡ true) ↔ (p ≡ q)
unfolding path_eq
path_eq_iff [] [] = (λ h. refl, λ h. refl)
path_eq_iff [] (y ∷ ys) = (λ h. cc, λ h. cc)
path_eq_iff (x ∷ xs) [] = (λ h. cc, λ h. cc)
path_eq_iff (x ∷ xs) (y ∷ ys) = ground (arith, bytes_eq_iff x y, path_eq_iff xs ys)

pub found-put_self :
    (p : FilePath) (h : Option Held) (cells : List (FilePath × Option Held))
    → found p ((p, h) ∷ cells) ≡ h
found-put_self p h cells = rw ((path_eq_iff p p).1 refl)

pub found-put_ne :
    (p q : FilePath) (h : Option Held) (cells : List (FilePath × Option Held))
    → q ≢ p
    → found q ((p, h) ∷ cells) ≡ found q cells
found-put_ne p q h cells n = elim (Bool-cases (path_eq p q)) [
  | inl y ↦ absurd (n (sym ((path_eq_iff p q).0 y)))
  | inr m ↦ rw m
]

abbrev pub Cells : Type 0
Cells = List (FilePath × Option Held)

-- The error of an operation that is made to fail.
abbrev pub broken : IoError
broken = other_error 5

abbrev pub faulty : {A : Type 0} → (Cells → Result IoError A × Cells) → Act Disk IoError A
faulty op d = elim d.faults [
  | [] ↦ ((op d.cells).0, record { cells = (op d.cells).1; faults = [] })
  | true ∷ faults ↦ (err broken, record { cells = d.cells; faults = faults })
  | false ∷ faults ↦ ((op d.cells).0, record { cells = (op d.cells).1; faults = faults })
]

-- What holds of an operation that runs and of one that fails holds of one that may do either.
pub faulty_by :
    {A : Type 0} (op : Cells → Result IoError A × Cells)
    (Claim : Cells → Result IoError A → Cells → Type 0)
    → ((c : Cells) → Claim c (op c).0 (op c).1)
    → ((c : Cells) → Claim c (err broken) c)
    → (d : Disk) → Claim d.cells (faulty op d).0 (faulty op d).1.cells
faulty_by {A} op Claim run fail d = by_faults d.faults d.cells
  where
    by_faults :
        (faults : List Bool) (cells : Cells)
        → Claim cells
            (faulty op (record { cells = cells; faults = faults })).0
            (faulty op (record { cells = cells; faults = faults })).1.cells
    by_faults [] cells = run cells
    by_faults (true ∷ faults) cells = fail cells
    by_faults (false ∷ faults) cells = run cells

abbrev pub meta_at : Kind → Meta
meta_at kind = record { kind = kind; links = 1; stat = no_stat }

abbrev pub kind_of : Held → Kind
kind_of (file_of b) = file
kind_of dir_here = dir
kind_of other_here = other

abbrev pub meta_result : Option Held → Result IoError Meta
meta_result none = err not_found
meta_result (some h) = ok (meta_at (kind_of h))

abbrev pub metadata_op : FilePath → Cells → Result IoError Meta × Cells
metadata_op p c = (meta_result (found p c), c)

abbrev pub contents : Option Held → Result IoError Bytes
contents none = err not_found
contents (some (file_of b)) = ok b
contents (some dir_here) = err broken
contents (some other_here) = err broken

abbrev pub child_name : Option FilePath → Option Bytes
child_name none = none
child_name (some []) = none
child_name (some (name ∷ [])) = some name
child_name (some (name ∷ x ∷ xs)) = none

-- An entry for a child that holds something, unless an older cell gives it.
abbrev pub add_entry : FilePath → Option Bytes → Option Held → Option Held → List Entry → List Entry
add_entry p none held older others = others
add_entry p (some name) none older others = others
add_entry p (some name) (some h) (some x) others = others
add_entry p (some name) (some h) none others =
    record { path = p ++ name ∷ []; meta = meta_at (kind_of h) } ∷ others

-- The entries of the cells that stand right below a path, each once.
abbrev pub entries_at : FilePath → Cells → Cells → List Entry
entries_at p [] all = []
entries_at p ((q, h) ∷ rest) all =
    add_entry p (child_name (strip_prefix p q)) (found q all) (found q rest) (entries_at p rest all)

abbrev pub create_op : FilePath → Held → Cells → Result IoError (Unit {0}) × Cells
create_op p h c = elim (found p c) [
  | none ↦ (ok tt, (p, some h) ∷ c)
  | some old ↦ (err already_exists, c)
]

abbrev pub remove_op : FilePath → Cells → Result IoError (Unit {0}) × Cells
remove_op p c = elim (found p c) [ none ↦ (err not_found, c) | some h ↦ (ok tt, (p, none) ∷ c) ]

abbrev pub rename_op : FilePath → FilePath → Cells → Result IoError (Unit {0}) × Cells
rename_op from to c = elim (found from c) [
  | none ↦ (err not_found, c)
  | some h ↦ (ok tt, (to, some h) ∷ (from, none) ∷ c)
]

abbrev pub unchanged : {A : Type 0} → A → Cells → Result IoError A × Cells
unchanged a c = (ok a, c)

abbrev pub memory : Fs
memory = record {
  World = Disk;
  held = λ d p. found p d.cells;
  metadata = λ p. faulty (metadata_op p);
  read_dir = λ p. faulty (λ c. (ok (entries_at p c c), c));
  read = λ p. faulty (λ c. (contents (found p c), c));
  create_new = λ p b. faulty (create_op p (file_of b));
  create_synced = λ p b d. faulty (create_op p (file_of b));
  sync_files = λ ps d. faulty (unchanged tt);
  sync_dir = λ p. faulty (unchanged tt);
  rename = λ from to. faulty (rename_op from to);
  remove_file = λ p. faulty (remove_op p);
  create_dir = λ p. faulty (create_op p dir_here);
  remove_dir = λ p. faulty (remove_op p);
  volume = λ p. faulty (unchanged (record { name_max = 255; device = 1 }));
}
