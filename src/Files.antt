-- ===== src/Files.antt =====
-- engine/fs/mod.rs: the file system as the engine reads and writes it. `Fs` is the trait, its
-- implementation unknown: an operation turns the world into another, after an error too. `IsFs` is
-- what the trait's comments promise of the operations, in terms of what each path holds.
pub mod Rules
pub mod Ensures
pub mod Stays
pub mod Memory
pub mod Lawful
use reldir.Base.{ℕ, ◌≡◌, ◌≢◌, List, [], ◌∷◌, ◌++◌, All, Option, none, some}
use reldir.Store.Corruption.{Bytes}
use reldir.Overlay.{FilePath, Meta, Entry, IoError, not_found}

pub data Result (E A : Type 0) : Type 0 where
  ok : A → Result E A
  err : E → Result E A

-- An operation on a world: what it gives, and the world after it.
abbrev pub Act : Type 0 → Type 0 → Type 0 → Type 0
Act W E A = W → Result E A × W

module _ {W E A : Type 0} where
  abbrev pub pure : A → Act W E A
  pure a w = (ok a, w)

  abbrev pub raise : E → Act W E A
  raise e w = (err e, w)

  abbrev pub lift : Result E A → Act W E A
  lift r w = (r, w)

module _ {W E A B : Type 0} where
  abbrev pub continue : Result E A → (A → Act W E B) → Act W E B
  continue (ok a) f w = f a w
  continue (err e) f w = (err e, w)

  infixl 5 ◌>>=◌ ◌>>◌
  unfoldable pub ◌>>=◌ : Act W E A → (A → Act W E B) → Act W E B
  ◌>>=◌ m f w = let (r, w') = m w in continue r f w'

  abbrev pub ◌>>◌ : Act W E A → Act W E B → Act W E B
  m >> n = m >>= λ _. n

-- The result as a value: what `match` takes apart, and `let _ =` drops.
unfoldable pub attempt : {W E F A : Type 0} → Act W E A → Act W F (Result E A)
attempt m w = let (r, w') = m w in (ok r, w')

-- `map_err`
abbrev pub mapped : {E F A : Type 0} → (E → F) → Result E A → Result F A
mapped f (ok a) = ok a
mapped f (err e) = err (f e)

unfoldable pub map_err : {W E F A : Type 0} → (E → F) → Act W E A → Act W F A
map_err f m w = let (r, w') = m w in (mapped f r, w')

pub data Durability : Type 0 where
  barrier full : Durability

pub record Volume : Type 0 where
  pub name_max : ℕ
  pub device : ℕ

-- What a path holds.
pub data Held : Type 0 where
  file_of : Bytes → Held
  dir_here other_here : Held

-- `Source` and `Fs`
pub record Fs : Type 1 where
  pub World : Type 0
  pub held : World → FilePath → Option Held
  pub metadata : FilePath → Act World IoError Meta
  pub read_dir : FilePath → Act World IoError (List Entry)
  pub read : FilePath → Act World IoError Bytes
  pub create_new : FilePath → Bytes → Act World IoError (Unit {0})
  pub create_synced : FilePath → Bytes → Durability → Act World IoError (Unit {0})
  pub sync_files : List FilePath → Durability → Act World IoError (Unit {0})
  pub sync_dir : FilePath → Act World IoError (Unit {0})
  pub rename : FilePath → FilePath → Act World IoError (Unit {0})
  pub remove_file : FilePath → Act World IoError (Unit {0})
  pub create_dir : FilePath → Act World IoError (Unit {0})
  pub remove_dir : FilePath → Act World IoError (Unit {0})
  pub volume : FilePath → Act World IoError Volume

-- Whatever an operation gives, the paths in `P` hold after it what they held before.
pub record Keeps (fs : Fs) {E A : Type 0} (P : FilePath → Type 0) (m : Act fs.World E A)
    : Type 0 where
  pub at : (w : fs.World) (q : FilePath) → P q → fs.held (m w).1 q ≡ fs.held w q

abbrev pub Anywhere : FilePath → Type 0
Anywhere q = Unit

abbrev pub Elsewhere : FilePath → FilePath → Type 0
Elsewhere p q = q ≢ p

abbrev pub Apart : FilePath → FilePath → FilePath → Type 0
Apart from to q = (q ≢ from) × (q ≢ to)

-- The promises, for trees without symbolic links: a read, which would follow one, gives what the path
-- itself holds.
pub record IsFs (fs : Fs) : Type 0 where
  pub metadata_keeps : (p : FilePath) → Keeps fs Anywhere (fs.metadata p)
  pub read_dir_keeps : (p : FilePath) → Keeps fs Anywhere (fs.read_dir p)
  pub read_keeps : (p : FilePath) → Keeps fs Anywhere (fs.read p)
  pub volume_keeps : (p : FilePath) → Keeps fs Anywhere (fs.volume p)
  pub sync_files_keeps :
      (ps : List FilePath) (d : Durability) → Keeps fs Anywhere (fs.sync_files ps d)
  pub sync_dir_keeps : (p : FilePath) → Keeps fs Anywhere (fs.sync_dir p)
  pub create_new_keeps : (p : FilePath) (b : Bytes) → Keeps fs (Elsewhere p) (fs.create_new p b)
  pub create_synced_keeps :
      (p : FilePath) (b : Bytes) (d : Durability) → Keeps fs (Elsewhere p) (fs.create_synced p b d)
  pub remove_file_keeps : (p : FilePath) → Keeps fs (Elsewhere p) (fs.remove_file p)
  pub create_dir_keeps : (p : FilePath) → Keeps fs (Elsewhere p) (fs.create_dir p)
  pub remove_dir_keeps : (p : FilePath) → Keeps fs (Elsewhere p) (fs.remove_dir p)
  pub metadata_missing :
      (p : FilePath) (w : fs.World) → (fs.metadata p w).0 ≡ err not_found → fs.held w p ≡ none
  -- No operation on directories makes a file.
  pub create_dir_no_file :
      (p : FilePath) (w : fs.World) (b : Bytes)
      → fs.held (fs.create_dir p w).1 p ≡ some (file_of b)
      → fs.held w p ≡ some (file_of b)
  pub rename_keeps :
      (from to : FilePath) (w : fs.World) (b : Bytes) (q : FilePath)
      → fs.held w from ≡ some (file_of b)
      → Apart from to q
      → fs.held (fs.rename from to w).1 q ≡ fs.held w q
  -- A rename happens whole or not at all.
  pub renamed :
      (from to : FilePath) (w : fs.World) (b : Bytes)
      → fs.held w from ≡ some (file_of b)
      → (fs.rename from to w).0 ≡ ok tt
      → fs.held (fs.rename from to w).1 to ≡ some (file_of b)
  pub create_done :
      (p : FilePath) (b : Bytes) (w : fs.World)
      → (fs.create_new p b w).0 ≡ ok tt
      → fs.held (fs.create_new p b w).1 p ≡ some (file_of b)
  pub create_synced_done :
      (p : FilePath) (b : Bytes) (d : Durability) (w : fs.World)
      → (fs.create_synced p b d w).0 ≡ ok tt
      → fs.held (fs.create_synced p b d w).1 p ≡ some (file_of b)
  pub read_done :
      (p : FilePath) (b : Bytes) (w : fs.World)
      → (fs.read p w).0 ≡ ok b
      → fs.held w p ≡ some (file_of b)
  pub read_missing :
      (p : FilePath) (w : fs.World) → (fs.read p w).0 ≡ err not_found → fs.held w p ≡ none
  pub remove_done :
      (p : FilePath) (w : fs.World)
      → (fs.remove_file p w).0 ≡ ok tt
      → fs.held (fs.remove_file p w).1 p ≡ none
  pub remove_missing :
      (p : FilePath) (w : fs.World)
      → (fs.remove_file p w).0 ≡ err not_found
      → fs.held (fs.remove_file p w).1 p ≡ none
  -- A removal creates nothing.
  pub remove_only :
      (p q : FilePath) (w : fs.World) → fs.held w q ≡ none → fs.held (fs.remove_file p w).1 q ≡ none
  -- A listing names what stands in the directory.
  pub listed :
      (p : FilePath) (es : List Entry) (w : fs.World)
      → (fs.read_dir p w).0 ≡ ok es
      → All (λ (e : Entry). (name : Bytes) × (e.path ≡ p ++ name ∷ [])) es
