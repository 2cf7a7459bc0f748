-- ===== src/Journal/Record.antt =====
-- engine/journal.rs: `encode`, `decode` and `validate` of the journal.
use reldir.Base.{
  ℕ, Bool, true, false, not, ◌&&◌, ◌==◌, List, [], ◌∷◌, ◌++◌, Option, none, some, length,
  if◌then◌else◌,
}
use reldir.Store.Corruption.{Bytes}
use reldir.Store.Text.{bytes_eq, is_utf8, contains}
use reldir.Merge.Markers.{begins}
use reldir.Overlay.{FilePath, deleted}
use reldir.Files.{Result, ok, err}
use reldir.Journal.{
  Code, transaction_incomplete, Image, Journal, JournalChange, JournalArtifact, Format,
  journal_version, trailer_text, is_safe, artifact_destination, prunable,
}

infixl 5 ◌>>=◌ ◌>>◌
abbrev pub ◌>>=◌ : {A B : Type 0} → Result Code A → (A → Result Code B) → Result Code B
ok a >>= f = f a
err e >>= f = err e

abbrev pub ◌>>◌ : {A B : Type 0} → Result Code A → Result Code B → Result Code B
m >> k = m >>= λ _. k

-- An early return with an error, unless the test holds.
abbrev pub require : Bool → Code → Result Code (Unit {0})
require true e = ok tt
require false e = err e

-- The names that earlier lines of a journal took: paths, and numbers of staged files.
pub record Taken : Type 0 where
  pub paths : List FilePath
  pub staged : List ℕ

-- `match (change.n, &change.post)`
unfoldable pub consistent : Option ℕ → Option Image → Option Image → List ℕ → Bool
consistent (some n) pre (some post) staged = not (contains n staged)
consistent none (some pre) none staged = true
consistent none none none staged = false
consistent none pre (some post) staged = false
consistent (some n) pre none staged = false

unfoldable pub with_number : Option ℕ → List ℕ → List ℕ
with_number none staged = staged
with_number (some n) staged = n ∷ staged

unfoldable pub validate_changes : List JournalChange → Taken → Result Code Taken
validate_changes [] taken = ok taken
validate_changes (c ∷ cs) taken = do
  require (is_safe c.path) transaction_incomplete
  require (not (deleted c.path taken.paths) && consistent c.n c.pre c.post taken.staged)
      transaction_incomplete
  validate_changes cs
      (record { paths = c.path ∷ taken.paths; staged = with_number c.n taken.staged })

unfoldable pub validate_artifacts : List JournalArtifact → Taken → Result Code Taken
validate_artifacts [] taken = ok taken
validate_artifacts (a ∷ as') taken = do
  require
      (artifact_destination a.to
        && not (contains a.n taken.staged)
        && not (deleted a.to taken.paths))
      transaction_incomplete
  validate_artifacts as' (record { paths = a.to ∷ taken.paths; staged = a.n ∷ taken.staged })

-- `iter().any(…)`, the other way round
unfoldable pub all_retirable : List FilePath → Bool
all_retirable [] = true
all_retirable (p ∷ ps) = artifact_destination p && all_retirable ps

unfoldable pub all_prunable : List FilePath → List FilePath → Bool
all_prunable [] paths = true
all_prunable (p ∷ ps) paths = prunable p && not (deleted p paths) && all_prunable ps paths

-- `str::trim_end_matches`
unfoldable pub trim_end : ℕ → Bytes → Bytes
trim_end c [] = []
trim_end c (b ∷ bs) = elim (trim_end c bs) [
  | [] ↦ if b == c then [] else b ∷ []
  | x ∷ xs ↦ b ∷ x ∷ xs
]

unfoldable pub ends_with : ℕ → Bytes → Bool
ends_with c [] = false
ends_with c (b ∷ []) = b == c
ends_with c (b ∷ x ∷ xs) = ends_with c (x ∷ xs)

-- `windows(…).rposition(…)` and `split_at`: the text before the last occurrence, and the occurrence
-- with what follows it.
unfoldable pub split_at_last : Bytes → Bytes → Option (Bytes × Bytes)
split_at_last needle [] = none
split_at_last needle (b ∷ bs) = elim (split_at_last needle bs) [
  | some (before, from) ↦ some (b ∷ before, from)
  | none ↦ if begins needle (b ∷ bs) then some ([], b ∷ bs) else none
]

-- `[TRAILER.len()..]`
unfoldable pub after : Bytes → Bytes → Bytes
after [] bytes = bytes
after (x ∷ xs) [] = []
after (x ∷ xs) (b ∷ bs) = after xs bs

module _ (format : Format) where
  -- `Image::of`
  unfoldable pub image_of : Bytes → Image
  image_of bytes = record { sha256 = format.hash_bytes bytes; size = length bytes }

  unfoldable pub validate : Journal → Result Code (Unit {0})
  validate journal = do
    require (format.is_ulid journal.id) transaction_incomplete
    taken ← validate_changes journal.changes (record { paths = []; staged = [] })
    taken' ← validate_artifacts journal.artifacts taken
    require (all_retirable journal.retire) transaction_incomplete
    require (all_prunable journal.prune taken'.paths) transaction_incomplete

  unfoldable pub encode : Journal → Bytes
  encode journal =
      let body = format.to_vec_pretty journal ++ 0xa ∷ [] in
      body ++ (trailer_text ++ (format.hash_bytes body ++ 0xa ∷ []))

  -- A trailer that checksums the bytes before it.
  unfoldable pub sealed : Bytes → Bytes → Bool
  sealed body trailer =
      is_utf8 trailer
      && bytes_eq (trim_end 0xa trailer) (format.hash_bytes body)
      && ends_with 0xa trailer

  unfoldable pub interpret : Bytes → Result Code (Option Journal)
  interpret body = elim (format.parse_as body) [
    | none ↦ err transaction_incomplete
    | some journal ↦ do
      require (journal.reldir_journal == journal_version) transaction_incomplete
      validate journal
      ok (some journal)
  ]

  unfoldable pub decode : Bytes → Result Code (Option Journal)
  decode bytes = elim (split_at_last trailer_text bytes) [
    | none ↦ ok none
    | some (body, from) ↦ if sealed body (after trailer_text from) then interpret body else ok none
  ]
