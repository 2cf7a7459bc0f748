-- ===== src/Journal/Outcome.antt =====
-- What `apply` (engine/journal.rs) owes a path, by the file that the path held first. A path that is
-- neither as a change was made from nor as it makes it was edited from outside.
use reldir.Base.{
  ◌≡◌, ◌≢◌, ◌⊎◌, ◌↔◌, refl, sym, ap, ◌∙◌, subst, inl, inr, ==_iff, Bool, true, false, not, ◌&&◌,
  List, [], ◌∷◌, ◌++◌, Option, none, some,
}
use reldir.Store.Corruption.{Bytes}
use reldir.Store.Text.{bytes_eq_refl}
use reldir.Overlay.{FilePath}
use reldir.Files.{Fs, IsFs, Held, file_of, dir_here, other_here}
use reldir.Journal.{Format, Image, JournalChange, same_image, image_eq}
use reldir.Journal.Record.{image_of}
use reldir.Journal.Holding.{Lasting, NoFile}
use reldir.Journal.Placed.{HasImage}
use reldir.Journal.Settles.{image_eq-eq, Sees}

-- The bytes of a file, where there is one.
abbrev pub file_in : Option Held → Option Bytes
file_in none = none
file_in (some (file_of b)) = some b
file_in (some dir_here) = none
file_in (some other_here) = none

abbrev pub file_at : (fs : Fs) → fs.World → FilePath → Option Bytes
file_at fs w path = file_in (fs.held w path)

abbrev pub image_of_file : Format → Option Bytes → Option Image
image_of_file format none = none
image_of_file format (some b) = some (image_of format b)

abbrev pub outside : Format → Option Image → Option Image → Option Bytes → Bool
outside format pre post f =
    not (same_image (image_of_file format f) post) && not (same_image (image_of_file format f) pre)

abbrev pub add_if : Bool → FilePath → List FilePath → List FilePath
add_if true path paths = path ∷ paths
add_if false path paths = paths

-- The paths of the changes that meet an edit from outside, by the file that each path holds.
abbrev pub outside_edits : Format → (FilePath → Option Bytes) → List JournalChange → List FilePath
outside_edits format file [] = []
outside_edits format file (c ∷ cs) =
    add_if (outside format c.pre c.post (file c.path)) c.path (outside_edits format file cs)

-- From the file `before` to the file `after`, or none: an edit from outside stands as it was; a path
-- that was as the change was made from, or as it makes it, is as it makes it.
abbrev pub Settled : Format → Option Image → Option Image → Option Bytes → Option Bytes → Type 0
Settled format pre post before after =
    (((image_of_file format before ≡ pre) ⊎ (image_of_file format before ≡ post))
      × (image_of_file format after ≡ post))
    ⊎ (((image_of_file format before ≢ pre) × (image_of_file format before ≢ post))
        × (after ≡ before))

-- The same by the test of the code: `edit` says that the file `before` is an edit from outside.
abbrev pub Left : Format → Option Image → Option Bytes → Bool → Option Bytes → Type 0
Left format post before true after = after ≡ before
Left format post before false after = image_of_file format after ≡ post

abbrev pub Added : Bool → FilePath → List FilePath → List FilePath → Type 0
Added true path kept more = more ≡ kept ++ path ∷ []
Added false path kept more = more ≡ kept

same_image-eq : (a b : Option Image) → (same_image a b ≡ true) ↔ (a ≡ b)
unfolding same_image image_eq
same_image-eq none none = (λ h. refl, λ h. refl)
same_image-eq none (some b) = (λ h. cc, λ h. cc)
same_image-eq (some a) none = (λ h. cc, λ h. cc)
same_image-eq (some a) (some b) = (
  λ h. ap some (image_eq-eq a b h),
  λ h.
      let same : a ≡ b = cc in
      subst (λ x. image_eq a x ≡ true) same
        (rw (bytes_eq_refl a.sha256, (==_iff a.size a.size).1 refl) refl),
)

not_same : (a b : Option Image) → same_image a b ≡ false → a ≢ b
not_same a b n e = let clash : true ≡ false = sym ((same_image-eq a b).1 e) ∙ n in absurd (cc)

pub Left-Settled :
    (format : Format) (pre post : Option Image) (before after : Option Bytes)
    → Left format post before (outside format pre post before) after
    → Settled format pre post before after
Left-Settled format pre post before after h =
    by_tests (same_image image post) (same_image image pre) refl refl h
  where
    image : Option Image
    image = image_of_file format before

    by_tests :
        (p q : Bool)
        → same_image image post ≡ p
        → same_image image pre ≡ q
        → Left format post before (not p && not q) after
        → Settled format pre post before after
    by_tests true q e e' h = inl (inr ((same_image-eq image post).0 e), h)
    by_tests false true e e' h = inl (inl ((same_image-eq image pre).0 e'), h)
    by_tests false false e e' h = inr ((not_same image pre e', not_same image post e), h)

-- What the tests of the code find out.
module _ (format : Format) (pre post now : Option Image) (before : Option Bytes)
    (seen : image_of_file format before ≡ now) where
  pub is_made : same_image now post ≡ true → outside format pre post before ≡ false
  is_made y = rw (seen, y) refl

  pub is_foreign :
      same_image now post ≡ false
      → not (same_image now pre) ≡ true
      → outside format pre post before ≡ true
  is_foreign n z = rw (seen, n, z) refl

  pub is_waiting :
      same_image now post ≡ false
      → not (same_image now pre) ≡ false
      → outside format pre post before ≡ false
  is_waiting n z = rw (seen, n, z) refl

-- The outcome of a change, where the files before and after are known.
abbrev pub Outcome :
    Format
    → FilePath
    → Option Image
    → Option Bytes
    → Bool
    → List FilePath
    → List FilePath
    → Option Bytes
    → Type 0
Outcome format path post before edit kept more after =
    Added edit path kept more × Left format post before edit after

module _ (format : Format) (path : FilePath) (post : Option Image) (before : Option Bytes)
    (kept more : List FilePath) (after : Option Bytes) where
  pub Outcome-made :
      (edit : Bool)
      → edit ≡ false
      → more ≡ kept
      → image_of_file format after ≡ post
      → Outcome format path post before edit kept more after
  Outcome-made true e h k = absurd (cc)
  Outcome-made false e h k = (h, k)

  pub Outcome-kept :
      (edit : Bool)
      → edit ≡ true
      → more ≡ kept ++ path ∷ []
      → after ≡ before
      → Outcome format path post before edit kept more after
  Outcome-kept true e h k = (h, k)
  Outcome-kept false e h k = absurd (cc)

pub HasImage-file :
    (format : Format) (image : Image) (h : Option Held)
    → HasImage format image h
    → image_of_file format (file_in h) ≡ some image
HasImage-file format image h k = ap (λ x. image_of_file format (file_in x)) k.1.0 ∙ ap some k.1.1

pub Sees-file :
    (format : Format) (now : Option Image) (h : Option Held)
    → Sees format now h
    → image_of_file format (file_in h) ≡ now
Sees-file format none h k = ap (λ x. image_of_file format (file_in x)) k
Sees-file format (some image) h k = HasImage-file format image h k

NoFile-file : (h : Option Held) → NoFile h → file_in h ≡ none
NoFile-file none k = refl
NoFile-file (some (file_of b)) k = absurd (k b refl)
NoFile-file (some dir_here) k = refl
NoFile-file (some other_here) k = refl

-- What may be said of the file alone.
pub OfFile-Lasting :
    (fs : Fs) (laws : IsFs fs) (q : FilePath) (P : Option Bytes → Type 0)
    → Lasting fs q (λ h. P (file_in h))
OfFile-Lasting fs laws q P = record {
  makes = λ w n h. subst P (sym (NoFile-file _ (still_none w n))) h;
}
  where
    still_none : (w : fs.World) → fs.held w q ≡ none → NoFile (fs.held (fs.create_dir q w).1 q)
    still_none w n b e =
        let file : fs.held w q ≡ some (file_of b) = laws.create_dir_no_file q w b e in
        let clash : none ≡ some (file_of b) = sym n ∙ file in absurd (cc)
