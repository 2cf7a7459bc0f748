-- ===== src/Journal/Made.antt =====
-- The changes of a valid journal (engine/journal.rs), made.
use reldir.Base.{◌≡◌, [], ◌∷◌, ◌++◌, All, Bool}
use reldir.Overlay.{FilePath}
use reldir.Files.{Fs, IsFs, ok}
use reldir.Journal.{Format, Journal, JournalChange, store}
use reldir.Journal.Record.{validate}
use reldir.Journal.Apply.{Blobs, Progress}
use reldir.Journal.Placing.{apply_changes}
use reldir.Journal.Others.{Ready}
use reldir.Journal.Outcome.{file_at, outside_edits}
use reldir.Journal.Applied.{RecallsPost}
use reldir.Journal.AllSettled.{SettledFrom, loop-Settled}
use reldir.Journal.Valid.{validate-Separate}

-- Nothing is kept yet, and no directory is touched.
abbrev pub beginning : Progress
beginning = record { kept = []; touched = [] }

-- Where `validate` accepts a journal, the staged file of each write holds bytes of the image it commits,
-- and history gives bytes of the image it is asked for: if the loop of `apply` over the changes ends
-- without a failure, then the edits it keeps are, in order, the paths of the changes whose target was,
-- before the loop, neither as the change was made from nor as it makes it: of neither image, an
-- absent file counting as an image of its own. Each of these targets holds the file it held, or
-- still none. Every other target was as its change was made from or as it makes it, and now holds a file
-- of the image that a write commits, or no file after a removal.
pub apply_changes-Settled :
    (fs : Fs) (laws : IsFs fs) (format : Format) (root : FilePath) (journal : Journal)
    (rewrite : Bool) (blobs : Blobs) (w : fs.World) (p : Progress)
    → validate format journal ≡ ok tt
    → All (λ (c : JournalChange). RecallsPost format blobs c.post) journal.changes
    → All
        (λ (c : JournalChange). Ready fs laws format (store root ++ journal.id ∷ []) c.n c.post w)
        journal.changes
    → (apply_changes fs format root
        (store root ++ journal.id ∷ [])
        rewrite
        blobs
        journal.changes
        beginning
        w).0
      ≡ ok p
    → (p.kept ≡ outside_edits format (λ path. file_at fs w (root ++ path)) journal.changes)
      × All
          (SettledFrom fs format root w
            (apply_changes fs format root
              (store root ++ journal.id ∷ [])
              rewrite
              blobs
              journal.changes
              beginning
              w).1)
          journal.changes
apply_changes-Settled fs laws format root journal rewrite blobs w p valid recalls ready ran =
    loop-Settled fs laws format root (store root ++ journal.id ∷ []) rewrite blobs journal.changes w
      p recalls (validate-Separate root journal.id format journal valid) ready ran
