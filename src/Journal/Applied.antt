-- ===== src/Journal/Applied.antt =====
-- A round of the loop of `apply` (engine/journal.rs): what it leaves at the target of its change.
use reldir.Base.{ℕ, ◌≡◌, sym, ap, ◌∙◌, ◌++◌, Option, none, some, Bool}
use reldir.Overlay.{FilePath}
use reldir.Files.{Fs, IsFs, Act, Held}
use reldir.Files.Ensures.{Ensures, Ensures-raise, Ensures-bind, Ensures-map_err, Ensures-weaken}
use reldir.Files.Stays.{Stays, Stays-err, Ensures-and}
use reldir.Journal.{Format, Image, JournalChange}
use reldir.Journal.Apply.{Failure, other, Blobs, Progress}
use reldir.Journal.Placing.{apply_to, apply_change}
use reldir.Journal.Atomic.{Always}
use reldir.Journal.Holding.{Lasting, At, insert_if_dir-At, current_image-At}
use reldir.Journal.Placed.{Recalls}
use reldir.Journal.Others.{Ready, going}
use reldir.Store.Corruption.{Bytes}
use reldir.Journal.Settles.{Sees, current_image-Sees}
use reldir.Journal.Outcome.{
  file_in, file_at, image_of_file, outside, Outcome, Sees-file, OfFile-Lasting,
}
use reldir.Journal.Settled.{apply_write-Outcome, apply_delete-Outcome}

-- What history must give back for a change.
abbrev pub RecallsPost : Format → Blobs → Option Image → Type 0
RecallsPost format blobs none = Unit
RecallsPost format blobs (some post) = Recalls format blobs post

module _ (fs : Fs) (laws : IsFs fs) (format : Format) (root dir : FilePath) (rewrite : Bool)
    (blobs : Blobs) where
  abbrev ReadyFor : Option ℕ → Option Image → fs.World → Type 0
  ReadyFor n post w = Ready fs laws format dir n post w

  abbrev Ended : Failure → fs.World → Type 0
  Ended e w = Unit

  module _ (change : JournalChange) (before : Option Bytes) where
    abbrev target : FilePath
    target = root ++ change.path

    abbrev lasting : Lasting fs target (λ h. file_in h ≡ before)
    lasting = OfFile-Lasting fs laws target (λ f. f ≡ before)

    -- The change is ready, and its target still holds the file it held before.
    abbrev Waits : Option ℕ → Option Image → fs.World → Type 0
    Waits n post w = ReadyFor n post w × (file_at fs w target ≡ before)

    Waits-quiet :
        {A : Type 0} (n : Option ℕ) (post : Option Image) (m : Act fs.World Failure A)
        → ((p : FilePath) (K : Option Held → Type 0) (l : Lasting fs p K)
            → Stays (At fs laws p K l) m)
        → Ensures (Waits n post) m (λ a. Waits n post) Ended
    Waits-quiet n post m h =
        Ensures-weaken (Waits n post) _ (λ a. Waits n post) _ (λ e. Waits n post) Ended m (λ w x. x)
          (λ a w x. x) (λ e w x. tt)
          (going fs laws target (λ h. file_in h ≡ before) lasting format root dir rewrite blobs n
            post m h)

    abbrev Seen : Option ℕ → Option Image → Option Image → fs.World → Type 0
    Seen n post now w = Waits n post w × Sees format now (fs.held w target)

    abbrev Ends : Option Image → Progress → Progress → fs.World → Type 0
    Ends post p p' w =
        Outcome format change.path post before (outside format change.pre post before) p.kept
          p'.kept (file_at fs w target)

    -- What the look at the target says of the file it held before.
    Seen-file :
        (now : Option Image) (w : fs.World)
        → Sees format now (fs.held w target)
        → file_at fs w target ≡ before
        → image_of_file format before ≡ now
    Seen-file now w s e =
        ap (image_of_file format) (sym e) ∙ Sees-file format now (fs.held w target) s

    apply_to-Outcome :
        (n : Option ℕ) (post now : Option Image) (p : Progress)
        → RecallsPost format blobs post
        → Ensures
            (Seen n post now)
            (apply_to fs format root dir rewrite blobs change post n now p)
            (Ends post p)
            Ended
    unfolding apply_to
    apply_to-Outcome none none now p r = record {
      at = λ w x.
          (apply_delete-Outcome fs laws format root dir rewrite blobs change before now p
              (Seen-file now w x.1 x.0.1)).at
            w (x.1, x.0.1);
    }
    apply_to-Outcome none (some post) now p r = Ensures-raise _ _ Ended _ (λ w h. tt)
    apply_to-Outcome (some n) none now p r = Ensures-raise _ _ Ended _ (λ w h. tt)
    apply_to-Outcome (some n) (some post) now p r = record {
      at = λ w x.
          (apply_write-Outcome fs laws format root dir rewrite blobs change post n r before now
              (Seen-file now w x.1 x.0.1) x.0.0.0 p x.0.0.1.1).at
            w (x.0.0.1.0, (x.1, x.0.1));
    }

    pub apply_change-Outcome :
        (p : Progress)
        → RecallsPost format blobs change.post
        → Ensures
            (Waits change.n change.post)
            (apply_change fs format root dir rewrite blobs change p)
            (Ends change.post p)
            Ended
    unfolding apply_change
    apply_change-Outcome p r =
        Ensures-bind _ (λ t. Waits change.n change.post) _ Ended _ _
          (Waits-quiet change.n change.post _ (λ q K l. insert_if_dir-At fs laws q K l _ _))
          (λ t.
            Ensures-bind _ (λ now. Seen change.n change.post now) _ Ended _ _
              (Ensures-weaken _ _ _ _ _ Ended _ (λ w x. (x, tt)) (λ a w x. x) (λ e w x. tt)
                (Ensures-and (Waits change.n change.post) Always (λ a. Waits change.n change.post)
                  (λ now w. Sees format now (fs.held w target)) Ended Ended _
                  (Waits-quiet change.n change.post _ (λ q K l.
                    Stays-err (At fs laws q K l) other _ (current_image-At fs laws q K l format _)))
                  (Ensures-map_err Always _ Ended other _
                    (current_image-Sees fs laws format target))))
              (λ now. apply_to-Outcome change.n change.post now (record p { touched = t }) r))
