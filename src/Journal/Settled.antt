-- ===== src/Journal/Settled.antt =====
-- What a change (engine/journal.rs: the loop of `apply`) does at its own path, once it is known what
-- the path holds.
use reldir.Base.{ℕ, ◌≡◌, refl, [], ◌∷◌, ◌++◌, Option, none, some, false, not, Bool, List}
use reldir.Store.Corruption.{Bytes}
use reldir.Overlay.{FilePath}
use reldir.Files.{Fs, IsFs}
use reldir.Files.Ensures.{
  Ensures, Ensures-pure, Ensures-raise, Ensures-bind, Ensures-match, Ensures-if, Ensures-weaken,
  Ensures-any,
}
use reldir.Journal.{Format, Image, JournalChange, same_image, image_eq}
use reldir.Journal.Record.{image_of}
use reldir.Journal.Apply.{Failure, staged_name, Blobs, Progress, or_lost, place_fresh}
use reldir.Journal.Placing.{rewrite_in_place, apply_write, apply_delete}
use reldir.Journal.Atomic.{Always}
use reldir.Journal.Holding.{IsFile, IsFile-Lasting, create_parents-At}
use reldir.Journal.Placed.{Staged, HasImage, Recalls, place-HasImage, place_fresh-IsFile}
use reldir.Journal.Settles.{image_eq-eq, Sees, same_image-Sees, remove_if_there-none}
use reldir.Journal.Outcome.{
  file_at, image_of_file, outside, is_made, is_foreign, is_waiting, Outcome, Outcome-made,
  Outcome-kept, HasImage-file, Sees-file,
}

module _ (fs : Fs) (laws : IsFs fs) (format : Format) (root dir : FilePath) (rewrite : Bool)
    (blobs : Blobs) where
  abbrev pub Never : Failure → fs.World → Type 0
  Never e w = Unit

  module _ (change : JournalChange) (post : Image) (n : ℕ)
      (recalls : Recalls format blobs post) where
    abbrev target : FilePath
    target = root ++ change.path

    -- Bytes of the image, from the target or from history.
    recall-image :
        (found : Option Bytes)
        → blobs post.sha256 ≡ found
        → Ensures Always (or_lost {W = fs.World} found) (λ b w. image_of format b ≡ post) Never
    recall-image none e = Ensures-raise Always _ Never _ (λ w h. tt)
    recall-image (some b) e = Ensures-pure Always _ Never b (λ w h. recalls b e)

    fresh-HasImage :
        (b : Bytes)
        → Ensures
            (λ w. image_of format b ≡ post)
            (place_fresh fs dir target b n)
            (λ u w. HasImage format post (fs.held w target))
            Never
    fresh-HasImage b = record {
      at = λ w same.
          (Ensures-weaken Always Always (λ u w. IsFile b (fs.held w target))
              (λ u w. HasImage format post (fs.held w target)) Never Never _ (λ w h. tt)
              (λ a w h. (b, (h, same))) (λ e w h. tt)
              (place_fresh-IsFile fs laws dir target b n)).at
            w tt;
    }

    rewrite-HasImage :
        Ensures Always
          (rewrite_in_place fs format dir target post n blobs)
          (λ u w. HasImage format post (fs.held w target))
          Never
    unfolding rewrite_in_place
    rewrite-HasImage =
        Ensures-match Always (λ b. Always) _ Never (λ e. Always) _ _
          (Ensures-any Always (λ b. Always) (λ e. Always) _ (λ a w. tt) (λ e w. tt))
          (λ held.
            Ensures-bind Always (λ b w. image_of format b ≡ post) _ Never _ _
              (Ensures-if Always _ Never (image_eq (image_of format held) post) _ _
                (λ y.
                  Ensures-pure Always _ Never held
                    (λ w h. image_eq-eq (image_of format held) post y))
                (λ m. recall-image (blobs post.sha256) refl))
              fresh-HasImage)
          (λ e.
            Ensures-bind Always (λ b w. image_of format b ≡ post) _ Never _ _
              (recall-image (blobs post.sha256) refl) fresh-HasImage)

    module _ (before : Option Bytes) (now : Option Image)
        (seen : image_of_file format before ≡ now) where
      abbrev edit : Bool
      edit = outside format change.pre (some post) before

      abbrev Done : Progress → Progress → fs.World → Type 0
      Done p p' w =
          Outcome format change.path (some post) before edit p.kept p'.kept (file_at fs w target)

      abbrev Prepared : Bytes → fs.World → Type 0
      Prepared b w =
          Staged fs laws (dir ++ staged_name n ∷ []) b w
          × (Sees format now (fs.held w target) × (file_at fs w target ≡ before))

      made :
          (kept : List FilePath) (w : fs.World)
          → edit ≡ false
          → HasImage format post (fs.held w target)
          → Outcome format change.path (some post) before edit kept kept (file_at fs w target)
      made kept w e h =
          Outcome-made format change.path (some post) before kept kept (file_at fs w target) edit e
            refl (HasImage-file format post (fs.held w target) h)

      pub apply_write-Outcome :
          (b : Bytes) (progress : Progress)
          → image_of format b ≡ post
          → Ensures
              (Prepared b)
              (apply_write fs format root dir rewrite blobs change post n now progress)
              (Done progress)
              Never
      unfolding apply_write
      apply_write-Outcome b progress same =
          Ensures-if (Prepared b) (Done progress) Never (same_image now (some post)) _ _
            (λ y.
              let e = is_made format change.pre (some post) now before seen y in
              Ensures-if (Prepared b) (Done progress) Never rewrite _ _
                (λ r.
                  Ensures-bind _ (λ u w. HasImage format post (fs.held w target)) (Done progress)
                    Never _ _
                    (Ensures-weaken Always _ _ _ Never Never _ (λ w h. tt) (λ a w h. h) (λ e w h. h)
                      rewrite-HasImage)
                    (λ u. Ensures-pure _ (Done progress) Never _ (λ w h. made progress.kept w e h)))
                (λ r.
                  Ensures-pure _ (Done progress) Never progress
                    (λ w h. made progress.kept w e (same_image-Sees format now post _ y h.1.0))))
            (λ y.
              Ensures-if (Prepared b) (Done progress) Never (not (same_image now change.pre)) _ _
                (λ z. Ensures-pure _ (Done progress) Never _ (λ w h.
                  Outcome-kept format change.path (some post) before progress.kept _
                    (file_at fs w target) edit
                    (is_foreign format change.pre (some post) now before seen y z) refl h.1.1))
                (λ z.
                  let e = is_waiting format change.pre (some post) now before seen y z in
                  Ensures-bind _ (λ t. Staged fs laws (dir ++ staged_name n ∷ []) b) (Done progress)
                    Never _ _
                    (Ensures-weaken _ _ _ _ _ Never _ (λ w h. h.0) (λ a w h. h) (λ e w h. tt)
                      (create_parents-At fs laws (dir ++ staged_name n ∷ []) (IsFile b)
                        (IsFile-Lasting fs (dir ++ staged_name n ∷ []) b) root _ _))
                    (λ t.
                      Ensures-bind _ (λ u w. HasImage format post (fs.held w target))
                        (Done progress) Never _ _
                        (place-HasImage fs laws format blobs post recalls dir target n b same)
                        (λ u.
                          Ensures-pure _ (Done progress) Never _
                            (λ w h. made progress.kept w e h)))))

  module _ (change : JournalChange) (before : Option Bytes) where
    abbrev place_of : FilePath
    place_of = root ++ change.path

    abbrev Removed : Progress → Progress → fs.World → Type 0
    Removed p p' w =
        Outcome format change.path none before (outside format change.pre none before) p.kept
          p'.kept (file_at fs w place_of)

    nothing :
        (kept : List FilePath) (w : fs.World)
        → outside format change.pre none before ≡ false
        → fs.held w place_of ≡ none
        → Outcome format change.path none before
            (outside format change.pre none before)
            kept
            kept
            (file_at fs w place_of)
    nothing kept w e h =
        Outcome-made format change.path none before kept kept (file_at fs w place_of)
          (outside format change.pre none before) e refl
          (Sees-file format none (fs.held w place_of) h)

    pub apply_delete-Outcome :
        (now : Option Image) (progress : Progress)
        → image_of_file format before ≡ now
        → Ensures
            (λ w. Sees format now (fs.held w place_of) × (file_at fs w place_of ≡ before))
            (apply_delete fs format root dir rewrite blobs change now progress)
            (Removed progress)
            Never
    unfolding apply_delete same_image
    apply_delete-Outcome none progress seen =
        Ensures-pure _ _ Never progress (λ w h.
          nothing progress.kept w (is_made format change.pre none none before seen refl) h.0)
    apply_delete-Outcome (some now) progress seen =
        Ensures-if _ _ Never (not (same_image (some now) change.pre)) _ _
          (λ z. Ensures-pure _ _ Never _ (λ w h.
            Outcome-kept format change.path none before progress.kept _ (file_at fs w place_of)
              (outside format change.pre none before)
              (is_foreign format change.pre none (some now) before seen refl z) refl h.1))
          (λ z.
            let e = is_waiting format change.pre none (some now) before seen refl z in
            Ensures-bind _ (λ u w. fs.held w place_of ≡ none) _ Never _ _
              (Ensures-weaken Always _ _ _ Never Never _ (λ w h. tt) (λ a w h. h) (λ e w h. tt)
                (remove_if_there-none fs laws format place_of))
              (λ u. Ensures-pure _ _ Never _ (λ w h. nothing progress.kept w e h)))
