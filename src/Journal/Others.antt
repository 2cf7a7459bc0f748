-- ===== src/Journal/Others.antt =====
-- One change (engine/journal.rs: the loop of `apply`) and what it leaves at the other paths.
use reldir.Base.{ℕ, ◌≡◌, ◌≢◌, [], ◌∷◌, ◌++◌, Option, none, some, not, Bool}
use reldir.Store.Corruption.{Bytes}
use reldir.Overlay.{FilePath}
use reldir.Files.{Fs, IsFs, Act, Held}
use reldir.Files.Ensures.{Ensures, Ensures-raise, Ensures-bind, Ensures-if, Ensures-weaken}
use reldir.Files.Stays.{
  Stays, Stays-bind, Stays-if, Stays-err, Stays-raise, Stays-pure, Stays-and, Stays-match,
}
use reldir.Journal.{Format, Image, JournalChange, same_image}
use reldir.Journal.Record.{image_of}
use reldir.Journal.Apply.{Failure, other, staged_name, fresh_name, Blobs, Progress, or_lost}
use reldir.Journal.Placing.{rewrite_in_place, apply_write, apply_delete, apply_to, apply_change}
use reldir.Journal.Holding.{
  Lasting, IsFile, IsFile-Lasting, At, At-quiet, create_parents-At, insert_if_dir-At,
  remove_if_there-At, current_image-At,
}
use reldir.Journal.Placed.{Staged, place-At, place_fresh-At}

-- Where `q` lies apart from what a change of this path and this number acts on.
pub record Clear (root dir q path : FilePath) (n : ℕ) : Type 0 where
  pub of_target : q ≢ root ++ path
  pub of_staged : q ≢ dir ++ staged_name n ∷ []
  pub of_fresh : q ≢ dir ++ fresh_name n ∷ []

abbrev pub ClearOf : FilePath → FilePath → FilePath → FilePath → Option ℕ → Type 0
ClearOf root dir q path none = q ≢ root ++ path
ClearOf root dir q path (some n) = Clear root dir q path n

-- What a change needs to be made: its staged file, with bytes of the image it commits.
abbrev pub Ready :
    (fs : Fs) → IsFs fs → Format → FilePath → Option ℕ → Option Image → fs.World → Type 0
Ready fs laws format dir none post w = Unit
Ready fs laws format dir (some n) none w = Unit
Ready fs laws format dir (some n) (some post) w =
    (b : Bytes) × (Staged fs laws (dir ++ staged_name n ∷ []) b w × (image_of format b ≡ post))

module _ (fs : Fs) (laws : IsFs fs) (q : FilePath) (J : Option Held → Type 0)
    (lasting : Lasting fs q J) (format : Format) (root dir : FilePath) (rewrite : Bool)
    (blobs : Blobs) where
  abbrev There : fs.World → Type 0
  There = At fs laws q J lasting

  module _ (change : JournalChange) (post : Image) (n : ℕ) (b : Bytes)
      (clear : Clear root dir q change.path n) where
    abbrev Both : fs.World → Type 0
    Both w = Staged fs laws (dir ++ staged_name n ∷ []) b w × There w

    both :
        {E A : Type 0} (m : Act fs.World E A)
        → ((p : FilePath) (K : Option Held → Type 0) (l : Lasting fs p K)
            → Stays (At fs laws p K l) m)
        → Stays Both m
    both m h =
        Stays-and _ There m
          (h (dir ++ staged_name n ∷ []) (IsFile b)
            (IsFile-Lasting fs (dir ++ staged_name n ∷ []) b))
          (h q J lasting)

    recall-At : (found : Option Bytes) → Stays There (or_lost found)
    recall-At none = Stays-raise There _
    recall-At (some x) = Stays-pure There x

    rewrite-At : Stays There (rewrite_in_place fs format dir (root ++ change.path) post n blobs)
    unfolding rewrite_in_place
    rewrite-At =
        Stays-match There _ _ (At-quiet fs laws q J lasting _ (laws.read_keeps _))
          (λ held.
            Stays-bind There _ _ (Stays-if There _ _ _ (Stays-pure There held) (recall-At _))
              (λ x. place_fresh-At fs laws q J lasting dir _ x n clear.of_fresh clear.of_target))
          (λ e.
            Stays-bind There _ _ (recall-At _)
              (λ x. place_fresh-At fs laws q J lasting dir _ x n clear.of_fresh clear.of_target))

    only :
        {A : Type 0} (m : Act fs.World Failure A)
        → Stays There m
        → Ensures Both m (λ a. There) (λ e. There)
    only m h =
        Ensures-weaken There Both (λ a. There) (λ a. There) (λ e. There) (λ e. There) m (λ w x. x.1)
          (λ a w x. x) (λ e w x. x) h

    pub apply_write-At :
        (now : Option Image) (progress : Progress)
        → Ensures Both
            (apply_write fs format root dir rewrite blobs change post n now progress)
            (λ p. There)
            (λ e. There)
    unfolding apply_write
    apply_write-At now progress =
        Ensures-if Both (λ p. There) (λ e. There) (same_image now (some post)) _ _
          (λ y. only _ (
            Stays-if There rewrite _ _ (Stays-bind There _ _ rewrite-At (λ u. Stays-pure There _))
              (Stays-pure There progress)))
          (λ y.
            Ensures-if Both (λ p. There) (λ e. There) (not (same_image now change.pre)) _ _
              (λ z. only _ (Stays-pure There _))
              (λ z.
                Ensures-bind Both (λ t. Both) (λ p. There) (λ e. There) _ _
                  (Ensures-weaken Both Both (λ a. Both) (λ a. Both) (λ e. Both) (λ e. There) _
                    (λ w x. x) (λ a w x. x) (λ e w x. x.1)
                    (both _ (λ p K l. create_parents-At fs laws p K l root _ _)))
                  (λ t.
                    Ensures-bind Both (λ u. There) (λ p. There) (λ e. There) _ _
                      (place-At fs laws q J lasting format blobs post dir (root ++ change.path) n b
                        clear.of_staged clear.of_fresh clear.of_target)
                      (λ u. Stays-pure There _))))

  apply_delete-At :
      (change : JournalChange) (now : Option Image) (progress : Progress)
      → q ≢ root ++ change.path
      → Stays There (apply_delete fs format root dir rewrite blobs change now progress)
  unfolding apply_delete
  apply_delete-At change none progress c = Stays-pure There progress
  apply_delete-At change (some now) progress c =
      Stays-if There _ _ _ (Stays-pure There _) (
        Stays-bind There _ _ (remove_if_there-At fs laws q J lasting _ c) (λ u. Stays-pure There _))

  abbrev pub Going : Option ℕ → Option Image → fs.World → Type 0
  Going n post w = Ready fs laws format dir n post w × There w

  with_unit :
      {A : Type 0} (m : Act fs.World Failure A) → Stays There m → Stays (λ w. Unit {0} × There w) m
  with_unit m h =
      Ensures-weaken There _ (λ a. There) _ (λ e. There) _ m (λ w x. x.1) (λ a w x. (tt, x))
        (λ e w x. (tt, x)) h

  -- Steps that leave every file alone leave what is staged, too.
  pub going :
      {A : Type 0} (n : Option ℕ) (post : Option Image) (m : Act fs.World Failure A)
      → ((p : FilePath) (K : Option Held → Type 0) (l : Lasting fs p K)
          → Stays (At fs laws p K l) m)
      → Stays (Going n post) m
  going none post m h = with_unit m (h q J lasting)
  going (some n) none m h = with_unit m (h q J lasting)
  going (some n) (some post) m h = record {
    at = λ w x.
        let b = x.0.0 in
        let staged = dir ++ staged_name n ∷ [] in
        let kept =
          Stays-and (Staged fs laws staged b) There m
            (h staged (IsFile b) (IsFile-Lasting fs staged b)) (h q J lasting) in
        (Ensures-weaken (λ w. Staged fs laws staged b w × There w)
            (λ w. Staged fs laws staged b w × There w) (λ a w. Staged fs laws staged b w × There w)
            (λ a. Going (some n) (some post)) (λ e w. Staged fs laws staged b w × There w)
            (λ e. Going (some n) (some post)) m (λ w y. y) (λ a w y. ((b, (y.0, x.0.1.1)), y.1))
            (λ e w y. ((b, (y.0, x.0.1.1)), y.1)) kept).at
          w (x.0.1.0, x.1);
  }

  apply_to-At :
      (change : JournalChange) (n : Option ℕ) (post now : Option Image) (progress : Progress)
      → ClearOf root dir q change.path n
      → Ensures
          (Going n post)
          (apply_to fs format root dir rewrite blobs change post n now progress)
          (λ p. There)
          (λ e. There)
  unfolding apply_to
  apply_to-At change none none now progress c =
      Ensures-weaken There _ (λ p. There) (λ p. There) (λ e. There) (λ e. There) _ (λ w x. x.1)
        (λ a w x. x) (λ e w x. x) (apply_delete-At change now progress c)
  apply_to-At change none (some post) now progress c =
      Ensures-raise _ (λ p. There) (λ e. There) _ (λ w x. x.1)
  apply_to-At change (some n) none now progress c =
      Ensures-raise _ (λ p. There) (λ e. There) _ (λ w x. x.1)
  apply_to-At change (some n) (some post) now progress c = record {
    at = λ w x. (apply_write-At change post n x.0.0 c now progress).at w (x.0.1.0, x.1);
  }

  -- A change leaves the paths alone that lie apart from its target and its staged files.
  pub apply_change-At :
      (change : JournalChange) (progress : Progress)
      → ClearOf root dir q change.path change.n
      → Ensures
          (Going change.n change.post)
          (apply_change fs format root dir rewrite blobs change progress)
          (λ p. There)
          (λ e. There)
  unfolding apply_change
  apply_change-At change progress c =
      let Pre = Going change.n change.post in
      Ensures-bind Pre (λ t. Pre) (λ p. There) (λ e. There) _ _
        (dropped _ (going change.n change.post _ (λ p K l. insert_if_dir-At fs laws p K l _ _)))
        (λ t.
          Ensures-bind Pre (λ now. Pre) (λ p. There) (λ e. There) _ _
            (dropped _ (
              going change.n change.post _ (λ p K l.
                Stays-err (At fs laws p K l) other _ (current_image-At fs laws p K l format _))))
            (λ now. apply_to-At change change.n change.post now _ c))
    where
      dropped :
          {A : Type 0} (m : Act fs.World Failure A)
          → Stays (Going change.n change.post) m
          → Ensures (Going change.n change.post) m (λ a. Going change.n change.post) (λ e. There)
      dropped m h =
          Ensures-weaken (Going change.n change.post) (Going change.n change.post)
            (λ a. Going change.n change.post) (λ a. Going change.n change.post)
            (λ e. Going change.n change.post) (λ e. There) m (λ w x. x) (λ a w x. x) (λ e w x. x.1)
            h
