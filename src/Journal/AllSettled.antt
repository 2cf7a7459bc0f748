-- ===== src/Journal/AllSettled.antt =====
-- All the changes of a journal (engine/journal.rs): what the loop of `apply` has made of each path, by
-- the file that the path held before the loop.
use mathlib.Core.List.{append_assoc}
use reldir.Base.{
  ℕ, ◌≡◌, refl, sym, ap, ◌∙◌, true, false, List, [], ◌∷◌, ◌++◌, All, Option, none, some, Bool,
}
use reldir.Store.Corruption.{Bytes}
use reldir.Overlay.{FilePath}
use reldir.Files.{Fs, IsFs, Result, ok, err, Held}
use reldir.Files.Ensures.{
  Ensures, After, Ensures-pure, Ensures-bind, Ensures-weaken, After-weaken, After-ok,
}
use reldir.Journal.{Format, Image, JournalChange}
use reldir.Journal.Apply.{Failure, staged_name, Blobs, Progress}
use reldir.Journal.Placing.{apply_change, apply_changes}
use reldir.Journal.Holding.{Lasting, IsFile, IsFile-Lasting}
use reldir.Journal.Others.{ClearOf, Ready, apply_change-At}
use reldir.Journal.Outcome.{
  file_in, file_at, outside, add_if, outside_edits, Settled, Left, Added, Outcome, Left-Settled,
  OfFile-Lasting,
}
use reldir.Journal.Applied.{RecallsPost, apply_change-Outcome}

-- The file staged under a number lies apart from what another change acts on.
abbrev pub StagedClear : FilePath → FilePath → Option ℕ → FilePath → Option ℕ → Type 0
StagedClear root dir none path n = Unit
StagedClear root dir (some m) path n = ClearOf root dir (dir ++ staged_name m ∷ []) path n

-- Nothing that `c` acts on is the target of `d` or its staged file.
abbrev pub Spares : FilePath → FilePath → JournalChange → JournalChange → Type 0
Spares root dir c d =
    ClearOf root dir (root ++ d.path) c.path c.n × StagedClear root dir d.n c.path c.n

-- Each change spares the others.
abbrev pub Separate : FilePath → FilePath → List JournalChange → Type 0
Separate root dir [] = Unit
Separate root dir (c ∷ cs) =
    (All (Spares root dir c) cs × All (λ (d : JournalChange). Spares root dir d c) cs)
    × Separate root dir cs

abbrev Stopped : {W : Type 0} → Failure → W → Type 0
Stopped e w = Unit

trivially : {W A : Type 0} (r : Result Failure A) (w : W) → After (λ a w. Unit {0}) Stopped r w
trivially (ok a) w = tt
trivially (err e) w = tt

module _ (fs : Fs) (laws : IsFs fs) (format : Format) (root dir : FilePath) (rewrite : Bool)
    (blobs : Blobs) where
  abbrev ReadyIn : fs.World → JournalChange → Type 0
  ReadyIn w d = Ready fs laws format dir d.n d.post w

  module _ (c : JournalChange) (p : Progress) (w : fs.World) (ready : ReadyIn w c) where
    abbrev result : Result Failure Progress
    result = (apply_change fs format root dir rewrite blobs c p w).0

    abbrev later : fs.World
    later = (apply_change fs format root dir rewrite blobs c p w).1

    abbrev Then : (Progress → fs.World → Type 0) → Type 0
    Then Post = After Post Stopped result later

    stays_there :
        (q : FilePath) (J : Option Held → Type 0)
        → Lasting fs q J
        → ClearOf root dir q c.path c.n
        → J (fs.held w q)
        → Then (λ p' w'. J (fs.held w' q))
    stays_there q J lasting clear h =
        After-weaken (λ p' w'. J (fs.held w' q)) (λ p' w'. J (fs.held w' q))
          (λ e w'. J (fs.held w' q)) Stopped result later (λ a w' x. x) (λ e w' x. tt)
          ((apply_change-At fs laws q J lasting format root dir rewrite blobs c p clear).at w
            (ready, h))

    -- Whatever is said of the file at a path that the change spares.
    file-stays :
        (path : FilePath) (P : Option Bytes → Type 0)
        → ClearOf root dir (root ++ path) c.path c.n
        → P (file_at fs w (root ++ path))
        → Then (λ p' w'. P (file_at fs w' (root ++ path)))
    file-stays path P =
        stays_there (root ++ path) (λ h. P (file_in h)) (OfFile-Lasting fs laws (root ++ path) P)

    Ready-stays :
        (n : Option ℕ) (post : Option Image)
        → StagedClear root dir n c.path c.n
        → Ready fs laws format dir n post w
        → Then (λ p' w'. Ready fs laws format dir n post w')
    Ready-stays none post clear r = trivially result later
    Ready-stays (some n) none clear r = trivially result later
    Ready-stays (some n) (some post) clear (b, (s, e)) =
        After-weaken _ _ Stopped Stopped result later (λ a w' x. (b, (x, e))) (λ e w' x. tt)
          (stays_there (dir ++ staged_name n ∷ []) (IsFile b)
            (IsFile-Lasting fs (dir ++ staged_name n ∷ []) b) clear s)

    -- For every change of a list.
    all_after :
        (X : JournalChange → Type 0) (Y : JournalChange → Type 0)
        (Post : Progress → fs.World → JournalChange → Type 0) (ds : List JournalChange)
        → ((d : JournalChange) → X d → Y d → Then (λ p' w'. Post p' w' d))
        → All X ds
        → All Y ds
        → Then (λ p' w'. All (Post p' w') ds)
    all_after X Y Post [] h xs ys = trivially result later
    all_after X Y Post (d ∷ ds) h xs ys =
        joined result later (h d xs.0 ys.0) (all_after X Y Post ds h xs.1 ys.1)
      where
        joined :
            (r : Result Failure Progress) (w' : fs.World)
            → After (λ p' w'. Post p' w' d) Stopped r w'
            → After (λ p' w'. All (Post p' w') ds) Stopped r w'
            → After (λ p' w'. All (Post p' w') (d ∷ ds)) Stopped r w'
        joined (ok a) w' x y = (x, y)
        joined (err e) w' x y = tt

  -- What the loop asks of a change that comes after others.
  abbrev SparesAll : JournalChange → List JournalChange → Type 0
  SparesAll c ds = All (Spares root dir c) ds

  module _ (file : FilePath → Option Bytes) (total : List FilePath) where
    abbrev edit : JournalChange → Bool
    edit d = outside format d.pre d.post (file d.path)

    abbrev LeftIn : fs.World → JournalChange → Type 0
    LeftIn w d = Left format d.post (file d.path) (edit d) (file_at fs w (root ++ d.path))

    abbrev SameIn : fs.World → JournalChange → Type 0
    SameIn w d = file_at fs w (root ++ d.path) ≡ file d.path

    -- What holds between two rounds of the loop: of the changes made, what they left; the changes to
    -- come are ready, and their targets hold what they held first; and the edits kept so far are
    -- those of the changes made.
    abbrev Midway : List JournalChange → List JournalChange → Progress → fs.World → Type 0
    Midway ds cs p w =
        (p.kept ++ outside_edits format file cs ≡ total)
        × (All (LeftIn w) ds × (All (ReadyIn w) cs × All (SameIn w) cs))

    kept_so_far :
        (o : Bool) (path : FilePath) (kept more edits : List FilePath)
        → Added o path kept more
        → kept ++ add_if o path edits ≡ total
        → more ++ edits ≡ total
    kept_so_far true path kept more edits h e =
        ap (λ x. x ++ edits) h ∙ (append_assoc kept (path ∷ []) edits ∙ e)
    kept_so_far false path kept more edits h e = ap (λ x. x ++ edits) h ∙ e

    apply_change-Midway :
        (ds cs : List JournalChange) (c : JournalChange) (p : Progress)
        → RecallsPost format blobs c.post
        → SparesAll c ds
        → SparesAll c cs
        → Ensures
            (Midway ds (c ∷ cs) p)
            (apply_change fs format root dir rewrite blobs c p)
            (Midway (c ∷ ds) cs)
            Stopped
    apply_change-Midway ds cs c p recalls before after = record {
      at = λ w (kept, (left, ((ready, others), (same, unchanged)))).
          joined (result c p w ready) (later c p w ready) kept
            ((apply_change-Outcome fs laws format root dir rewrite blobs c (file c.path) p
                recalls).at
              w (ready, same))
            (all_after c p w ready (Spares root dir c) (LeftIn w) (λ p' w'. LeftIn w') ds
              (λ d s x.
                file-stays c p w ready d.path (Left format d.post (file d.path) (edit d)) s.0 x)
              before left)
            (all_after c p w ready (Spares root dir c) (ReadyIn w) (λ p' w'. ReadyIn w') cs
              (λ d s x. Ready-stays c p w ready d.n d.post s.1 x) after others)
            (all_after c p w ready (Spares root dir c) (SameIn w) (λ p' w'. SameIn w') cs
              (λ d s x. file-stays c p w ready d.path (λ f. f ≡ file d.path) s.0 x) after
              unchanged);
    }
      where
        Ends : Progress → fs.World → Type 0
        Ends p' w' =
            Outcome format c.path c.post (file c.path) (edit c) p.kept p'.kept
              (file_at fs w' (root ++ c.path))

        joined :
            (r : Result Failure Progress) (w' : fs.World)
            → p.kept ++ outside_edits format file (c ∷ cs) ≡ total
            → After Ends Stopped r w'
            → After (λ p' w'. All (LeftIn w') ds) Stopped r w'
            → After (λ p' w'. All (ReadyIn w') cs) Stopped r w'
            → After (λ p' w'. All (SameIn w') cs) Stopped r w'
            → After (Midway (c ∷ ds) cs) Stopped r w'
        joined (ok a) w' k (more, here) x y z =
            (kept_so_far (edit c) c.path p.kept a.kept _ more k, ((here, x), (y, z)))
        joined (err e) w' k h x y z = tt

  abbrev AllRecalled : List JournalChange → Type 0
  AllRecalled cs = All (λ (c : JournalChange). RecallsPost format blobs c.post) cs

  -- The changes that are left spare those that are made.
  abbrev SparesDone : List JournalChange → List JournalChange → Type 0
  SparesDone cs ds = All (λ (c : JournalChange). SparesAll c ds) cs

  SparesDone-more :
      (cs ds : List JournalChange) (c : JournalChange)
      → All (λ (d : JournalChange). Spares root dir d c) cs
      → SparesDone cs ds
      → SparesDone cs (c ∷ ds)
  SparesDone-more [] ds c h k = tt
  SparesDone-more (x ∷ cs) ds c h k = ((h.0, k.0), SparesDone-more cs ds c h.1 k.1)

  module _ (file : FilePath → Option Bytes) (total : List FilePath) where
    abbrev Finished : List JournalChange → List JournalChange → Progress → fs.World → Type 0
    Finished ds cs p w =
        (p.kept ++ [] ≡ total) × (All (LeftIn file total w) ds × All (LeftIn file total w) cs)

    apply_changes-Midway :
        (cs ds : List JournalChange) (p : Progress)
        → AllRecalled cs
        → Separate root dir cs
        → SparesDone cs ds
        → Ensures
            (Midway file total ds cs p)
            (apply_changes fs format root dir rewrite blobs cs p)
            (Finished ds cs)
            Stopped
    unfolding apply_changes
    apply_changes-Midway [] ds p recalls separate spares =
        Ensures-pure _ _ Stopped p (λ w h. (h.0, (h.1.0, tt)))
    apply_changes-Midway (c ∷ cs) ds p recalls separate spares =
        Ensures-bind _ (Midway file total (c ∷ ds) cs) _ Stopped _ _
          (apply_change-Midway file total ds cs c p recalls.0 spares.0 separate.0.0)
          (λ p'.
            Ensures-weaken _ _ _ _ Stopped Stopped _ (λ w h. h)
              (λ a w h. (h.0, (h.1.0.1, (h.1.0.0, h.1.1)))) (λ e w h. tt)
              (apply_changes-Midway cs (c ∷ ds) p' recalls.1 separate.1
                (SparesDone-more cs ds c separate.0.1 spares.1)))

abbrev pub SettledFrom :
    (fs : Fs) → Format → FilePath → fs.World → fs.World → JournalChange → Type 0
SettledFrom fs format root w w' c =
    Settled format c.pre c.post (file_at fs w (root ++ c.path)) (file_at fs w' (root ++ c.path))

append-nil : (ps : List FilePath) → ps ++ [] ≡ ps
append-nil [] = refl
append-nil (p ∷ ps) = ap (◌∷◌ p) (append-nil ps)

-- The whole loop, from nothing kept.
pub loop-Settled :
    (fs : Fs) (laws : IsFs fs) (format : Format) (root dir : FilePath) (rewrite : Bool)
    (blobs : Blobs) (cs : List JournalChange) (w : fs.World) (p : Progress)
    → All (λ (c : JournalChange). RecallsPost format blobs c.post) cs
    → Separate root dir cs
    → All (λ (c : JournalChange). Ready fs laws format dir c.n c.post w) cs
    → (apply_changes fs format root dir rewrite blobs cs (record { kept = []; touched = [] }) w).0
      ≡ ok p
    → (p.kept ≡ outside_edits format (λ path. file_at fs w (root ++ path)) cs)
      × All
          (SettledFrom fs format root w
            (apply_changes fs format root dir rewrite blobs cs
              (record { kept = []; touched = [] })
              w).1)
          cs
loop-Settled fs laws format root dir rewrite blobs cs w p recalls separate ready ran =
    let file : FilePath → Option Bytes = λ path. file_at fs w (root ++ path) in
    let start : Progress = record { kept = []; touched = [] } in
    let after =
      (apply_changes-Midway fs laws format root dir rewrite blobs file
          (outside_edits format file cs) cs [] start recalls separate (none_done cs)).at
        w (refl, (tt, (ready, all_same cs))) in
    let ended = After-ok _ Stopped _ p _ ran after in
    (sym (append-nil p.kept) ∙ ended.0, all_settled cs _ ended.1.1)
  where
    none_done :
        (cs : List JournalChange) → All (λ (c : JournalChange). All (Spares root dir c) []) cs
    none_done [] = tt
    none_done (c ∷ cs) = (tt, none_done cs)

    all_same :
        (cs : List JournalChange)
        → All
            (λ (c : JournalChange). file_at fs w (root ++ c.path) ≡ file_at fs w (root ++ c.path))
            cs
    all_same [] = tt
    all_same (c ∷ cs) = (refl, all_same cs)

    all_settled :
        (cs : List JournalChange) (w' : fs.World)
        → All
            (λ (c : JournalChange).
              Left format c.post
                (file_at fs w (root ++ c.path))
                (outside format c.pre c.post (file_at fs w (root ++ c.path)))
                (file_at fs w' (root ++ c.path)))
            cs
        → All (SettledFrom fs format root w w') cs
    all_settled [] w' h = tt
    all_settled (c ∷ cs) w' h = (Left-Settled format c.pre c.post _ _ h.0, all_settled cs w' h.1)
