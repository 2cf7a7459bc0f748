-- ===== src/Journal/Settles.antt =====
-- One change (engine/journal.rs: the loop of `apply`) and what it leaves at its own path.
use reldir.Base.{◌≡◌, refl, ap, ◌∙◌, subst, Option, none, some, true, false, arith, ==_iff}
use reldir.Store.Corruption.{Bytes}
use reldir.Store.Text.{bytes_eq_iff}
use reldir.Overlay.{FilePath, IoError, not_found}
use reldir.Files.{Fs, IsFs, Result, ok, err, Held, file_of}
use reldir.Files.Ensures.{Ensures, After, Ensures-pure, Ensures-raise, Ensures-match, Ensures-if}
use reldir.Journal.{Format, Image, same_image, image_eq}
use reldir.Journal.Preflight.{current_image, is_missing, missing-eq}
use reldir.Journal.Apply.{remove_if_there}
use reldir.Journal.Atomic.{Always}
use reldir.Journal.Placed.{HasImage}

pub image_eq-eq : (a b : Image) → image_eq a b ≡ true → a ≡ b
unfolding image_eq
image_eq-eq a b h = ground (arith, bytes_eq_iff a.sha256 b.sha256, ==_iff a.size b.size)

-- What a look at a path found is there.
abbrev pub Sees : Format → Option Image → Option Held → Type 0
Sees format none h = h ≡ none
Sees format (some image) h = HasImage format image h

pub same_image-Sees :
    (format : Format) (now : Option Image) (image : Image) (h : Option Held)
    → same_image now (some image) ≡ true
    → Sees format now h
    → HasImage format image h
unfolding same_image
same_image-Sees format none image h e s = absurd (no_true e)
  where
    no_true : false ≡ true → ⊥
    no_true e = cc
same_image-Sees format (some i) image h e s =
    subst (λ x. HasImage format x h) (image_eq-eq i image e) s

module _ (fs : Fs) (laws : IsFs fs) (format : Format) where
  read-Sees :
      (p : FilePath)
      → Ensures Always
          (fs.read p)
          (λ b w. fs.held w p ≡ some (file_of b))
          (λ e w. e ≡ not_found → fs.held w p ≡ none)
  read-Sees p = record { at = λ w h. by_result w (fs.read p w).0 refl }
    where
      by_result :
          (w : fs.World) (r : Result IoError Bytes)
          → (fs.read p w).0 ≡ r
          → After
              (λ b w. fs.held w p ≡ some (file_of b))
              (λ e w. e ≡ not_found → fs.held w p ≡ none)
              r
              (fs.read p w).1
      by_result w (ok b) e = (laws.read_keeps p).at w p tt ∙ laws.read_done p b w e
      by_result w (err x) e =
          λ n. (laws.read_keeps p).at w p tt ∙ laws.read_missing p w (e ∙ ap err n)

  pub current_image-Sees :
      (p : FilePath)
      → Ensures Always
          (current_image fs format p)
          (λ now w. Sees format now (fs.held w p))
          (λ e. Always)
  unfolding current_image
  current_image-Sees p =
      Ensures-match Always (λ b w. fs.held w p ≡ some (file_of b)) _ (λ e. Always)
        (λ e w. e ≡ not_found → fs.held w p ≡ none) _ _ (read-Sees p)
        (λ b. Ensures-pure _ _ (λ e. Always) _ (λ w h. (b, (h, refl))))
        (λ e.
          Ensures-if _ _ (λ e. Always) (is_missing e) _ _
            (λ y. Ensures-pure _ _ (λ e. Always) none (λ w h. h (missing-eq e y)))
            (λ n. Ensures-raise _ _ (λ e. Always) _ (λ w h. tt)))

  pub remove_if_there-none :
      (p : FilePath)
      → Ensures Always (remove_if_there fs p) (λ u w. fs.held w p ≡ none) (λ e. Always)
  unfolding remove_if_there
  remove_if_there-none p =
      Ensures-match Always (λ u w. fs.held w p ≡ none) _ (λ e. Always)
        (λ e w. e ≡ not_found → fs.held w p ≡ none) _ _
        (record { at = λ w h. by_result w (fs.remove_file p w).0 refl })
        (λ u. Ensures-pure _ _ (λ e. Always) tt (λ w h. h))
        (λ e.
          Ensures-if _ _ (λ e. Always) (is_missing e) _ _
            (λ y. Ensures-pure _ _ (λ e. Always) tt (λ w h. h (missing-eq e y)))
            (λ n. Ensures-raise _ _ (λ e. Always) _ (λ w h. tt)))
    where
      by_result :
          (w : fs.World) (r : Result IoError (Unit {0}))
          → (fs.remove_file p w).0 ≡ r
          → After
              (λ u w. fs.held w p ≡ none)
              (λ e w. e ≡ not_found → fs.held w p ≡ none)
              r
              (fs.remove_file p w).1
      by_result w (ok tt) e = laws.remove_done p w e
      by_result w (err x) e = λ n. laws.remove_missing p w (e ∙ ap err n)
