-- ===== src/Files/Stays.antt =====
-- A state of affairs that an operation leaves as it is, on success and on failure.
use reldir.Base.{◌≡◌, ◌∙◌, Bool, if◌then◌else◌}
use reldir.Files.{Fs, Act, Result, ok, err, pure, raise, lift, ◌>>=◌, attempt, map_err, Keeps, Held}
use reldir.Overlay.{FilePath}
use reldir.Files.Ensures.{
  Ensures, After, Ensures-pure, Ensures-raise, Ensures-bind, Ensures-match, Ensures-map_err,
  Ensures-if,
}
use reldir.Base.{Option}

abbrev pub Stays : {W E A : Type 0} → (W → Type 0) → Act W E A → Type 0
Stays I m = Ensures I m (λ a. I) (λ e. I)

module _ {W : Type 0} (I : W → Type 0) where
  pub Stays-bind :
      {E A B : Type 0} (m : Act W E A) (f : A → Act W E B)
      → Stays I m
      → ((a : A) → Stays I (f a))
      → Stays I (m >>= f)
  Stays-bind m f = Ensures-bind I (λ a. I) (λ b. I) (λ e. I) m f

  pub Stays-match :
      {E F A B : Type 0} (m : Act W E A) (f : Result E A → Act W F B)
      → Stays I m
      → ((a : A) → Stays I (f (ok a)))
      → ((e : E) → Stays I (f (err e)))
      → Stays I (attempt m >>= f)
  Stays-match m f = Ensures-match I (λ a. I) (λ b. I) (λ e. I) (λ e. I) m f

  pub Stays-if :
      {E A : Type 0} (b : Bool) (m n : Act W E A)
      → Stays I m
      → Stays I n
      → Stays I (if b then m else n)
  Stays-if b m n hm hn = Ensures-if I (λ a. I) (λ e. I) b m n (λ y. hm) (λ n'. hn)

  pub Stays-err : {D E A : Type 0} (g : D → E) (m : Act W D A) → Stays I m → Stays I (map_err g m)
  Stays-err g m hm = Ensures-map_err I (λ a. I) (λ e. I) g m hm

  pub Stays-pure : {E A : Type 0} (a : A) → Stays I (pure {E = E} a)
  Stays-pure a = Ensures-pure I (λ a. I) (λ e. I) a (λ w h. h)

  pub Stays-raise : {E A : Type 0} (e : E) → Stays I (raise {A = A} e)
  Stays-raise e = Ensures-raise I (λ a. I) (λ e. I) e (λ w h. h)

  After-lift : {E A : Type 0} (r : Result E A) (w : W) → I w → After (λ a. I) (λ e. I) r w
  After-lift (ok a) w h = h
  After-lift (err e) w h = h

  pub Stays-lift : {E A : Type 0} (r : Result E A) → Stays I (lift r)
  Stays-lift r = record { at = After-lift r }

  -- What an operation leaves behind, from any state of affairs.
  pub Ensures-leaves :
      {E A : Type 0} (Pre : W → Type 0) (m : Act W E A)
      → ((w : W) → Pre w → I (m w).1)
      → Ensures Pre m (λ a. I) (λ e. I)
  Ensures-leaves Pre m h = record { at = λ w p. After-lift (m w).0 (m w).1 (h w p) }

  pub Stays-of : {E A : Type 0} (m : Act W E A) → ((w : W) → I w → I (m w).1) → Stays I m
  Stays-of m h = record { at = λ w i. After-lift (m w).0 (m w).1 (h w i) }

  pub Stays-attempt : {E F A : Type 0} (m : Act W E A) → Stays I m → Stays I (attempt {F = F} m)
  unfolding attempt
  Stays-attempt m hm = record { at = λ w i. of_after (m w).0 (m w).1 (hm.at w i) }
    where
      of_after : {E A : Type 0} (r : Result E A) (w : W) → After (λ a. I) (λ e. I) r w → I w
      of_after (ok a) w h = h
      of_after (err e) w h = h

-- What one path holds stays, where the path is kept.
pub Stays-held :
    (fs : Fs) (P : FilePath → Type 0) (q : FilePath) (h : Option Held) {E A : Type 0}
    (m : Act fs.World E A)
    → P q
    → Keeps fs P m
    → Stays (λ w. fs.held w q ≡ h) m
Stays-held fs P q h m p km = Stays-of (λ w. fs.held w q ≡ h) m (λ w i. km.at w q p ∙ i)

module _ {W E A : Type 0} (Pre Pre' : W → Type 0) (Post Post' : A → W → Type 0)
    (Fail Fail' : E → W → Type 0) where
  After-and :
      (r : Result E A) (w : W)
      → After Post Fail r w
      → After Post' Fail' r w
      → After (λ a w. Post a w × Post' a w) (λ e w. Fail e w × Fail' e w) r w
  After-and (ok a) w i j = (i, j)
  After-and (err e) w i j = (i, j)

  -- Two of what an operation ensures, at once.
  pub Ensures-and :
      (m : Act W E A)
      → Ensures Pre m Post Fail
      → Ensures Pre' m Post' Fail'
      → Ensures (λ w. Pre w × Pre' w) m (λ a w. Post a w × Post' a w) (λ e w. Fail e w × Fail' e w)
  Ensures-and m hi hj = record { at = λ w h. After-and (m w).0 (m w).1 (hi.at w h.0) (hj.at w h.1) }

pub Stays-and :
    {W E A : Type 0} (I J : W → Type 0) (m : Act W E A)
    → Stays I m
    → Stays J m
    → Stays (λ w. I w × J w) m
Stays-and I J m hi hj = Ensures-and I J (λ a. I) (λ a. J) (λ e. I) (λ e. J) m hi hj
