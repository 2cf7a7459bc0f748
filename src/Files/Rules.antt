-- ===== src/Files/Rules.antt =====
-- What operations keep, one rule for each way to build one.
use reldir.Base.{◌≡◌, refl, ◌∙◌, Bool, true, false, if◌then◌else◌}
use reldir.Overlay.{FilePath}
use reldir.Files.{
  Fs, Act, Result, ok, err, pure, raise, lift, ◌>>=◌, continue, attempt, map_err, Keeps,
}
use reldir.Files.Ensures.{Ensures, After}

After-both :
    {W E A : Type 0} (S : W → Type 0) (r : Result E A) (w : W) → S w → After (λ a. S) (λ e. S) r w
After-both S (ok a) w s = s
After-both S (err e) w s = s

module _ (fs : Fs) (P : FilePath → Type 0) where
  pub Keeps-pure : {E A : Type 0} (a : A) → Keeps fs P (pure {W = fs.World} {E = E} a)
  Keeps-pure a = record { at = λ w q h. refl }

  pub Keeps-raise : {E A : Type 0} (e : E) → Keeps fs P (raise {W = fs.World} {A = A} e)
  Keeps-raise e = record { at = λ w q h. refl }

  pub Keeps-lift : {E A : Type 0} (r : Result E A) → Keeps fs P (lift {W = fs.World} r)
  Keeps-lift r = record { at = λ w q h. refl }

  pub Keeps-continue :
      {E A B : Type 0} (r : Result E A) (f : A → Act fs.World E B)
      → ((a : A) → Keeps fs P (f a))
      → Keeps fs P (continue r f)
  Keeps-continue (ok a) f kf = record { at = λ w. (kf a).at w }
  Keeps-continue (err e) f kf = record { at = λ w q h. refl }

  pub Keeps-bind :
      {E A B : Type 0} (m : Act fs.World E A) (f : A → Act fs.World E B)
      → Keeps fs P m
      → ((a : A) → Keeps fs P (f a))
      → Keeps fs P (m >>= f)
  unfolding ◌>>=◌
  Keeps-bind m f km kf = record {
    at = λ w q h. let (r, w') = m w in (Keeps-continue r f kf).at w' q h ∙ km.at w q h;
  }

  Keeps-either :
      {E F A B : Type 0} (f : Result E A → Act fs.World F B)
      → ((a : A) → Keeps fs P (f (ok a)))
      → ((e : E) → Keeps fs P (f (err e)))
      → (r : Result E A) → Keeps fs P (f r)
  Keeps-either f ka ke (ok a) = ka a
  Keeps-either f ka ke (err e) = ke e

  Keeps-result :
      {E F A B : Type 0} (f : Result E A → Act fs.World F B) (r : Result E A)
      → ((a : A) → r ≡ ok a → Keeps fs P (f (ok a)))
      → ((e : E) → Keeps fs P (f (err e)))
      → (w : fs.World) (q : FilePath) → P q
      → fs.held (f r w).1 q ≡ fs.held w q
  Keeps-result f (ok a) ka ke w q h = (ka a refl).at w q h
  Keeps-result f (err e) ka ke w q h = (ke e).at w q h

  pub Keeps-attempt :
      {E F A : Type 0} (m : Act fs.World E A) → Keeps fs P m → Keeps fs P (attempt {F = F} m)
  unfolding attempt
  Keeps-attempt m km = record { at = λ w q h. km.at w q h }

  pub Keeps-map_err :
      {E F A : Type 0} (g : E → F) (m : Act fs.World E A) → Keeps fs P m → Keeps fs P (map_err g m)
  unfolding map_err
  Keeps-map_err g m km = record { at = λ w q h. km.at w q h }

  pub Keeps-if :
      {E A : Type 0} (b : Bool) (m n : Act fs.World E A)
      → Keeps fs P m
      → Keeps fs P n
      → Keeps fs P (if b then m else n)
  Keeps-if true m n km kn = km
  Keeps-if false m n km kn = kn

  -- A `match` on a result.
  pub Keeps-attempted :
      {E F A B : Type 0} (m : Act fs.World E A) (f : Result E A → Act fs.World F B)
      → Keeps fs P m
      → ((a : A) → Keeps fs P (f (ok a)))
      → ((e : E) → Keeps fs P (f (err e)))
      → Keeps fs P (attempt m >>= f)
  Keeps-attempted m f km ka ke =
      Keeps-bind (attempt m) f (Keeps-attempt m km) (Keeps-either f ka ke)

  -- What comes next may use what the operation gave, and in which world.
  pub Keeps-given :
      {E F A B : Type 0} (m : Act fs.World E A) (f : Result E A → Act fs.World F B)
      → Keeps fs P m
      → ((w : fs.World) (a : A) → (m w).0 ≡ ok a → Keeps fs P (f (ok a)))
      → ((e : E) → Keeps fs P (f (err e)))
      → Keeps fs P (attempt m >>= f)
  unfolding ◌>>=◌ attempt
  Keeps-given m f km ka ke = record {
    at = λ w q h. let (r, w') = m w in Keeps-result f r (ka w) ke w' q h ∙ km.at w q h;
  }

-- What keeps more keeps less.
pub Keeps-only :
    (fs : Fs) (P Q : FilePath → Type 0) {E A : Type 0} (m : Act fs.World E A)
    → ((q : FilePath) → Q q → P q)
    → Keeps fs P m
    → Keeps fs Q m
Keeps-only fs P Q m within km = record { at = λ w q h. km.at w q (within q h) }

abbrev pub SameOn : (fs : Fs) → (FilePath → Type 0) → fs.World → fs.World → Type 0
SameOn fs P before w = (q : FilePath) → P q → fs.held w q ≡ fs.held before q

-- Either way, what an operation keeps is as it was.
pub Ensures-Keeps :
    (fs : Fs) (P : FilePath → Type 0) (before : fs.World) {E A : Type 0} (m : Act fs.World E A)
    → Keeps fs P m
    → Ensures (SameOn fs P before) m (λ a. SameOn fs P before) (λ e. SameOn fs P before)
Ensures-Keeps fs P before m km = record {
  at = λ w same. After-both (SameOn fs P before) (m w).0 (m w).1 (λ q h. km.at w q h ∙ same q h);
}

pub ruleset keeps_rules = (
  Keeps-pure, Keeps-raise, Keeps-lift, Keeps-bind, Keeps-attempt, Keeps-map_err, Keeps-if,
  Keeps-attempted,
)
