-- ===== src/Files/Ensures.antt =====
-- What an operation ensures, on success and on failure, one rule for each way to build one.
use reldir.Base.{◌≡◌, refl, subst, Bool, true, false, if◌then◌else◌}
use reldir.Files.{Act, Result, ok, err, pure, raise, ◌>>=◌, continue, attempt, map_err, mapped}

-- A state of affairs after an operation, by its result.
abbrev pub After : {W E A : Type 0} → (A → W → Type 0) → (E → W → Type 0) → Result E A → W → Type 0
After Post Fail (ok a) w = Post a w
After Post Fail (err e) w = Fail e w

pub record Ensures {W E A : Type 0} (Pre : W → Type 0) (m : Act W E A) (Post : A → W → Type 0)
    (Fail : E → W → Type 0) : Type 0 where
  pub at : (w : W) → Pre w → After Post Fail (m w).0 (m w).1

module _ {W E A : Type 0} (Pre : W → Type 0) (Post : A → W → Type 0) (Fail : E → W → Type 0) where
  pub Ensures-pure : (a : A) → ((w : W) → Pre w → Post a w) → Ensures Pre (pure a) Post Fail
  Ensures-pure a h = record { at = h }

  pub Ensures-raise : (e : E) → ((w : W) → Pre w → Fail e w) → Ensures Pre (raise e) Post Fail
  Ensures-raise e h = record { at = h }

  pub Ensures-if :
      (b : Bool) (m n : Act W E A)
      → (b ≡ true → Ensures Pre m Post Fail)
      → (b ≡ false → Ensures Pre n Post Fail)
      → Ensures Pre (if b then m else n) Post Fail
  Ensures-if true m n hm hn = hm refl
  Ensures-if false m n hm hn = hn refl

  pub Ensures-map_err :
      {D : Type 0} (g : D → E) (m : Act W D A)
      → Ensures Pre m Post (λ d w. Fail (g d) w)
      → Ensures Pre (map_err g m) Post Fail
  unfolding map_err
  Ensures-map_err g m h = record { at = λ w p. let (r, w') = m w in after_mapped g r w' (h.at w p) }
    where
      after_mapped :
          {D : Type 0} (g : D → E) (r : Result D A) (w : W)
          → After Post (λ d w. Fail (g d) w) r w
          → After Post Fail (mapped g r) w
      after_mapped g (ok a) w h = h
      after_mapped g (err d) w h = h

module _ {W F A B : Type 0} (Pre : W → Type 0) (Mid : A → W → Type 0) (Post : B → W → Type 0)
    (Fail : F → W → Type 0) where
  Ensures-continue :
      (r : Result F A) (f : A → Act W F B) (w : W)
      → After Mid Fail r w
      → ((a : A) → Ensures (Mid a) (f a) Post Fail)
      → After Post Fail (continue r f w).0 (continue r f w).1
  Ensures-continue (ok a) f w h k = (k a).at w h
  Ensures-continue (err e) f w h k = h

  pub Ensures-bind :
      (m : Act W F A) (f : A → Act W F B)
      → Ensures Pre m Mid Fail
      → ((a : A) → Ensures (Mid a) (f a) Post Fail)
      → Ensures Pre (m >>= f) Post Fail
  unfolding ◌>>=◌
  Ensures-bind m f hm k = record {
    at = λ w p. let (r, w') = m w in Ensures-continue r f w' (hm.at w p) k;
  }

  Ensures-either :
      {E : Type 0} (Failed : E → W → Type 0) (r : Result E A) (f : Result E A → Act W F B) (w : W)
      → After Mid Failed r w
      → ((a : A) → Ensures (Mid a) (f (ok a)) Post Fail)
      → ((e : E) → Ensures (Failed e) (f (err e)) Post Fail)
      → After Post Fail (f r w).0 (f r w).1
  Ensures-either Failed (ok a) f w h k l = (k a).at w h
  Ensures-either Failed (err e) f w h k l = (l e).at w h

  -- A `match` on a result.
  pub Ensures-match :
      {E : Type 0} (Failed : E → W → Type 0) (m : Act W E A) (f : Result E A → Act W F B)
      → Ensures Pre m Mid Failed
      → ((a : A) → Ensures (Mid a) (f (ok a)) Post Fail)
      → ((e : E) → Ensures (Failed e) (f (err e)) Post Fail)
      → Ensures Pre (attempt m >>= f) Post Fail
  unfolding ◌>>=◌ attempt
  Ensures-match Failed m f hm k l = record {
    at = λ w p. let (r, w') = m w in Ensures-either Failed r f w' (hm.at w p) k l;
  }

module _ {W E A : Type 0} (Post Post' : A → W → Type 0) (Fail Fail' : E → W → Type 0) where
  pub After-weaken :
      (r : Result E A) (w : W)
      → ((a : A) (w : W) → Post a w → Post' a w)
      → ((e : E) (w : W) → Fail e w → Fail' e w)
      → After Post Fail r w
      → After Post' Fail' r w
  After-weaken (ok a) w hq hf x = hq a w x
  After-weaken (err e) w hq hf x = hf e w x

module _ {W E A : Type 0} (Pre Pre' : W → Type 0) (Post Post' : A → W → Type 0)
    (Fail Fail' : E → W → Type 0) where
  pub Ensures-weaken :
      (m : Act W E A)
      → ((w : W) → Pre' w → Pre w)
      → ((a : A) (w : W) → Post a w → Post' a w)
      → ((e : E) (w : W) → Fail e w → Fail' e w)
      → Ensures Pre m Post Fail
      → Ensures Pre' m Post' Fail'
  Ensures-weaken m hp hq hf h = record {
    at = λ w p. After-weaken Post Post' Fail Fail' (m w).0 (m w).1 hq hf (h.at w (hp w p));
  }

module _ {W E A : Type 0} (Pre : W → Type 0) (Post : A → W → Type 0) (Fail : E → W → Type 0) where
  After-any :
      (r : Result E A) (w : W)
      → ((a : A) (w : W) → Post a w)
      → ((e : E) (w : W) → Fail e w)
      → After Post Fail r w
  After-any (ok a) w hq hf = hq a w
  After-any (err e) w hq hf = hf e w

  -- What holds in every case.
  pub Ensures-any :
      (m : Act W E A)
      → ((a : A) (w : W) → Post a w)
      → ((e : E) (w : W) → Fail e w)
      → Ensures Pre m Post Fail
  Ensures-any m hq hf = record { at = λ w p. After-any (m w).0 (m w).1 hq hf }

module _ {W E A : Type 0} (Post : A → W → Type 0) (Fail : E → W → Type 0) where
  pub After-ok : (r : Result E A) (a : A) (w : W) → r ≡ ok a → After Post Fail r w → Post a w
  After-ok r a w e h = subst (λ r. After Post Fail r w) e h

  pub After-err : (r : Result E A) (e : E) (w : W) → r ≡ err e → After Post Fail r w → Fail e w
  After-err r x w e h = subst (λ r. After Post Fail r w) e h
