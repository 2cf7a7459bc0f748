-- ===== src/Journal/Placed.antt =====
-- What `place` and `place_fresh` (engine/journal.rs) put at their target, and what they leave elsewhere.
use reldir.Base.{ℕ, ◌≡◌, ◌≢◌, refl, sym, subst, [], ◌∷◌, ◌++◌, Option, none, some}
use reldir.Store.Corruption.{Bytes}
use reldir.Overlay.{FilePath, IoError}
use reldir.Files.{Fs, IsFs, Result, ok, err, ◌>>=◌, full, Held, file_of, Elsewhere}
use reldir.Files.Ensures.{
  Ensures, After, Ensures-pure, Ensures-raise, Ensures-bind, Ensures-match, Ensures-map_err,
  Ensures-if, Ensures-weaken, Ensures-any,
}
use reldir.Files.Stays.{Stays, Stays-raise, Stays-pure, Ensures-leaves}
use reldir.Journal.{Format, Image}
use reldir.Journal.Record.{image_of}
use reldir.Journal.Preflight.{is_missing}
use reldir.Journal.Apply.{staged_name, fresh_name, Blobs, or_lost, place_fresh}
use reldir.Journal.Placing.{place}
use reldir.Journal.Atomic.{Always}
use reldir.Journal.Holding.{Lasting, IsFile, At, At-Keeps, remove_if_there-At}

-- A file whose bytes have this image.
abbrev pub HasImage : Format → Image → Option Held → Type 0
HasImage format image h = (b : Bytes) × ((h ≡ some (file_of b)) × (image_of format b ≡ image))

-- What history gives for a digest are bytes of the image that was asked for.
abbrev pub Recalls : Format → Blobs → Image → Type 0
Recalls format blobs image = (b : Bytes) → blobs image.sha256 ≡ some b → image_of format b ≡ image

module _ (fs : Fs) (laws : IsFs fs) where
  -- The staged file holds these bytes.
  abbrev pub Staged : FilePath → Bytes → fs.World → Type 0
  Staged from b w = IsFile b (fs.held w from)

  Sent-rename :
      (from to : FilePath) (b : Bytes)
      → Ensures (Staged from b) (fs.rename from to) (λ u w. IsFile b (fs.held w to)) (λ e. Always)
  Sent-rename from to b = record { at = λ w h. by_result w (fs.rename from to w).0 refl h }
    where
      by_result :
          (w : fs.World) (r : Result IoError (Unit {0}))
          → (fs.rename from to w).0 ≡ r
          → Staged from b w
          → After (λ u w. IsFile b (fs.held w to)) (λ e. Always) r (fs.rename from to w).1
      by_result w (ok tt) e h = laws.renamed from to w b h e
      by_result w (err x) e h = tt

  created-Staged :
      (p : FilePath) (b : Bytes)
      → Ensures Always (fs.create_synced p b full) (λ u. Staged p b) (λ e. Always)
  created-Staged p b = record { at = λ w h. by_result w (fs.create_synced p b full w).0 refl }
    where
      by_result :
          (w : fs.World) (r : Result IoError (Unit {0}))
          → (fs.create_synced p b full w).0 ≡ r
          → After (λ u. Staged p b) (λ e. Always) r (fs.create_synced p b full w).1
      by_result w (ok tt) e = laws.create_synced_done p b full w e
      by_result w (err x) e = tt

  -- `place_fresh` puts the bytes at the target.
  pub place_fresh-IsFile :
      (dir target : FilePath) (b : Bytes) (n : ℕ)
      → Ensures Always
          (place_fresh fs dir target b n)
          (λ u w. IsFile b (fs.held w target))
          (λ e. Always)
  unfolding place_fresh
  place_fresh-IsFile dir target b n =
      let fresh = dir ++ fresh_name n ∷ [] in
      Ensures-bind Always (λ u. Always) _ (λ e. Always) _ _
        (Ensures-any Always (λ u. Always) (λ e. Always) _ (λ a w. tt) (λ e w. tt))
        (λ u.
          Ensures-bind Always (λ u. Staged fresh b) _ (λ e. Always) _ _
            (Ensures-map_err Always (λ u. Staged fresh b) (λ e. Always) _ _
              (created-Staged fresh b))
            (λ v.
              Ensures-map_err (Staged fresh b) _ (λ e. Always) _ _ (Sent-rename fresh target b)))

  module _ (format : Format) (blobs : Blobs) (post : Image)
      (recalls : Recalls format blobs post) where
    abbrev Arrived : FilePath → fs.World → Type 0
    Arrived target w = HasImage format post (fs.held w target)

    recalled-HasImage :
        (dir target : FilePath) (n : ℕ) (found : Option Bytes)
        → blobs post.sha256 ≡ found
        → Ensures Always
            (or_lost found >>= λ b. place_fresh fs dir target b n)
            (λ u. Arrived target)
            (λ e. Always)
    unfolding ◌>>=◌
    recalled-HasImage dir target n none e = record { at = λ w h. tt }
    recalled-HasImage dir target n (some b) e =
        Ensures-weaken Always Always (λ u w. IsFile b (fs.held w target)) (λ u. Arrived target)
          (λ x. Always) (λ x. Always) _ (λ w h. tt) (λ a w h. (b, (h, recalls b e))) (λ x w h. tt)
          (place_fresh-IsFile dir target b n)

    -- `place` puts a file of the image at the target.
    pub place-HasImage :
        (dir target : FilePath) (n : ℕ) (b : Bytes)
        → image_of format b ≡ post
        → Ensures
            (Staged (dir ++ staged_name n ∷ []) b)
            (place fs format dir target post n blobs)
            (λ u. Arrived target)
            (λ e. Always)
    unfolding place
    place-HasImage dir target n b same =
        let from = dir ++ staged_name n ∷ [] in
        Ensures-match (Staged from b) (λ u w. IsFile b (fs.held w target)) (λ u. Arrived target)
          (λ e. Always) (λ e. Always) _ _ (Sent-rename from target b)
          (λ u. Ensures-pure _ (λ u. Arrived target) (λ e. Always) tt (λ w h. (b, (h, same))))
          (λ e.
            Ensures-if Always (λ u. Arrived target) (λ x. Always) (is_missing e) _ _
              (λ y. recalled-HasImage dir target n (blobs post.sha256) refl)
              (λ m. Ensures-raise Always _ (λ x. Always) _ (λ w h. tt)))

module _ (fs : Fs) (laws : IsFs fs) (q : FilePath) (J : Option Held → Type 0)
    (lasting : Lasting fs q J) where
  abbrev There : fs.World → Type 0
  There = At fs laws q J lasting

  rename-At :
      (from to : FilePath) (b : Bytes)
      → q ≢ from
      → q ≢ to
      → Ensures
          (λ w. Staged fs laws from b w × There w)
          (fs.rename from to)
          (λ u. There)
          (λ e. There)
  rename-At from to b f t =
      Ensures-leaves There _ _
        (λ w h. subst J (sym (laws.rename_keeps from to w b q h.0 (f, t))) h.1)

  created-At :
      (p : FilePath) (b : Bytes)
      → q ≢ p
      → Ensures There
          (fs.create_synced p b full)
          (λ u w. Staged fs laws p b w × There w)
          (λ e. There)
  created-At p b n = record {
    at = λ w h. by_result w (fs.create_synced p b full w).0 refl (
        (At-Keeps fs laws q J lasting (Elsewhere p) _ n (laws.create_synced_keeps p b full)).at w
          h);
  }
    where
      by_result :
          (w : fs.World) (r : Result IoError (Unit {0}))
          → (fs.create_synced p b full w).0 ≡ r
          → After (λ u. There) (λ e. There) r (fs.create_synced p b full w).1
          → After
              (λ u w. Staged fs laws p b w × There w)
              (λ e. There)
              r
              (fs.create_synced p b full w).1
      by_result w (ok tt) e h = (laws.create_synced_done p b full w e, h)
      by_result w (err x) e h = h

  pub place_fresh-At :
      (dir target : FilePath) (b : Bytes) (n : ℕ)
      → q ≢ dir ++ fresh_name n ∷ []
      → q ≢ target
      → Stays There (place_fresh fs dir target b n)
  unfolding place_fresh
  place_fresh-At dir target b n f t =
      let fresh = dir ++ fresh_name n ∷ [] in
      Ensures-bind There (λ u. There) (λ u. There) (λ e. There) _ _
        (remove_if_there-At fs laws q J lasting fresh f)
        (λ u.
          Ensures-bind There _ (λ u. There) (λ e. There) _ _
            (Ensures-map_err There _ (λ e. There) _ _ (created-At fresh b f))
            (λ v. Ensures-map_err _ (λ u. There) (λ e. There) _ _ (rename-At fresh target b f t)))

  recalled-At :
      (dir target : FilePath) (n : ℕ) (found : Option Bytes)
      → q ≢ dir ++ fresh_name n ∷ []
      → q ≢ target
      → Stays There (or_lost found >>= λ b. place_fresh fs dir target b n)
  unfolding ◌>>=◌
  recalled-At dir target n none f t = record { at = λ w h. h }
  recalled-At dir target n (some b) f t = record {
    at = λ w h. (place_fresh-At dir target b n f t).at w h;
  }

  pub place-At :
      (format : Format) (blobs : Blobs) (post : Image) (dir target : FilePath) (n : ℕ) (b : Bytes)
      → q ≢ dir ++ staged_name n ∷ []
      → q ≢ dir ++ fresh_name n ∷ []
      → q ≢ target
      → Ensures
          (λ w. Staged fs laws (dir ++ staged_name n ∷ []) b w × There w)
          (place fs format dir target post n blobs)
          (λ u. There)
          (λ e. There)
  unfolding place
  place-At format blobs post dir target n b s f t =
      Ensures-match _ (λ u. There) (λ u. There) (λ e. There) (λ e. There) _ _
        (rename-At (dir ++ staged_name n ∷ []) target b s t) (λ u. Stays-pure There tt)
        (λ e.
          Ensures-if There (λ u. There) (λ x. There) (is_missing e) _ _
            (λ y. recalled-At dir target n (blobs post.sha256) f t) (λ m. Stays-raise There _))
