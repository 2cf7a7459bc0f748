-- ===== src/Journal/Holding.antt =====
-- A state of affairs at one path, through the steps of `apply` that act on other paths
-- (engine/journal.rs).
use reldir.Base.{
  ◌≡◌, ◌≢◌, inl, inr, refl, sym, ap, ◌∙◌, subst, List, [], ◌∷◌, ◌++◌, Option, none, some, true,
  false, Bool-cases,
}
use reldir.Store.Corruption.{Bytes}
use reldir.Overlay.{FilePath, IoError, not_found, path_eq, Meta}
use reldir.Files.{
  Fs, IsFs, Act, Result, ok, err, map_err, Held, file_of, Keeps, Anywhere, Elsewhere,
}
use reldir.Files.Memory.{path_eq_iff}
use reldir.Files.Ensures.{
  Ensures, After, Ensures-raise, Ensures-bind, Ensures-match, Ensures-if, Ensures-weaken,
}
use reldir.Files.Stays.{
  Stays, Stays-bind, Stays-match, Stays-if, Stays-err, Stays-pure, Stays-raise, Stays-of,
  Ensures-leaves,
}
use reldir.Journal.{Format}
use reldir.Journal.Preflight.{current_image, io, is_missing, missing-eq}
use reldir.Journal.Apply.{
  sync, insert_if_dir, remove_if_there, create_dir_if_missing, create_parents, insert_path,
}

-- What may be said of a path so that a directory made where nothing was does not end it.
pub record Lasting (fs : Fs) (q : FilePath) (J : Option Held → Type 0) : Type 0 where
  pub makes : (w : fs.World) → fs.held w q ≡ none → J none → J (fs.held (fs.create_dir q w).1 q)

-- A file with these bytes; and no file at all.
abbrev pub IsFile : Bytes → Option Held → Type 0
IsFile b h = h ≡ some (file_of b)

abbrev pub NoFile : Option Held → Type 0
NoFile h = (b : Bytes) → h ≢ some (file_of b)

pub IsFile-Lasting : (fs : Fs) (q : FilePath) (b : Bytes) → Lasting fs q (IsFile b)
IsFile-Lasting fs q b = record { makes = λ w n e. absurd (none_is_no_file b e) }
  where
    none_is_no_file : (b : Bytes) → none ≡ some (file_of b) → ⊥
    none_is_no_file b e = cc

module _ (fs : Fs) (laws : IsFs fs) (q : FilePath) (J : Option Held → Type 0)
    (lasting : Lasting fs q J) where
  abbrev pub At : fs.World → Type 0
  At w = J (fs.held w q)

  pub At-Keeps :
      {E A : Type 0} (P : FilePath → Type 0) (m : Act fs.World E A)
      → P q
      → Keeps fs P m
      → Stays At m
  At-Keeps P m p km = Stays-of At m (λ w h. subst J (sym (km.at w q p)) h)

  pub At-quiet : {E A : Type 0} (m : Act fs.World E A) → Keeps fs Anywhere m → Stays At m
  At-quiet m km = At-Keeps Anywhere m tt km

  -- Nothing is there, and what is said of `q` holds.
  abbrev Vacant : FilePath → fs.World → Type 0
  Vacant p w = (fs.held w p ≡ none) × At w

  made-At : (p : FilePath) (w : fs.World) → Vacant p w → At (fs.create_dir p w).1
  made-At p w (n, h) = elim (Bool-cases (path_eq p q)) [
    | inl y ↦
        let same : p ≡ q = (path_eq_iff p q).0 y in
        subst (λ x. J (fs.held (fs.create_dir x w).1 q)) (sym same)
          (lasting.makes w (subst (λ x. fs.held w x ≡ none) same n)
            (subst J (subst (λ x. fs.held w x ≡ none) same n) h))
    | inr m ↦
        let apart : q ≢ p = λ e. differ p q m ((path_eq_iff p q).1 (sym e)) in
        subst J (sym ((laws.create_dir_keeps p).at w q apart)) h
  ]
    where
      differ : (p q : FilePath) → path_eq p q ≡ false → path_eq p q ≡ true → ⊥
      differ p q m y = cc

  create_dir-At :
      (p : FilePath) → Ensures (Vacant p) (create_dir_if_missing fs p) (λ u. At) (λ e. At)
  unfolding create_dir_if_missing
  create_dir-At p =
      Ensures-match (Vacant p) (λ u. At) (λ u. At) (λ e. At) (λ e. At) _ _
        (Ensures-leaves At (Vacant p) _ (made-At p)) (λ u. Stays-pure At tt)
        (λ e. Stays-if At _ _ _ (Stays-pure At tt) (Stays-raise At _))

  sync-At : (p : FilePath) → Stays At (map_err (λ e. sync (io e)) (fs.sync_dir p))
  sync-At p = Stays-err At _ _ (At-quiet _ (laws.sync_dir_keeps p))

  -- What the metadata of a path say: if it is missing, nothing is there.
  looked_up-At :
      (p : FilePath)
      → Ensures At (fs.metadata p) (λ m. At) (λ e w. (e ≡ not_found → Vacant p w) × At w)
  looked_up-At p = record {
    at = λ w h. by_result w (fs.metadata p w).0 refl ((At-quiet _ (laws.metadata_keeps p)).at w h);
  }
    where
      by_result :
          (w : fs.World) (r : Result IoError Meta)
          → (fs.metadata p w).0 ≡ r
          → After (λ m. At) (λ e. At) r (fs.metadata p w).1
          → After (λ m. At) (λ e w. (e ≡ not_found → Vacant p w) × At w) r (fs.metadata p w).1
      by_result w (ok m) e h = h
      by_result w (err x) e h = (
        λ n. ((laws.metadata_keeps p).at w p tt ∙ laws.metadata_missing p w (e ∙ ap err n), h),
        h,
      )

  pub create_parents-At :
      (parent : FilePath) (cs : List Bytes) (touched : List FilePath)
      → Stays At (create_parents fs parent cs touched)
  unfolding create_parents
  create_parents-At parent [] touched = Stays-pure At touched
  create_parents-At parent (c ∷ cs) touched =
      Ensures-match At (λ m. At) (λ t. At) (λ e. At) _ _ _ (looked_up-At (parent ++ c ∷ []))
        (λ meta.
          Stays-if At _ _ _ (create_parents-At (parent ++ c ∷ []) cs touched) (Stays-raise At _))
        (λ e.
          Ensures-if _ (λ t. At) (λ x. At) (is_missing e) _ _
            (λ y.
              Ensures-bind _ (λ u. At) (λ t. At) (λ x. At) _ _
                (Ensures-weaken (Vacant (parent ++ c ∷ [])) _ (λ u. At) (λ u. At) (λ x. At)
                  (λ x. At) _ (λ w h. h.0 (missing-eq e y)) (λ a w h. h) (λ x w h. h)
                  (create_dir-At (parent ++ c ∷ [])))
                (λ u.
                  Stays-bind At _ _ (sync-At parent)
                    (λ v. create_parents-At (parent ++ c ∷ []) cs (insert_path parent touched))))
            (λ n. Ensures-raise _ (λ t. At) (λ x. At) _ (λ w h. h.1)))

  pub insert_if_dir-At : (p : FilePath) (ps : List FilePath) → Stays At (insert_if_dir fs p ps)
  unfolding insert_if_dir
  insert_if_dir-At p ps =
      Stays-match At _ _ (At-quiet _ (laws.metadata_keeps p)) (λ m. Stays-pure At _)
        (λ e. Stays-pure At ps)

  pub remove_if_there-At : (p : FilePath) → q ≢ p → Stays At (remove_if_there fs p)
  unfolding remove_if_there
  remove_if_there-At p n =
      Stays-match At _ _ (At-Keeps (Elsewhere p) _ n (laws.remove_file_keeps p))
        (λ u. Stays-pure At tt) (λ e. Stays-if At _ _ _ (Stays-pure At tt) (Stays-raise At _))

  module _ (format : Format) where
    pub current_image-At : (p : FilePath) → Stays At (current_image fs format p)
    unfolding current_image
    current_image-At p =
        Stays-match At _ _ (At-quiet _ (laws.read_keeps p)) (λ b. Stays-pure At _)
          (λ e. Stays-if At _ _ _ (Stays-pure At _) (Stays-raise At _))
