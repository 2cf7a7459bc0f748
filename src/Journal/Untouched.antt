-- ===== src/Journal/Untouched.antt =====
-- What the steps of a transaction leave as it was: all that lies outside its directory (engine/journal.rs).
use reldir.Base.{◌≡◌, ◌≢◌, List, [], ◌∷◌, ◌++◌, All, Bool, if◌then◌else◌}
use reldir.Store.Corruption.{Bytes}
use reldir.Overlay.{FilePath, Entry, IoError}
use reldir.Files.{
  Fs, IsFs, Act, Result, ok, err, pure, raise, ◌>>=◌, attempt, map_err, Keeps, Anywhere, Elsewhere,
}
use reldir.Files.Rules.{
  Keeps-pure, Keeps-raise, Keeps-lift, Keeps-bind, Keeps-attempt, Keeps-map_err, Keeps-if,
  Keeps-attempted, Keeps-given, Keeps-only,
}
use reldir.Journal.Preflight.{io}
use reldir.Journal.Commit.{ensure_dir, unless_missing, discard_entries, discard}

-- An operation on a path that is not in `P`; and on any path below it.
abbrev pub Avoids : (FilePath → Type 0) → FilePath → Type 0
Avoids P p = (q : FilePath) → P q → q ≢ p

module _ (fs : Fs) (laws : IsFs fs) (P : FilePath → Type 0) where
  abbrev pub Quiet : {E A : Type 0} → Act fs.World E A → Type 0
  Quiet m = Keeps fs P m

  pub everywhere : {E A : Type 0} (m : Act fs.World E A) → Keeps fs Anywhere m → Quiet m
  everywhere m km = Keeps-only fs Anywhere P m (λ q h. tt) km

  pub inside :
      {E A : Type 0} (m : Act fs.World E A) (p : FilePath)
      → Avoids P p
      → Keeps fs (Elsewhere p) m
      → Quiet m
  inside m p i km = Keeps-only fs (Elsewhere p) P m (i) km

  pub Quiet-bind :
      {E A B : Type 0} (m : Act fs.World E A) (f : A → Act fs.World E B)
      → Quiet m
      → ((a : A) → Quiet (f a))
      → Quiet (m >>= f)
  Quiet-bind m f = Keeps-bind fs P m f

  pub Quiet-match :
      {E F A B : Type 0} (m : Act fs.World E A) (f : Result E A → Act fs.World F B)
      → Quiet m
      → ((a : A) → Quiet (f (ok a)))
      → ((e : E) → Quiet (f (err e)))
      → Quiet (attempt m >>= f)
  Quiet-match m f = Keeps-attempted fs P m f

  pub Quiet-if :
      {E A : Type 0} (b : Bool) (m n : Act fs.World E A)
      → Quiet m
      → Quiet n
      → Quiet (if b then m else n)
  Quiet-if b m n = Keeps-if fs P b m n

  pub Quiet-io : {E F A : Type 0} (g : E → F) (m : Act fs.World E A) → Quiet m → Quiet (map_err g m)
  Quiet-io g m = Keeps-map_err fs P g m

  pub Quiet-pure : {E A : Type 0} (a : A) → Quiet (pure {E = E} a)
  Quiet-pure a = Keeps-pure fs P a

  pub Quiet-raise : {E A : Type 0} (e : E) → Quiet (raise {A = A} e)
  Quiet-raise e = Keeps-raise fs P e

  pub ensure_dir-Quiet : (p : FilePath) → Avoids P p → Quiet (ensure_dir fs p)
  unfolding ensure_dir
  ensure_dir-Quiet p i =
      Quiet-match _ _ (everywhere _ (laws.metadata_keeps p))
        (λ meta. Quiet-if _ _ _ (Quiet-pure tt) (Quiet-raise _))
        (λ e.
          Quiet-if _ _ _
            (Quiet-bind _ _ (Quiet-io io _ (inside _ p i (laws.create_dir_keeps p)))
              (λ u. Quiet-io io _ (everywhere _ (laws.sync_dir_keeps _))))
            (Quiet-raise _))

  unless_missing-Quiet :
      (m : Act fs.World IoError (Unit {0})) → Quiet m → Quiet (unless_missing fs m)
  unfolding unless_missing
  unless_missing-Quiet m km =
      Quiet-match m _ km (λ u. Quiet-pure tt) (λ e. Quiet-if _ _ _ (Quiet-pure tt) (Quiet-raise _))

  discard_entries-Quiet :
      (es : List Entry) → All (λ (e : Entry). Avoids P e.path) es → Quiet (discard_entries fs es)
  unfolding discard_entries
  discard_entries-Quiet [] i = Quiet-pure tt
  discard_entries-Quiet (e ∷ es) i = Quiet-bind _ _ (Keeps-lift fs P _) (λ u.
      Quiet-bind _ _ (unless_missing-Quiet _ (inside _ e.path i.0 (laws.remove_file_keeps e.path)))
        (λ v. discard_entries-Quiet es i.1))

  children-Avoids :
      (p : FilePath) (es : List Entry)
      → ((name : Bytes) → Avoids P (p ++ name ∷ []))
      → All (λ (e : Entry). (name : Bytes) × (e.path ≡ p ++ name ∷ [])) es
      → All (λ (e : Entry). Avoids P e.path) es
  children-Avoids p [] i h = tt
  children-Avoids p (e ∷ es) i h = (rw h.0.1 (i h.0.0), children-Avoids p es i h.1)

  -- `discard` removes what stands in the directory, and the directory, and touches nothing else.
  pub discard-Quiet :
      (transactions dir : FilePath)
      → Avoids P dir
      → ((name : Bytes) → Avoids P (dir ++ name ∷ []))
      → Quiet (discard fs transactions dir)
  unfolding discard
  discard-Quiet transactions dir d i =
      Keeps-given fs P _ _ (everywhere _ (laws.read_dir_keeps dir))
        (λ w es e.
          Quiet-bind _ _
            (discard_entries-Quiet es (children-Avoids dir es i (laws.listed dir es w e)))
            (λ u.
              Quiet-bind _ _ (unless_missing-Quiet _ (inside _ dir d (laws.remove_dir_keeps dir)))
                (λ v.
                  Quiet-bind _ _
                    (Keeps-attempt fs P _ (everywhere _ (laws.sync_dir_keeps transactions)))
                    (λ x. Quiet-pure tt))))
        (λ e. Quiet-if _ _ _ (Quiet-pure tt) (Quiet-raise _))
