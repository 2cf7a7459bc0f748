-- ===== src/Overlay/Reads.antt =====
-- `read` and `exists` of an overlay (engine/fs/overlay.rs) against the tree left behind.
use Prim.Native.Nat.{min}
use reldir.Base.{
  ℕ, ◌≡◌, ◌≢◌, ◌⊎◌, ◌≤◌, ◌<◌, ◌+◌, ◌-◌, ◌^◌, refl, ap, ◌∙◌, arith, inl, inr, true, false, leb, List,
  Option, none, some, length, take, drop, Bool-cases, Option-cases, if◌then◌else◌,
}
use reldir.Store.Corruption.{Bytes}
use reldir.Overlay.{
  FilePath, Meta, IoResult, done, failed, dir, file, no_stat, not_found, already_exists,
  unexpected_eof, other_error, Source, created_dir, written_bytes, deleted, get_range,
  saturating_add, overlay, overlay_read, overlay_read_at, overlay_metadata, written, created_meta,
}
use reldir.Overlay.Tree.{Files, planned, Shows}

-- Where a planned file comes from.
planned-cases :
    (writes : List (FilePath × Bytes)) (deletes : List FilePath) (files : Files) (p : FilePath)
    (b : Bytes)
    → planned writes deletes files p ≡ some b
    → (written_bytes p writes ≡ some b)
      ⊎ ((written_bytes p writes ≡ none) × ((deleted p deletes ≡ false) × (files p ≡ some b)))
unfolding planned
planned-cases writes deletes files p b e = elim (Option-cases (written_bytes p writes)) [
  | inl n ↦
      let e' : (if deleted p deletes then none else files p) ≡ some b = rw (planned, n) at e in
      elim (Bool-cases (deleted p deletes)) [
        | inl y ↦ absurd (grind (arith, y, e'))
        | inr m ↦ inr (n, (m, grind (arith, m, e')))
      ]
  | inr (c, y) ↦ inl (y ∙ (rw (planned, y) at e))
]

-- Where the planned tree has no file.
planned-none :
    (writes : List (FilePath × Bytes)) (deletes : List FilePath) (files : Files) (p : FilePath)
    → planned writes deletes files p ≡ none
    → (written_bytes p writes ≡ none)
      × ((deleted p deletes ≡ true) ⊎ ((deleted p deletes ≡ false) × (files p ≡ none)))
unfolding planned
planned-none writes deletes files p e = elim (Option-cases (written_bytes p writes)) [
  | inl n ↦
      let e' : (if deleted p deletes then none else files p) ≡ none = rw (planned, n) at e in
      elim (Bool-cases (deleted p deletes)) [
        | inl y ↦ (n, inl y)
        | inr m ↦ (n, inr (m, grind (arith, m, e')))
      ]
  | inr (c, y) ↦ let e' : ◌≡◌ {A = Option Bytes} (some c) none = rw (planned, y) at e in absurd (cc)
]

get_range-within :
    (offset len : ℕ) (b : Bytes)
    → length b < 2 ^ 64 - 1
    → offset + len ≤ length b
    → get_range offset (saturating_add offset len) b ≡ some (take len (drop offset b))
unfolding get_range saturating_add
get_range-within offset len b h k =
    let same : min (offset + len) (2 ^ 64 - 1) ≡ offset + len = omega (arith, h, k) in
    let rest : offset + len - offset ≡ len = omega arith in
    let in_order : leb offset (offset + len) ≡ true = ground arith in
    let inside : leb (offset + len) (length b) ≡ true = ground (arith, k) in
    rw (same, rest, in_order, inside) refl

get_range-past :
    (offset len : ℕ) (b : Bytes)
    → length b < 2 ^ 64 - 1
    → length b < offset + len
    → get_range offset (saturating_add offset len) b ≡ none
unfolding get_range saturating_add
get_range-past offset len b h k = ground arith

abbrev created : Meta
created = record { kind = dir; links = 1; stat = no_stat }

-- Where a base shows no file at a path, none is shown there for the directories the writes create.
created_meta-hides :
    (path : FilePath) (writes : List (FilePath × Bytes)) (r : IoResult Meta) (m : Meta)
    → ((m : Meta) → r ≡ done m → m.kind ≢ file)
    → created_meta path writes r ≡ done m
    → m.kind ≢ file
unfolding created_meta
created_meta-hides path writes (done x) m h e = h m e
created_meta-hides path writes (failed not_found) m h e =
    elim (Bool-cases (created_dir path writes)) [
      | inl y ↦
          let made : ◌≡◌ {A = IoResult Meta} (done created) (done m) = rw y at e in
          λ k.
            let same : created ≡ m = cc in
            let kinds : dir ≡ file = ap (λ (x : Meta). x.kind) same ∙ k in absurd (cc)
      | inr n ↦
          let lost : ◌≡◌ {A = IoResult Meta} (failed not_found) (done m) = rw n at e in absurd (cc)
    ]
created_meta-hides path writes (failed already_exists) m h e = absurd (cc)
created_meta-hides path writes (failed unexpected_eof) m h e = absurd (cc)
created_meta-hides path writes (failed (other_error n)) m h e = absurd (cc)

module _ (base : Source) (writes : List (FilePath × Bytes)) (deletes : List FilePath)
    (files : Files) (shows : Shows base files) where
  -- Through the overlay of a source that shows these files, a reader sees the files as the change
  -- would leave them: the planned bytes where it writes, no file where it deletes, and the base's
  -- files elsewhere. Each file has its bytes, its size and each part of it; where there is none,
  -- reading fails, whole or in part, and the metadata are not those of a file.
  pub overlay-Shows : Shows (overlay base writes deletes) (planned writes deletes files)
  unfolding overlay written created_meta overlay_read overlay_read_at overlay_metadata
  overlay-Shows = record {
    reads = λ p b e. elim (planned-cases writes deletes files p b e) [
      | inl y ↦ rw (overlay_read, y) refl
      | inr (n, (m, f)) ↦ rw (overlay_read, n, m) (shows.reads p b f)
    ];
    misses = λ p e.
        let (n, rest) = planned-none writes deletes files p e in
        elim rest [
          | inl y ↦ (not_found, rw (overlay_read, n, y) refl)
          | inr (m, f) ↦ let (error, g) = shows.misses p f in (error, rw (overlay_read, n, m) g)
        ];
    hides = λ p m e h.
        let (n, rest) = planned-none writes deletes files p e in
        elim rest [
          | inl y ↦
              let gone : ◌≡◌ {A = IoResult Meta} (failed not_found) (done m) =
                rw (overlay_metadata, n, y) at h in
              absurd (cc)
          | inr (k, f) ↦
              created_meta-hides p writes (base.metadata p) m (λ x. shows.hides p x f)
                (rw (overlay_metadata, n, k) at h)
        ];
    slices_nothing = λ p offset len e.
        let (n, rest) = planned-none writes deletes files p e in
        elim rest [
          | inl y ↦ (not_found, rw (overlay_read_at, n, y) refl)
          | inr (m, f) ↦
              let (error, g) = shows.slices_nothing p offset len f in
              (error, rw (overlay_read_at, n, m) g)
        ];
    sizes = λ p b e. elim (planned-cases writes deletes files p b e) [
      | inl y ↦ (written b, (rw (overlay_metadata, y) refl, (refl, refl)))
      | inr (n, (m, f)) ↦
          let (meta, (g, rest)) = shows.sizes p b f in
          (meta, (rw (overlay_metadata, n, m, g) refl, rest))
    ];
    slices = λ p b offset len e h k. elim (planned-cases writes deletes files p b e) [
      | inl y ↦ rw (overlay_read_at, y, get_range-within offset len b h k) refl
      | inr (n, (m, f)) ↦ rw (overlay_read_at, n, m) (shows.slices p b offset len f h k)
    ];
    ends = λ p b offset len e h k. elim (planned-cases writes deletes files p b e) [
      | inl y ↦ (unexpected_eof, rw (overlay_read_at, y, get_range-past offset len b h k) refl)
      | inr (n, (m, f)) ↦
          let (error, g) = shows.ends p b offset len f h k in (error, rw (overlay_read_at, n, m) g)
    ];
  }
