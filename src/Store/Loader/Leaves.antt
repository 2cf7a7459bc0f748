-- ===== src/Store/Loader/Leaves.antt =====
-- `load_leaf` against the identity its parent records (store/node.rs).
use reldir.Base.{
  ℕ, ◌≡◌, ◌⊎◌, ◌↔◌, refl, sym, ap, subst, ◌∙◌, arith, inl, inr, All, Bool, true, false, ◌&&◌,
  ==_iff, List, [], ◌∷◌, ◌++◌, map, Option, none, some, Bool-cases, Option-cases,
}
use reldir.Store.Corruption.{Bytes, Hash256, ObjectId, NodeKind, ok, err, out_of_fuel, Decoded}
use reldir.Store.Codec.Spelling.{IsByte}
use reldir.Store.Text.{bytes_eq, bytes_eq_iff, contains, valid_path, table_of}
use reldir.Store.Node.{Entry, Child, Node, leaf, mid, table, root, extras, decode}
use reldir.Store.Node.Collect.{Chain}
use reldir.Store.Node.Items.{GoodEntry}
use reldir.Store.Node.Decoding.{decode_iff}
use reldir.Store.Node.Identity.{leaf_identity, leaf_node_identity, bucket}
use reldir.Store.Node.Identity.Injective.{IsPair, Collision, leaf_identity-injective}
use reldir.Store.Loader.{
  LoadError, Loaded, or_corrupt, done, failed, diverged, as_leaf, load, typed_loader, placed,
  is_table, find_misplaced, load_leaf,
}

-- What a load can end with.
Loaded-cases :
    {E A : Type 0} (r : Loaded E A)
    → ((a : A) × (r ≡ done a)) ⊎ (((e : LoadError E) × (r ≡ failed e)) ⊎ (r ≡ diverged))
Loaded-cases (done a) = inl (a, refl)
Loaded-cases (failed e) = inr (inl (e, refl))
Loaded-cases diverged = inr (inr refl)

leaf-as_leaf : (n : Node) (es : List Entry) → as_leaf n ≡ some es → n ≡ leaf es
unfolding as_leaf
leaf-as_leaf (leaf xs) es e = grind (arith, e)
leaf-as_leaf (mid xs) es e = cc
leaf-as_leaf (table xs) es e = cc
leaf-as_leaf (root xs) es e = cc
leaf-as_leaf (extras xs) es e = cc

is_table_iff : (o : Option Bytes) (name : Bytes) → (is_table o name ≡ true) ↔ (o ≡ some name)
unfolding is_table
is_table_iff none name = (λ h. cc, λ h. cc)
is_table_iff (some t) name =
    (λ h. ap some ((bytes_eq_iff t name).0 h), λ h. (bytes_eq_iff t name).1 (grind (arith, h)))

three_tests : (a b c : Bool) → (a && b && c ≡ true) ↔ ((a ≡ true) × ((b ≡ true) × (c ≡ true)))
three_tests true true true = (λ h. (refl, (refl, refl)), λ h. refl)
three_tests true true false = (λ h. cc, λ h. h.1.1)
three_tests true false c = (λ h. cc, λ h. h.1.0)
three_tests false b c = (λ h. cc, λ h. h.0)

pair-eq : (b : ℕ × ℕ) (m l : ℕ) → b.0 ≡ m → b.1 ≡ l → b ≡ (m, l)
pair-eq (x, y) m l h k = ap (λ z. (z, y)) h ∙ ap (λ z. (m, z)) k

-- The paths and row hashes of a leaf.
abbrev pub rows : List Entry → List (Bytes × Hash256)
rows entries = map (λ e. (e.path, e.row_hash)) entries

valid_path-contains : (path : Bytes) → valid_path path ≡ true → contains 0 path ≡ false
unfolding valid_path
valid_path-contains path h = grind (arith, h)

rows-IsPair : (before es : List Entry) → Chain GoodEntry before es → All IsPair (rows es)
rows-IsPair before [] c = tt
rows-IsPair before (e ∷ es) (g, c) =
    ((valid_path-contains e.path g.name.legal, g.hash_size), rows-IsPair (before ++ e ∷ []) es c)

module _ {E : Type 0} (get : ObjectId → E ⊎ Bytes) where
  or_corrupt-ok :
      (id : ObjectId) (d : Decoded Node) (n : Node) → or_corrupt {E = E} id d ≡ done n → d ≡ ok n
  unfolding or_corrupt
  or_corrupt-ok id (ok m) n h = grind (arith, h)
  or_corrupt-ok id (err what) n h = cc
  or_corrupt-ok id out_of_fuel n h = cc

  load-decode :
      (id : ObjectId) (n : Node)
      → load get id ≡ done n
      → (b : Bytes) × ((get id ≡ inr b) × (decode b ≡ ok n))
  unfolding load
  load-decode id n h = go (get id) refl
    where
      go : (r : E ⊎ Bytes) → get id ≡ r → (b : Bytes) × ((get id ≡ inr b) × (decode b ≡ ok n))
      go (inl x) e = absurd (let no = rw (load, e) at h in cc)
      go (inr b) e = (b, (e, or_corrupt-ok id (decode b) n (rw (load, e) at h)))

  -- A leaf that was loaded is the decoding of its object.
  typed_loader-leaf :
      (id : ObjectId) (es : List Entry)
      → typed_loader get NodeKind.leaf as_leaf id ≡ done es
      → load get id ≡ done (leaf es)
  unfolding typed_loader
  typed_loader-leaf id es h = elim (Loaded-cases (load get id)) [
    | inl (n, e) ↦ elim (Option-cases (as_leaf n)) [
      | inl f ↦ absurd (let no = rw (typed_loader, e, f) at h in cc)
      | inr (xs, f) ↦
          let same : ◌≡◌ {A = Loaded E (List Entry)} (done xs) (done es) =
            rw (typed_loader, e, f) at h in
          e ∙ ap done (leaf-as_leaf n es (f ∙ grind (arith, same)))
    ]
    | inr (inl (x, e)) ↦ absurd (let no = rw (typed_loader, e) at h in cc)
    | inr (inr e) ↦ absurd (let no = rw (typed_loader, e) at h in cc)
  ]

  leaf-typed_loader :
      (id : ObjectId) (es : List Entry) (b : Bytes)
      → get id ≡ inr b
      → decode b ≡ ok (leaf es)
      → typed_loader get NodeKind.leaf as_leaf id ≡ done es
  unfolding typed_loader load or_corrupt as_leaf
  leaf-typed_loader id es b e d = rw (typed_loader, load, e, or_corrupt, d) refl

  module _ (digest : Bytes → Hash256) where
    -- The row is of the table, and the digest of its path puts it into these buckets.
    abbrev pub InPlace : Bytes → ℕ → ℕ → Entry → Type 0
    InPlace name m l e = (table_of e.path ≡ some name) × (bucket digest e.path ≡ (m, l))

    placed-InPlace :
        (e : Entry) (name : Bytes) (m l : ℕ)
        → (placed get digest e.path name m l ≡ true) ↔ InPlace name m l e
    unfolding placed
    placed-InPlace e name m l = (
      λ h.
          let (of_table, (in_mid, in_leaf)) = (three_tests _ _ _).0 h in
          (
            (is_table_iff (table_of e.path) name).0 of_table,
            pair-eq (bucket digest e.path) m l ((==_iff _ m).0 in_mid) ((==_iff _ l).0 in_leaf),
          ),
      λ h. (three_tests _ _ _).1 (
        (is_table_iff (table_of e.path) name).1 h.0,
        ((==_iff _ m).1 (ap (λ b. b.0) h.1), (==_iff _ l).1 (ap (λ b. b.1) h.1)),
      ),
    )

    find_misplaced-InPlace :
        (es : List Entry) (name : Bytes) (m l : ℕ)
        → (find_misplaced get digest es name m l ≡ none) ↔ All (InPlace name m l) es
    unfolding find_misplaced
    find_misplaced-InPlace [] name m l = (λ h. tt, λ h. refl)
    find_misplaced-InPlace (e ∷ es) name m l =
        let here = placed-InPlace e name m l in
        let others = find_misplaced-InPlace es name m l in
        (
          λ h. elim (Bool-cases (placed get digest e.path name m l)) [
            | inl y ↦ (here.0 y, others.0 (rw y at h))
            | inr n ↦ absurd (let no = rw n at h in cc)
          ],
          λ h. rw (here.1 h.0) (others.1 h.1),
        )

    -- A leaf that is loaded decodes, has its rows in their place, and has the identity its child
    -- records.
    load_leaf_ok :
        (child : Child) (name : Bytes) (m l : ℕ) (es : List Entry)
        → load_leaf get digest child name m l ≡ done es
        → (typed_loader get NodeKind.leaf as_leaf child.id ≡ done es)
          × ((find_misplaced get digest es name m l ≡ none)
              × (leaf_node_identity digest es ≡ child.identity))
    unfolding load_leaf
    load_leaf_ok child name m l es h =
        elim (Loaded-cases (typed_loader get NodeKind.leaf as_leaf child.id)) [
          | inl (xs, e) ↦ elim (Option-cases (find_misplaced get digest xs name m l)) [
            | inr (x, f) ↦ absurd (let no = rw (load_leaf, e, f) at h in cc)
            | inl f ↦ elim (Bool-cases (bytes_eq (leaf_node_identity digest xs) child.identity)) [
              | inr g ↦ absurd (let no = rw (load_leaf, e, f, g) at h in cc)
              | inl g ↦
                  let same : ◌≡◌ {A = Loaded E (List Entry)} (done xs) (done es) =
                    rw (load_leaf, e, f, g) at h in
                  subst
                    (λ ys.
                      (typed_loader get NodeKind.leaf as_leaf child.id ≡ done ys)
                      × ((find_misplaced get digest ys name m l ≡ none)
                          × (leaf_node_identity digest ys ≡ child.identity)))
                    (grind (arith, same))
                    (e, (f, (bytes_eq_iff (leaf_node_identity digest xs) child.identity).0 g))
            ]
          ]
          | inr (inl (x, e)) ↦ absurd (let no = rw (load_leaf, e) at h in cc)
          | inr (inr e) ↦ absurd (let no = rw (load_leaf, e) at h in cc)
        ]

    -- `load_leaf` gives rows exactly when the child's object decodes to the leaf of these rows, every
    -- row is of the table and in the buckets that the leaf was asked for, and the rows have the
    -- identity that the child records.
    pub load_leaf_iff :
        (child : Child) (name : Bytes) (m l : ℕ) (es : List Entry)
        → (load_leaf get digest child name m l ≡ done es) ↔ (
            ((b : Bytes) × ((get child.id ≡ inr b) × (decode b ≡ ok (leaf es))))
            × (All (InPlace name m l) es × (leaf_node_identity digest es ≡ child.identity)))
    unfolding load_leaf
    load_leaf_iff child name m l es = (
      λ h.
          let (loads, (in_place, same)) = load_leaf_ok child name m l es h in
          (
            load-decode child.id (leaf es) (typed_loader-leaf child.id es loads),
            ((find_misplaced-InPlace es name m l).0 in_place, same),
          ),
      λ h.
          let loads = leaf-typed_loader child.id es h.0.0 h.0.1.0 h.0.1.1 in
          let in_place = (find_misplaced-InPlace es name m l).1 h.1.0 in
          let same = (bytes_eq_iff (leaf_node_identity digest es) child.identity).1 h.1.1 in
          rw (load_leaf, loads, in_place, same) refl,
    )

module _ {E : Type 0} (get : ObjectId → E ⊎ Bytes)
    (bytes_only : (id : ObjectId) (b : Bytes) → get id ≡ inr b → All IsByte b) where
  rows-loaded :
      (id : ObjectId) (es : List Entry)
      → typed_loader get NodeKind.leaf as_leaf id ≡ done es
      → All IsPair (rows es)
  rows-loaded id es h =
      let (b, (e, f)) = load-decode get id (leaf es) (typed_loader-leaf get id es h) in
      rows-IsPair [] es (((decode_iff b (leaf es) (bytes_only id b e)).0 f).0.0)

  module _ (digest : Bytes → Hash256) where
    pub load_leaf-rows :
        (child : Child) (name : Bytes) (m l : ℕ) (es : List Entry)
        → load_leaf get digest child name m l ≡ done es
        → All IsPair (rows es) × (leaf_identity digest (rows es) ≡ child.identity)
    unfolding leaf_node_identity
    load_leaf-rows child name m l es h =
        let (loads, (_, same)) = load_leaf_ok get digest child name m l es h in
        (rows-loaded child.id es loads, same)

-- What the identity of a child commits to: two leaves loaded under children of one identity, from
-- whatever stores of bytes and for whatever places, hold the same paths with the same row hashes in
-- the same order, or the digest has a collision.
pub load_leaf-commits :
    {E : Type 0} (get get' : ObjectId → E ⊎ Bytes)
    → ((id : ObjectId) (b : Bytes) → get id ≡ inr b → All IsByte b)
    → ((id : ObjectId) (b : Bytes) → get' id ≡ inr b → All IsByte b)
    → (digest : Bytes → Hash256) (child child' : Child) (name name' : Bytes) (m l m' l' : ℕ)
    → (es fs : List Entry) → child.identity ≡ child'.identity
    → load_leaf get digest child name m l ≡ done es
    → load_leaf get' digest child' name' m' l' ≡ done fs
    → (rows es ≡ rows fs) ⊎ Collision digest
load_leaf-commits get get' b b' digest child child' name name' m l m' l' es fs same h h' =
    let (pairs, e) = load_leaf-rows get b digest child name m l es h in
    let (pairs', e') = load_leaf-rows get' b' digest child' name' m' l' fs h' in
    leaf_identity-injective digest (rows es) (rows fs) pairs pairs' (e ∙ same ∙ sym e')
