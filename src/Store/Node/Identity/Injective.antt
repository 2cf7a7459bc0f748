-- ===== src/Store/Node/Identity/Injective.antt =====
-- The messages that identities digest (store/node.rs), and what they tell apart.
use reldir.Base.{
  ◌≡◌, ◌≢◌, ◌⊎◌, refl, sym, ap, ◌∙◌, arith, inl, inr, All, false, List, [], ◌∷◌, ◌++◌, Option,
  length, take-append, drop-append, Bool-cases,
}
use reldir.Store.Corruption.{Bytes, Hash256}
use reldir.Store.Text.{bytes_eq, bytes_eq_iff, contains}
use reldir.Store.Node.{opt_hash, some_unless_zero}
use reldir.Store.Node.Digests.{GoodOption, length-opt_hash, some_unless_zero-opt_hash}
use reldir.Store.Node.Identity.{
  leaf_domain, state_domain, feed_pairs, leaf_identity, state_message, state_identity,
}

-- A name without a NUL, and a digest of 32 bytes.
abbrev pub IsPair : Bytes × Hash256 → Type 0
IsPair (name, hash) = (contains 0 name ≡ false) × (length hash ≡ 32)

-- Two parts of one length are read off the front.
append-cancel :
    (xs ys rest more : Bytes)
    → length xs ≡ length ys
    → xs ++ rest ≡ ys ++ more
    → (xs ≡ ys) × (rest ≡ more)
append-cancel xs ys rest more h e = (
  sym (take-append xs rest) ∙ rw (h, e) refl ∙ take-append ys more,
  sym (drop-append xs rest) ∙ rw (h, e) refl ∙ drop-append ys more,
)

-- A name ends at its first NUL.
name-cancel :
    (xs ys rest more : Bytes)
    → contains 0 xs ≡ false
    → contains 0 ys ≡ false
    → xs ++ 0 ∷ rest ≡ ys ++ 0 ∷ more
    → (xs ≡ ys) × (rest ≡ more)
unfolding contains
name-cancel [] [] rest more h k e = grind (arith, e)
name-cancel [] (y ∷ ys) rest more h k e = absurd (grind (arith, e, k))
name-cancel (x ∷ xs) [] rest more h k e = absurd (grind (arith, e, h))
name-cancel (x ∷ xs) (y ∷ ys) rest more h k e =
    let (f, g) =
      name-cancel xs ys rest more (grind (arith, h)) (grind (arith, k)) (grind (arith, e)) in
    (grind (arith, e, f), g)

pairs_ne : (n rest : Bytes) → n ++ 0 ∷ rest ≢ []
pairs_ne [] rest e = cc
pairs_ne (x ∷ xs) rest e = cc

pub feed_pairs-injective :
    (ps qs : List (Bytes × Hash256))
    → All IsPair ps
    → All IsPair qs
    → feed_pairs ps ≡ feed_pairs qs
    → ps ≡ qs
unfolding feed_pairs
feed_pairs-injective [] [] a b e = refl
feed_pairs-injective [] ((n, h) ∷ qs) a b e = absurd (pairs_ne n (h ++ feed_pairs qs) (sym e))
feed_pairs-injective ((n, h) ∷ ps) [] a b e = absurd (pairs_ne n (h ++ feed_pairs ps) e)
feed_pairs-injective ((n, h) ∷ ps) ((m, k) ∷ qs) ((i, j), a) ((i', j'), b) e =
    let (f, g) = name-cancel n m (h ++ feed_pairs ps) (k ++ feed_pairs qs) i i' e in
    let (f', g') = append-cancel h k (feed_pairs ps) (feed_pairs qs) (j ∙ sym j') g in
    let rest : ps ≡ qs = feed_pairs-injective ps qs a b g' in grind (arith, f, f', rest)

-- Two texts that a digest does not tell apart.
abbrev pub Collision : (Bytes → Hash256) → Type 0
Collision digest = (x : Bytes) × ((y : Bytes) × ((x ≢ y) × (digest x ≡ digest y)))

eq_or_Collision :
    (digest : Bytes → Hash256) (x y : Bytes) → digest x ≡ digest y → (x ≡ y) ⊎ Collision digest
eq_or_Collision digest x y e = elim (Bool-cases (bytes_eq x y)) [
  | inl t ↦ inl ((bytes_eq_iff x y).0 t)
  | inr f ↦ inr (x, (y, ((λ p. grind (arith, f, (bytes_eq_iff x y).1 p)), e)))
]

-- Leaves of one identity hold the same paths with the same row hashes, in the same order, or the
-- digest has a collision: for paths without a NUL and hashes of 32 bytes.
pub leaf_identity-injective :
    (digest : Bytes → Hash256) (ps qs : List (Bytes × Hash256))
    → All IsPair ps
    → All IsPair qs
    → leaf_identity digest ps ≡ leaf_identity digest qs
    → (ps ≡ qs) ⊎ Collision digest
unfolding leaf_identity
leaf_identity-injective digest ps qs a b e =
    elim (eq_or_Collision digest (leaf_domain ++ feed_pairs ps) (leaf_domain ++ feed_pairs qs) e) [
      | inl s ↦ inl (
          feed_pairs-injective ps qs a b
            ((append-cancel leaf_domain leaf_domain (feed_pairs ps) (feed_pairs qs) refl s).1))
      | inr c ↦ inr c
    ]

opt_hash-injective :
    (a b : Option Hash256) → GoodOption a → GoodOption b → opt_hash a ≡ opt_hash b → a ≡ b
opt_hash-injective a b g h e =
    sym (some_unless_zero-opt_hash a g) ∙ ap some_unless_zero e ∙ some_unless_zero-opt_hash b h

state_message-injective :
    (f g c d : Option Hash256) (ps qs : List (Bytes × Hash256))
    → GoodOption f × (GoodOption g × (GoodOption c × GoodOption d))
    → All IsPair ps
    → All IsPair qs
    → state_message f c ps ≡ state_message g d qs
    → (f ≡ g) × ((c ≡ d) × (ps ≡ qs))
unfolding state_message
state_message-injective f g c d ps qs (gf, (gg, (gc, gd))) a b e =
    let tail =
      (append-cancel state_domain state_domain (opt_hash f ++ (opt_hash c ++ feed_pairs ps))
        (opt_hash g ++ (opt_hash d ++ feed_pairs qs)) refl e).1 in
    let (ef, e') =
      append-cancel (opt_hash f) (opt_hash g) (opt_hash c ++ feed_pairs ps)
        (opt_hash d ++ feed_pairs qs) (length-opt_hash f gf ∙ sym (length-opt_hash g gg)) tail in
    let (ec, e'') =
      append-cancel (opt_hash c) (opt_hash d) (feed_pairs ps) (feed_pairs qs)
        (length-opt_hash c gc ∙ sym (length-opt_hash d gd)) e' in
    (
      opt_hash-injective f g gf gg ef,
      (opt_hash-injective c d gc gd ec, feed_pairs-injective ps qs a b e''),
    )

-- States of one identity have the same format, the same config and the same tables with the same
-- identities, in the same order, or the digest has a collision: for names without a NUL and digests
-- of 32 bytes, the optional ones not all zero.
pub state_identity-injective :
    (digest : Bytes → Hash256) (f g c d : Option Hash256) (ps qs : List (Bytes × Hash256))
    → GoodOption f × (GoodOption g × (GoodOption c × GoodOption d))
    → All IsPair ps
    → All IsPair qs
    → state_identity digest f c ps ≡ state_identity digest g d qs
    → ((f ≡ g) × ((c ≡ d) × (ps ≡ qs))) ⊎ Collision digest
unfolding state_identity
state_identity-injective digest f g c d ps qs (gf, (gg, (gc, gd))) a b e =
    elim (eq_or_Collision digest (state_message f c ps) (state_message g d qs) e) [
      | inr k ↦ inr k
      | inl s ↦ inl (state_message-injective f g c d ps qs (gf, (gg, (gc, gd))) a b s)
    ]
