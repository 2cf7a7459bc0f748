-- ===== src/Store/Node/Identity/Examples.antt =====
-- Identities under the digest that keeps a text as it is, which has no collision.
use reldir.Base.{◌≡◌, ◌⊎◌, refl, List, [], ◌∷◌, Option, none, some, replicate}
use reldir.Store.Corruption.{Bytes, Hash256}
use reldir.Store.Text.{contains, bytes_eq}
use reldir.Store.Node.{is_zero}
use reldir.Store.Node.Digests.{GoodDigest}
use reldir.Store.Node.Identity.Injective.{
  Collision, leaf_identity-injective, state_identity-injective,
}

abbrev whole_text : Bytes → Hash256
whole_text text = text

abbrev one_row : List (Bytes × Hash256)
one_row = (b't' ∷ b'/' ∷ b'a' ∷ [], replicate 32 7) ∷ []

abbrev sevens : Hash256
sevens = replicate 32 7

sevens-GoodDigest : GoodDigest sevens
unfolding is_zero bytes_eq
sevens-GoodDigest = record { size = refl; nonzero = refl }

leaf_identity-injective_example : (one_row ≡ one_row) ⊎ Collision whole_text
unfolding contains
leaf_identity-injective_example =
    leaf_identity-injective whole_text one_row one_row ((refl, refl), tt) ((refl, refl), tt) refl

state_identity-injective_example :
    ((some sevens ≡ some sevens) × ((◌≡◌ {A = Option Hash256} none none) × (one_row ≡ one_row)))
    ⊎ Collision whole_text
unfolding contains
state_identity-injective_example =
    state_identity-injective whole_text (some sevens) (some sevens) none none one_row one_row
      (sevens-GoodDigest, (sevens-GoodDigest, (tt, tt))) ((refl, refl), tt) ((refl, refl), tt) refl
