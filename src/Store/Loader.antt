-- ===== src/Store/Loader.antt =====
-- The loaders of store/node.rs: a node is read, decoded, and proven against its parent. `Store::get`,
-- with the errors it fails with, and SHA-256 are parameters.
pub mod Leaves
mod Examples
use reldir.Base.{
  ℕ, ◌⊎◌, inl, inr, Bool, true, false, ◌&&◌, ◌==◌, List, [], ◌∷◌, Option, none, some, map,
  if◌then◌else◌,
}
use reldir.Store.Corruption.{
  Bytes, Hash256, ObjectId, NodeKind, Corruption, unexpected_node, identity_mismatch, misplaced,
  Decoded, ok, err, out_of_fuel,
}
use reldir.Store.Text.{bytes_eq, table_of}
use reldir.Store.Node.{
  Entry, Child, Children, TableRef, TableNode, Root, Extra, Node, leaf, mid, table, root, extras,
  decode,
}
use reldir.Store.Node.Identity.{leaf_node_identity, mid_identity, table_identity, bucket}

-- `StoreError`: what `Store::get` fails with, or a corrupt object.
pub data LoadError (E : Type 0) : Type 0 where
  unread : E → LoadError E
  corrupt_object : ObjectId → Corruption → LoadError E

-- `diverged` where the fuel of `decode` runs out.
pub data Loaded (E A : Type 0) : Type 0 where
  done : A → Loaded E A
  failed : LoadError E → Loaded E A
  diverged : Loaded E A

-- `Node::kind_name`
unfoldable pub kind_name : Node → NodeKind
kind_name (leaf _) = NodeKind.leaf
kind_name (mid _) = NodeKind.mid
kind_name (table _) = NodeKind.table
kind_name (root _) = NodeKind.root
kind_name (extras _) = NodeKind.extras

unfoldable pub as_leaf : Node → Option (List Entry)
as_leaf (leaf entries) = some entries
as_leaf _ = none

unfoldable pub as_mid : Node → Option Children
as_mid (mid children) = some children
as_mid _ = none

unfoldable pub as_table : Node → Option TableNode
as_table (table t) = some t
as_table _ = none

unfoldable pub as_root : Node → Option Root
as_root (root r) = some r
as_root _ = none

unfoldable pub as_extras : Node → Option (List Extra)
as_extras (extras xs) = some xs
as_extras _ = none

-- `==` of `Option<&str>`
unfoldable pub is_table : Option Bytes → Bytes → Bool
is_table none name = false
is_table (some t) name = bytes_eq t name

-- `map_err(|what| StoreError::CorruptObject { id, what })`
unfoldable pub or_corrupt : {E : Type 0} → ObjectId → Decoded Node → Loaded E Node
or_corrupt id (ok node) = done node
or_corrupt id (err what) = failed (corrupt_object id what)
or_corrupt id out_of_fuel = diverged

module _ {E : Type 0} (get : ObjectId → E ⊎ Bytes) where
  unfoldable pub load : ObjectId → Loaded E Node
  load id = elim (get id) [ inl e ↦ failed (unread e) | inr bytes ↦ or_corrupt id (decode bytes) ]

  -- `typed_loader!`
  unfoldable pub typed_loader : {A : Type 0} → NodeKind → (Node → Option A) → ObjectId → Loaded E A
  typed_loader expected variant id = elim (load id) [
    | failed e ↦ failed e
    | diverged ↦ diverged
    | done node ↦ elim (variant node) [
      | some inner ↦ done inner
      | none ↦ failed (corrupt_object id (unexpected_node expected (kind_name node)))
    ]
  ]

  unfoldable pub load_root : ObjectId → Loaded E Root
  load_root = typed_loader NodeKind.root as_root

  unfoldable pub load_extras : ObjectId → Loaded E (List Extra)
  load_extras = typed_loader NodeKind.extras as_extras

  module _ (digest : Bytes → Hash256) where
    unfoldable pub load_table : TableRef → Loaded E TableNode
    load_table t = elim (typed_loader NodeKind.table as_table t.id) [
      | failed e ↦ failed e
      | diverged ↦ diverged
      | done node ↦
          if bytes_eq (table_identity digest node) t.identity
          then done node
          else failed
              (corrupt_object t.id (identity_mismatch t.identity (table_identity digest node)))
    ]

    unfoldable pub load_mid : Child → Loaded E Children
    load_mid child = elim (typed_loader NodeKind.mid as_mid child.id) [
      | failed e ↦ failed e
      | diverged ↦ diverged
      | done node ↦
          if bytes_eq (mid_identity digest node) child.identity
          then done node
          else failed (
              corrupt_object child.id (identity_mismatch child.identity (mid_identity digest node)))
    ]

    unfoldable pub placed : Bytes → Bytes → ℕ → ℕ → Bool
    placed path name at_mid at_leaf =
        let (in_mid, in_leaf) = bucket digest path in
        is_table (table_of path) name && in_mid == at_mid && in_leaf == at_leaf

    -- `find(|e| !placed(…))`
    unfoldable pub find_misplaced : List Entry → Bytes → ℕ → ℕ → Option Entry
    find_misplaced [] name at_mid at_leaf = none
    find_misplaced (e ∷ entries) name at_mid at_leaf =
        let rest = find_misplaced entries name at_mid at_leaf in
        if placed e.path name at_mid at_leaf then rest else some e

    unfoldable pub load_leaf : Child → Bytes → ℕ → ℕ → Loaded E (List Entry)
    load_leaf child name at_mid at_leaf = elim (typed_loader NodeKind.leaf as_leaf child.id) [
      | failed e ↦ failed e
      | diverged ↦ diverged
      | done node ↦ elim (find_misplaced node name at_mid at_leaf) [
        | some entry ↦ failed (corrupt_object child.id (misplaced entry.path))
        | none ↦
            if bytes_eq (leaf_node_identity digest node) child.identity
            then done node
            else failed (
                corrupt_object child.id
                  (identity_mismatch child.identity (leaf_node_identity digest node)))
      ]
    ]
