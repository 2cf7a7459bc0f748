-- ===== src/Store/Node/Identity.antt =====
-- What a node or a state is identified by (store/node.rs): digests of what it holds, whatever the
-- objects that hold it. `Sha256` is a parameter.
pub mod Injective
mod Examples
use Prim.Native.Nat.{bit_or, bit_and}
use reldir.Base.{
  ℕ, ◌*◌, ◌/◌, ◌^◌, ◌-◌, List, [], ◌∷◌, ◌++◌, map, Option, none, some, get_or, replicate,
}
use reldir.Store.Corruption.{Bytes, Hash256}
use reldir.Store.Node.{
  Entry, Child, Children, TableRef, TableNode, Root, zero_digest, opt_hash, fanout,
}

-- `reldir-leaf-v3\0`
abbrev pub leaf_domain : Bytes
leaf_domain =
    b'r' ∷ b'e' ∷ b'l' ∷ b'd' ∷ b'i' ∷ b'r' ∷ b'-' ∷ b'l' ∷ b'e' ∷ b'a' ∷ b'f' ∷ b'-' ∷ b'v' ∷ b'3'
    ∷ 0 ∷ []

-- `reldir-mid-v3\0`
abbrev pub mid_domain : Bytes
mid_domain =
    b'r' ∷ b'e' ∷ b'l' ∷ b'd' ∷ b'i' ∷ b'r' ∷ b'-' ∷ b'm' ∷ b'i' ∷ b'd' ∷ b'-' ∷ b'v' ∷ b'3' ∷ 0
    ∷ []

-- `reldir-table-v3\0`
abbrev pub table_domain : Bytes
table_domain =
    b'r' ∷ b'e' ∷ b'l' ∷ b'd' ∷ b'i' ∷ b'r' ∷ b'-' ∷ b't' ∷ b'a' ∷ b'b' ∷ b'l' ∷ b'e' ∷ b'-' ∷ b'v'
    ∷ b'3' ∷ 0 ∷ []

-- `reldir-state-v3\0`
abbrev pub state_domain : Bytes
state_domain =
    b'r' ∷ b'e' ∷ b'l' ∷ b'd' ∷ b'i' ∷ b'r' ∷ b'-' ∷ b's' ∷ b't' ∷ b'a' ∷ b't' ∷ b'e' ∷ b'-' ∷ b'v'
    ∷ b'3' ∷ 0 ∷ []

-- What the loops over paths or names feed the hasher.
unfoldable pub feed_pairs : List (Bytes × Hash256) → Bytes
feed_pairs [] = []
feed_pairs ((name, hash) ∷ pairs) = name ++ 0 ∷ (hash ++ feed_pairs pairs)

unfoldable pub children_identities : Children → Bytes
children_identities [] = []
children_identities (none ∷ children) = zero_digest ++ children_identities children
children_identities (some child ∷ children) = child.identity ++ children_identities children

unfoldable pub state_message : Option Hash256 → Option Hash256 → List (Bytes × Hash256) → Bytes
state_message format config tables =
    state_domain ++ (opt_hash format ++ (opt_hash config ++ feed_pairs tables))

unfoldable pub table_message : TableNode → Bytes
table_message t = table_domain ++ (opt_hash t.schema ++ children_identities t.mids)

module _ (digest : Bytes → Hash256) where
  unfoldable pub leaf_identity : List (Bytes × Hash256) → Hash256
  leaf_identity entries = digest (leaf_domain ++ feed_pairs entries)

  unfoldable pub leaf_node_identity : List Entry → Hash256
  leaf_node_identity entries = leaf_identity (map (λ e. (e.path, e.row_hash)) entries)

  unfoldable pub mid_identity : Children → Hash256
  mid_identity children = digest (mid_domain ++ children_identities children)

  unfoldable pub table_identity : TableNode → Hash256
  table_identity t = digest (table_message t)

  unfoldable pub empty_table_identity : Option Hash256 → Hash256
  empty_table_identity schema =
      table_identity (record { schema = schema; mids = replicate fanout none })

  unfoldable pub state_identity : Option Hash256 → Option Hash256 → List (Bytes × Hash256) → Hash256
  state_identity format config tables = digest (state_message format config tables)

  unfoldable pub root_identity : Root → Hash256
  root_identity r = state_identity r.format r.config (map (λ t. (t.name, t.identity)) r.tables)

  -- The (mid, leaf) of a path's row: twelve bits of its digest.
  unfoldable pub bucket : Bytes → ℕ × ℕ
  bucket path =
      let bits = bit_or (get_or (digest path) 0 0 * 2 ^ 4) (get_or (digest path) 1 0 / 2 ^ 4) in
      (bits / 2 ^ 6, bit_and bits (fanout - 1))
