-- ===== src/Store/Loader/Examples.antt =====
-- A leaf of one row, loaded under the child that records its identity.
use reldir.Base.{◌≡◌, ◌⊎◌, ◌↔◌, refl, subst, All, arith, inr, [], ◌∷◌, ◌++◌, replicate}
use reldir.Store.Corruption.{Bytes, Hash256, ObjectId, NodeKind, Corruption, ok}
use reldir.Store.Codec.{put_varint}
use reldir.Store.Codec.Spelling.{IsByte}
use reldir.Store.Text.{
  bytes_eq, is_utf8, valid_path, table_of, split_once, is_empty_text, contains, split, all_plain,
  plain_component,
}
use reldir.Store.Node.{
  Entry, Child, leaf, encode, decode, put_entries, put_str, header, out_of_order,
}
use reldir.Store.Node.Decoding.{decode_iff}
use reldir.Store.Node.WellFormed.{IsWellFormed}
use reldir.Store.Node.Identity.{leaf_node_identity, leaf_identity, feed_pairs, leaf_domain, bucket}
use reldir.Store.Node.Identity.Injective.{Collision}
use reldir.Store.Loader.{
  done, load, or_corrupt, typed_loader, as_leaf, placed, is_table, find_misplaced, load_leaf,
}
use reldir.Store.Loader.Leaves.{rows, InPlace, load_leaf_iff, load_leaf-commits}

abbrev the_entry : Entry
the_entry = record {
  path = b't' ∷ b'/' ∷ b'a' ∷ [];
  row_hash = replicate 32 7;
  blob = replicate 32 9;
}

abbrev the_bytes : Bytes
the_bytes =
    0
    ∷ b'R'
    ∷ b'D'
    ∷ b'N'
    ∷ b'3'
    ∷ b'L'
    ∷ 3
    ∷ b't'
    ∷ b'/'
    ∷ b'a'
    ∷ (replicate 32 7 ++ replicate 32 9)

-- A store that holds this object under every id, and the digest that keeps a text as it is.
abbrev the_store : ObjectId → Corruption ⊎ Bytes
the_store id = inr the_bytes

abbrev the_digest : Bytes → Hash256
the_digest text = text

abbrev the_child : Child
the_child = record {
  id = replicate 32 1;
  identity = leaf_domain ++ (b't' ∷ b'/' ∷ b'a' ∷ 0 ∷ replicate 32 7);
}

the_leaf-IsWellFormed : IsWellFormed (leaf (the_entry ∷ []))
unfolding is_utf8 valid_path contains split all_plain plain_component is_empty_text out_of_order
the_leaf-IsWellFormed = (
  (
    record {
      name = record { short = omega arith; utf8 = refl; legal = refl };
      order = refl;
      hash_size = refl;
      blob_size = refl;
    },
    tt,
  ),
  refl,
)

the_store-IsByte : (id : ObjectId) (b : Bytes) → the_store id ≡ inr b → All IsByte b
the_store-IsByte id b e =
    let same : ◌≡◌ {A = Corruption ⊎ Bytes} (inr the_bytes) (inr b) = e in
    let held : the_bytes ≡ b = grind (arith, same) in subst (All IsByte) held (omega arith)

decode-the_bytes : decode the_bytes ≡ ok (leaf (the_entry ∷ []))
unfolding encode put_entries put_str header put_varint
decode-the_bytes =
    (decode_iff the_bytes (leaf (the_entry ∷ [])) (omega arith)).1 (the_leaf-IsWellFormed, refl)

loads_node : load the_store the_child.id ≡ done (leaf (the_entry ∷ []))
unfolding load or_corrupt
loads_node = rw (or_corrupt, decode-the_bytes) refl

loads_leaf : typed_loader the_store NodeKind.leaf as_leaf the_child.id ≡ done (the_entry ∷ [])
unfolding typed_loader as_leaf
loads_leaf = rw (typed_loader, loads_node) refl

loads : load_leaf the_store the_digest the_child (b't' ∷ []) 29 2 ≡ done (the_entry ∷ [])
unfolding load_leaf find_misplaced placed is_table bucket table_of split_once is_empty_text bytes_eq
    leaf_node_identity leaf_identity feed_pairs
loads = rw (load_leaf, loads_leaf) refl

load_leaf-commits_example : (rows (the_entry ∷ []) ≡ rows (the_entry ∷ [])) ⊎ Collision the_digest
load_leaf-commits_example =
    load_leaf-commits the_store the_store the_store-IsByte the_store-IsByte the_digest the_child
      the_child (b't' ∷ []) (b't' ∷ []) 29 2 29 2 (the_entry ∷ []) (the_entry ∷ []) refl loads loads

load_leaf_iff_example :
    (load_leaf the_store the_digest the_child (b't' ∷ []) 29 2 ≡ done (the_entry ∷ [])) ↔ (
      ((b : Bytes) × ((the_store the_child.id ≡ inr b) × (decode b ≡ ok (leaf (the_entry ∷ [])))))
      × (All (InPlace the_store the_digest (b't' ∷ []) 29 2) (the_entry ∷ [])
          × (leaf_node_identity the_digest (the_entry ∷ []) ≡ the_child.identity)))
load_leaf_iff_example =
    load_leaf_iff the_store the_digest the_child (b't' ∷ []) 29 2 (the_entry ∷ [])
