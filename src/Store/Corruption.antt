-- ===== src/Store/Corruption.antt =====
-- store/error.rs: the ways recorded bytes can fail to be what the format allows, and the results
-- of the decoders.
use reldir.Base.{ℕ, List}

-- A byte string: each element is below 256 wherever a theorem says `IsByte` of them. Text is its
-- UTF-8 bytes.
abbrev pub Bytes : Type 0
Bytes = List ℕ

-- `[u8; 32]`
abbrev pub Hash256 : Type 0
Hash256 = Bytes

abbrev pub ObjectId : Type 0
ObjectId = Bytes

pub data NodeKind : Type 0 where
  leaf mid table root extras : NodeKind

-- The source names a kind of node by its text.
pub data Corruption : Type 0 where
  bad_magic : Corruption
  unsupported_version : ℕ → Corruption
  truncated : Corruption
  wrong_size : ℕ → ℕ → Corruption
  trailer_mismatch : Corruption
  pack_checksum_mismatch : Corruption
  count_mismatch : ℕ → ℕ → Corruption
  fanout_not_monotonic : ℕ → Corruption
  fanout_misplaced : ℕ → Corruption
  duplicate_id : ObjectId → Corruption
  unsorted_ids : ℕ → Corruption
  entry_out_of_bounds : ObjectId → Corruption
  entry_header_mismatch : ObjectId → Corruption
  pack_entry_mismatch : ℕ → Corruption
  unknown_object_kind : ℕ → Corruption
  hash_mismatch : ObjectId → ObjectId → Corruption
  malformed_varint : Corruption
  unknown_node_kind : ℕ → Corruption
  unexpected_node : NodeKind → NodeKind → Corruption
  empty_node : NodeKind → Corruption
  unsorted_entries : Bytes → Corruption
  invalid_utf8 : Corruption
  illegal_path : Bytes → Corruption
  half_empty_child : ℕ → Corruption
  trailing_bytes : ℕ → Corruption
  non_canonical : Corruption
  revision : Bytes → Corruption
  ref : Bytes → Corruption
  idx_without_pack unexpected_entry not_a_file not_a_directory non_empty_head : Corruption
  identity_mismatch : Hash256 → Hash256 → Corruption
  misplaced : Bytes → Corruption

-- What a decoder returns. `out_of_fuel` is no value of the program: it is the answer of a bounded
-- loop of the model whose bound was too small.
pub data Decoded {ℓ} (A : Type ℓ) : Type ℓ where
  ok : A → Decoded A
  err : Corruption → Decoded A
  out_of_fuel : Decoded A
