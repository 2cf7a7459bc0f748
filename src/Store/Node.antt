-- ===== src/Store/Node.antt =====
-- store/node.rs: the nodes of a state's Merkle tree, their one encoding each, and their identities.
pub mod Collect
pub mod Names
pub mod Digests
pub mod Slots
pub mod Items
pub mod WellFormed
pub mod Encoding
pub mod Kinds
pub mod Decoding
pub mod Endings
pub mod Total
pub mod Identity
mod Examples
use reldir.Base.{
  ℕ, zero, suc, ◌+◌, ◌/◌, ◌%◌, ◌*◌, Bool, true, false, not, ◌&&◌, ◌||◌, List, [], ◌∷◌, ◌++◌, Option,
  none, some, ◌==◌, if◌then◌else◌, length, replicate, get_or,
}
use reldir.Store.Corruption.{
  Bytes, Hash256, ObjectId, NodeKind, Corruption, bad_magic, unsorted_entries, empty_node,
  half_empty_child, unknown_node_kind, invalid_utf8, illegal_path, Decoded, ok, err, out_of_fuel,
}
use reldir.Store.Codec.{
  Cursor, Reader, pure, fail, ◌>>=◌, new, put_varint, is_empty, u8, array, length_prefixed, finish,
}
use reldir.Store.Text.{bytes_eq, bytes_lt, is_utf8, valid_path, valid_table_name, table_of}

-- `\0RDN3`
abbrev pub magic : Bytes
magic = 0 ∷ b'R' ∷ b'D' ∷ b'N' ∷ b'3' ∷ []

abbrev pub fanout : ℕ
fanout = 64

abbrev pub kind_byte : NodeKind → ℕ
kind_byte NodeKind.leaf = b'L'
kind_byte NodeKind.mid = b'M'
kind_byte NodeKind.table = b'T'
kind_byte NodeKind.root = b'R'
kind_byte NodeKind.extras = b'X'

pub record Entry : Type 0 where
  pub path : Bytes
  pub row_hash : Hash256
  pub blob : ObjectId

pub record Child : Type 0 where
  pub id : ObjectId
  pub identity : Hash256

-- `[Option<Child>; FANOUT]`
abbrev pub Children : Type 0
Children = List (Option Child)

pub record TableRef : Type 0 where
  pub name : Bytes
  pub id : ObjectId
  pub identity : Hash256

pub record Extra : Type 0 where
  pub path : Bytes
  pub blob : ObjectId

pub record TableNode : Type 0 where
  pub schema : Option Hash256
  pub mids : Children

pub record Root : Type 0 where
  pub format : Option Hash256
  pub config : Option Hash256
  pub extras : Option ObjectId
  pub tables : List TableRef

pub data Node : Type 0 where
  leaf : List Entry → Node
  mid : Children → Node
  table : TableNode → Node
  root : Root → Node
  extras : List Extra → Node

abbrev pub zero_digest : Bytes
zero_digest = replicate 32 0

unfoldable pub is_zero : Bytes → Bool
is_zero h = bytes_eq h zero_digest

unfoldable pub header : NodeKind → Bytes
header kind = magic ++ kind_byte kind ∷ []

unfoldable pub put_str : Bytes → Bytes → Bytes
put_str out text = put_varint out (length text) ++ text

unfoldable pub child_bytes : Option Child → Bytes
child_bytes (some child) = child.id ++ child.identity
child_bytes none = replicate 64 0

unfoldable pub put_children : Bytes → Children → Bytes
put_children out [] = out
put_children out (child ∷ children) = put_children (out ++ child_bytes child) children

unfoldable pub opt_hash : Option Hash256 → Bytes
opt_hash none = zero_digest
opt_hash (some h) = h

-- The loops of the three encoders over their entries.
unfoldable pub put_entries : Bytes → List Entry → Bytes
put_entries out [] = out
put_entries out (e ∷ es) = put_entries ((put_str out e.path ++ e.row_hash) ++ e.blob) es

unfoldable pub put_tables : Bytes → List TableRef → Bytes
put_tables out [] = out
put_tables out (t ∷ ts) = put_tables ((put_str out t.name ++ t.id) ++ t.identity) ts

unfoldable pub put_extras : Bytes → List Extra → Bytes
put_extras out [] = out
put_extras out (x ∷ xs) = put_extras (put_str out x.path ++ x.blob) xs

unfoldable pub encode : Node → Bytes
encode (leaf entries) = put_entries (header NodeKind.leaf) entries
encode (mid children) = put_children (header NodeKind.mid) children
encode (table t) = put_children (header NodeKind.table ++ opt_hash t.schema) t.mids
encode (root r) =
    put_tables
      (((header NodeKind.root ++ opt_hash r.format) ++ opt_hash r.config) ++ opt_hash r.extras)
      r.tables
encode (extras entries) = put_extras (header NodeKind.extras) entries

unfoldable pub decode_path : (Bytes → Bool) → Reader Bytes
decode_path valid = do
  bytes ← length_prefixed
  if not (is_utf8 bytes)
      then fail invalid_utf8
      else if not (valid bytes)
      then fail (illegal_path bytes)
      else pure bytes

-- `(!hash.is_zero()).then_some(hash)`
unfoldable pub some_unless_zero : Bytes → Option Bytes
some_unless_zero h = if is_zero h then none else some h

unfoldable pub decode_opt_hash : Reader (Option Hash256)
decode_opt_hash = do hash ← array 32; pure (some_unless_zero hash)

unfoldable pub decode_child : ℕ → Reader (Option Child)
decode_child index = do
  id ← array 32
  identity ← array 32
  if is_zero id && is_zero identity
      then pure none
      else if is_zero id || is_zero identity
      then fail (half_empty_child index)
      else pure (some (record { id = id; identity = identity }))

-- The loop over the slots: `slots` are left, and `index` are filled.
unfoldable pub decode_slots : ℕ → ℕ → Reader Children
decode_slots zero index = pure []
decode_slots (suc slots) index = do
  child ← decode_child index
  children ← decode_slots slots (index + 1)
  pure (child ∷ children)

unfoldable pub decode_children : Reader Children
decode_children = decode_slots fanout 0

-- `entries.last().is_some_and(|last| last.path >= path)`
module _ {A : Type 0} (name : A → Bytes) where
  unfoldable pub out_of_order : List A → Bytes → Bool
  out_of_order [] path = false
  out_of_order (a ∷ []) path = not (bytes_lt (name a) path)
  out_of_order (a ∷ b ∷ rest) path = out_of_order (b ∷ rest) path

-- `while !cursor.is_empty() { entries.push(item) }`, the body of each decoder being its `item`.
module _ {A : Type 0} (item : List A → Reader A) where
  unfoldable pub collect : ℕ → List A → Reader (List A)
  collect zero entries c = if is_empty c then ok (entries, c) else out_of_fuel
  collect (suc fuel) entries c =
      let more = (item entries >>= λ a. collect fuel (entries ++ a ∷ [])) c in
      if is_empty c then ok (entries, c) else more

unfoldable pub decode_entry : List Entry → Reader Entry
decode_entry entries = do
  path ← decode_path valid_path
  if out_of_order (λ e. e.path) entries path then fail (unsorted_entries path) else do
    row_hash ← array 32
    blob ← array 32
    pure (record { path = path; row_hash = row_hash; blob = blob })

unfoldable pub decode_table_ref : List TableRef → Reader TableRef
decode_table_ref tables = do
  name ← decode_path valid_table_name
  if out_of_order (λ t. t.name) tables name then fail (unsorted_entries name) else do
    id ← array 32
    identity ← array 32
    if is_zero id || is_zero identity
        then fail (half_empty_child (length tables))
        else pure (record { name = name; id = id; identity = identity })

unfoldable pub decode_extra : List Extra → Reader Extra
decode_extra entries = do
  path ← decode_path valid_path
  if out_of_order (λ x. x.path) entries path
      then fail (unsorted_entries path)
      else do blob ← array 32; pure (record { path = path; blob = blob })

unfoldable pub decode_leaf : ℕ → Reader Node
decode_leaf fuel = do
  entries ← collect decode_entry fuel []
  if length entries == 0 then fail (empty_node NodeKind.leaf) else pure (leaf entries)

unfoldable pub all_none : Children → Bool
all_none [] = true
all_none (none ∷ children) = all_none children
all_none (some child ∷ children) = false

unfoldable pub decode_mid : Reader Node
decode_mid = do
  children ← decode_children
  if all_none children then fail (empty_node NodeKind.mid) else pure (mid children)

unfoldable pub decode_table : Reader Node
decode_table = do
  schema ← decode_opt_hash
  mids ← decode_children
  pure (table (record { schema = schema; mids = mids }))

unfoldable pub decode_root : ℕ → Reader Node
decode_root fuel = do
  format ← decode_opt_hash
  config ← decode_opt_hash
  kept ← array 32
  tables ← collect decode_table_ref fuel []
  pure (
      root (record {
        format = format;
        config = config;
        extras = some_unless_zero kept;
        tables = tables;
      }))

unfoldable pub decode_extras : ℕ → Reader Node
decode_extras fuel = do
  entries ← collect decode_extra fuel []
  if length entries == 0 then fail (empty_node NodeKind.extras) else pure (extras entries)

unfoldable pub decode_kind : ℕ → ℕ → Reader Node
decode_kind fuel kind =
    if kind == b'L'
    then decode_leaf fuel
    else if kind == b'M'
    then decode_mid
    else if kind == b'T'
    then decode_table
    else if kind == b'R'
    then decode_root fuel
    else if kind == b'X'
    then decode_extras fuel
    else fail (unknown_node_kind kind)

-- `cursor.array::<5>().map_err(|_| Corruption::BadMagic)`
unfoldable pub read_magic : Reader Bytes
read_magic c = elim (array 5 c) [ ok r ↦ ok r | err _ ↦ err bad_magic | out_of_fuel ↦ out_of_fuel ]

unfoldable pub decode_with : ℕ → Reader Node
decode_with fuel = do
  found ← read_magic
  if not (bytes_eq found magic)
      then fail bad_magic
      else do kind ← u8; node ← decode_kind fuel kind; _ ← finish; pure node

-- Each round of a loop takes a byte at least, so `length bytes` rounds are enough.
unfoldable pub decode : Bytes → Decoded Node
decode bytes = elim (decode_with (length bytes) (new bytes)) [
  | ok (node, c) ↦ ok node
  | err e ↦ err e
  | out_of_fuel ↦ out_of_fuel
]
