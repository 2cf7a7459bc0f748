-- ===== src/Store/Node/WellFormed.antt =====
-- The nodes that have an encoding, and its parts.
use reldir.Base.{◌≡◌, sym, ◌∙◌, false, List, [], ◌∷◌, ◌++◌, length, ◌==◌}
use mathlib.Core.List.{append_assoc, append-nil}
use reldir.Store.Corruption.{Bytes, NodeKind}
use reldir.Store.Node.{
  Entry, TableRef, Extra, Node, leaf, mid, table, root, extras, fanout, header, opt_hash,
  child_bytes, all_none, encode, put_entries, put_tables, put_extras,
}
use reldir.Store.Node.Collect.{joined, Chain}
use reldir.Store.Node.Names.{put_str-append}
use reldir.Store.Node.Digests.{GoodOption}
use reldir.Store.Node.Slots.{GoodSlots, put_children-joined}
use reldir.Store.Node.Items.{entry_bytes, GoodEntry, table_bytes, GoodTable, extra_bytes, GoodExtra}

-- What the format allows: entries with legal names in strictly ascending order, digests of 32
-- bytes, 64 slots, no child or table half empty, no leaf, mid or extras with nothing in it.
abbrev pub IsWellFormed : Node → Type 0
IsWellFormed (leaf es) = Chain GoodEntry [] es × ((length es == 0) ≡ false)
IsWellFormed (mid os) = (length os ≡ fanout) × GoodSlots os × (all_none os ≡ false)
IsWellFormed (table t) = GoodOption t.schema × (length t.mids ≡ fanout) × GoodSlots t.mids
IsWellFormed (root r) =
    GoodOption r.format × GoodOption r.config × GoodOption r.extras × Chain GoodTable [] r.tables
IsWellFormed (extras xs) = Chain GoodExtra [] xs × ((length xs == 0) ≡ false)

abbrev pub kind_of : Node → NodeKind
kind_of (leaf es) = NodeKind.leaf
kind_of (mid os) = NodeKind.mid
kind_of (table t) = NodeKind.table
kind_of (root r) = NodeKind.root
kind_of (extras xs) = NodeKind.extras

-- What follows the kind byte.
abbrev pub payload : Node → Bytes
payload (leaf es) = joined entry_bytes es
payload (mid os) = joined child_bytes os
payload (table t) = opt_hash t.schema ++ joined child_bytes t.mids
payload (root r) =
    opt_hash r.format ++ (opt_hash r.config ++ (opt_hash r.extras ++ joined table_bytes r.tables))
payload (extras xs) = joined extra_bytes xs

put_entries-joined :
    (es before : List Entry) (out : Bytes)
    → Chain GoodEntry before es
    → put_entries out es ≡ out ++ joined entry_bytes es
unfolding put_entries
put_entries-joined [] before out g = sym (append-nil out)
put_entries-joined (e ∷ es) before out g =
    put_entries-joined es (before ++ e ∷ []) _ g.1
    ∙ rw (put_str-append out e.path g.0.name.short) (simp append_assoc)

put_tables-joined :
    (ts before : List TableRef) (out : Bytes)
    → Chain GoodTable before ts
    → put_tables out ts ≡ out ++ joined table_bytes ts
unfolding put_tables
put_tables-joined [] before out g = sym (append-nil out)
put_tables-joined (t ∷ ts) before out g =
    put_tables-joined ts (before ++ t ∷ []) _ g.1
    ∙ rw (put_str-append out t.name g.0.name.short) (simp append_assoc)

put_extras-joined :
    (xs before : List Extra) (out : Bytes)
    → Chain GoodExtra before xs
    → put_extras out xs ≡ out ++ joined extra_bytes xs
unfolding put_extras
put_extras-joined [] before out g = sym (append-nil out)
put_extras-joined (x ∷ xs) before out g =
    put_extras-joined xs (before ++ x ∷ []) _ g.1
    ∙ rw (put_str-append out x.path g.0.name.short) (simp append_assoc)

-- The encoders write the header and then the payload.
pub encode-payload : (n : Node) → IsWellFormed n → encode n ≡ header (kind_of n) ++ payload n
unfolding encode
encode-payload (leaf es) w = put_entries-joined es [] (header NodeKind.leaf) w.0
encode-payload (mid os) w = put_children-joined (header NodeKind.mid) os
encode-payload (table t) w = put_children-joined _ t.mids ∙ simp append_assoc
encode-payload (root r) w = put_tables-joined r.tables [] _ w.3 ∙ simp append_assoc
encode-payload (extras xs) w = put_extras-joined xs [] (header NodeKind.extras) w.0
