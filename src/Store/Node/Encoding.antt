-- ===== src/Store/Node/Encoding.antt =====
-- `decode` on what `encode` wrote (store/node.rs).
use reldir.Base.{
  ℕ, ◌≡◌, ◌≤◌, ◌<◌, refl, sym, ap, ◌∙◌, true, List, [], ◌∷◌, ◌++◌, arith, length, length-append,
}
use mathlib.Core.List.{append-nil}
use reldir.Store.Corruption.{Bytes, ok}
use reldir.Store.Codec.{Cursor, array, u8, finish, remaining, new}
use reldir.Store.Codec.Reads.{rest, Reads, Reads-bind, u8-Reads, remaining-eq-length}
use reldir.Store.Text.{bytes_eq, bytes_eq_iff}
use reldir.Store.Node.{
  Entry, TableRef, Extra, Node, leaf, mid, table, root, extras, fanout, kind_byte, header, magic,
  opt_hash, child_bytes, encode, decode, decode_with, decode_kind, decode_leaf, decode_mid,
  decode_table, decode_root, decode_extras, decode_children, decode_slots, collect, decode_entry,
  decode_table_ref, decode_extra, read_magic, decode_opt_hash,
}
use reldir.Store.Node.Collect.{joined, Chain, collect-Reads}
use reldir.Store.Node.Names.{name_bytes}
use reldir.Store.Node.Digests.{
  decode_opt_hash-Reads, array-Reads, length-opt_hash, some_unless_zero-opt_hash,
}
use reldir.Store.Node.Slots.{decode_slots-Reads}
use reldir.Store.Node.Items.{
  entry_bytes, GoodEntry, decode_entry-Reads, table_bytes, GoodTable, decode_table_ref-Reads,
  extra_bytes, GoodExtra, decode_extra-Reads,
}
use reldir.Store.Node.WellFormed.{IsWellFormed, kind_of, payload, encode-payload}

module _ {A : Type 0} (enc : A → Bytes) (Good : List A → A → Type 0) where
  -- Items that are not empty are no more than their bytes.
  length-le-joined :
      ((before : List A) (a : A) → Good before a → 0 < length (enc a))
      → (xs before : List A) → Chain Good before xs
      → length xs ≤ length (joined enc xs)
  length-le-joined grows [] before g = omega arith
  length-le-joined grows (a ∷ xs) before g = omega (
    arith,
    length-append (enc a) (joined enc xs),
    grows before a g.0,
    length-le-joined grows xs (before ++ a ∷ []) g.1,
  )

pub entry-grows :
    (before : List Entry) (e : Entry) → GoodEntry before e → 0 < length (entry_bytes e)
entry-grows before e g =
    omega (arith, length-append (name_bytes e.path ++ e.row_hash) e.blob, g.blob_size)

pub table-grows :
    (before : List TableRef) (t : TableRef) → GoodTable before t → 0 < length (table_bytes t)
table-grows before t g =
    omega (arith, length-append (name_bytes t.name ++ t.id) t.identity, g.identity.size)

pub extra-grows :
    (before : List Extra) (x : Extra) → GoodExtra before x → 0 < length (extra_bytes x)
extra-grows before x g = omega (arith, length-append (name_bytes x.path) x.blob, g.blob_size)

decode_kind-Reads :
    (n : Node) (fuel : ℕ) (c : Cursor)
    → IsWellFormed n
    → rest c ≡ payload n
    → length (payload n) ≤ fuel
    → Reads (decode_kind fuel (kind_byte (kind_of n))) c n []
unfolding decode_kind decode_leaf decode_mid decode_table decode_root decode_extras decode_children
decode_kind-Reads (leaf es) fuel c w e h =
    Reads-bind (collect decode_entry fuel []) _ c
      (collect-Reads decode_entry entry_bytes GoodEntry decode_entry-Reads entry-grows es [] fuel c
        w.0 e (omega (arith, length-le-joined entry_bytes GoodEntry entry-grows es [] w.0)))
      λ c' l. record { next = c'; runs = rw (w.1); left = l }
decode_kind-Reads (mid os) fuel c w e h =
    Reads-bind (decode_slots fanout 0) _ c
      (decode_slots-Reads os fanout 0 c [] w.0 w.1 (e ∙ sym (append-nil (joined child_bytes os))))
      λ c' l. record { next = c'; runs = rw (w.2); left = l }
decode_kind-Reads (table t) fuel c w e h =
    Reads-bind decode_opt_hash _ c
      (decode_opt_hash-Reads t.schema c (joined child_bytes t.mids) w.0 e)
      λ c₁ l.
        Reads-bind (decode_slots fanout 0) _ c₁
          (decode_slots-Reads t.mids fanout 0 c₁ [] w.1 w.2
            (l ∙ sym (append-nil (joined child_bytes t.mids))))
          λ c₂ l₂. record { next = c₂; runs = refl; left = l₂ }
decode_kind-Reads (root r) fuel c w e h =
    let tables = joined table_bytes r.tables in
    let inner = opt_hash r.extras ++ tables in
    let enough : length r.tables ≤ fuel = omega (
      arith,
      length-append (opt_hash r.format) (opt_hash r.config ++ inner),
      length-append (opt_hash r.config) inner,
      length-append (opt_hash r.extras) tables,
      length-le-joined table_bytes GoodTable table-grows r.tables [] w.3,
    ) in
    Reads-bind decode_opt_hash _ c
      (decode_opt_hash-Reads r.format c (opt_hash r.config ++ inner) w.0 e)
      λ c₁ l₁.
        Reads-bind decode_opt_hash _ c₁ (decode_opt_hash-Reads r.config c₁ inner w.1 l₁) λ c₂ l₂.
          Reads-bind (array 32) _ c₂
            (array-Reads 32 (opt_hash r.extras) c₂ tables (length-opt_hash r.extras w.2) l₂)
            λ c₃ l₃.
              Reads-bind (collect decode_table_ref fuel []) _ c₃
                (collect-Reads decode_table_ref table_bytes GoodTable decode_table_ref-Reads
                  table-grows r.tables [] fuel c₃ w.3 l₃ enough)
                λ c₄ l₄. record {
                  next = c₄;
                  runs = rw (some_unless_zero-opt_hash r.extras w.2);
                  left = l₄;
                }
decode_kind-Reads (extras xs) fuel c w e h =
    Reads-bind (collect decode_extra fuel []) _ c
      (collect-Reads decode_extra extra_bytes GoodExtra decode_extra-Reads extra-grows xs [] fuel c
        w.0 e (omega (arith, length-le-joined extra_bytes GoodExtra extra-grows xs [] w.0)))
      λ c' l. record { next = c'; runs = rw (w.1); left = l }

read_magic-Reads : (c : Cursor) (ys : Bytes) → rest c ≡ magic ++ ys → Reads read_magic c magic ys
unfolding read_magic
read_magic-Reads c ys e =
    let r = array-Reads 5 magic c ys refl e in
    record { next = r.next; runs = rw (r.runs, read_magic); left = r.left }

finish-Reads : (c : Cursor) → rest c ≡ [] → Reads finish c tt []
unfolding finish
finish-Reads c e =
    let done : remaining c ≡ 0 = remaining-eq-length c ∙ ap length e in
    record { next = c; runs = rw done; left = e }

decode_with-Reads :
    (n : Node) (fuel : ℕ) (c : Cursor)
    → IsWellFormed n
    → rest c ≡ header (kind_of n) ++ payload n
    → length (payload n) ≤ fuel
    → Reads (decode_with fuel) c n []
unfolding decode_with header
decode_with-Reads n fuel c w e h =
    let known : bytes_eq magic magic ≡ true = (bytes_eq_iff magic magic).1 refl in
    let kind = kind_byte (kind_of n) in
    Reads-bind read_magic _ c (read_magic-Reads c (kind ∷ payload n) e) λ c₁ l₁. rw known (
      Reads-bind u8 _ c₁ (u8-Reads c₁ kind (payload n) l₁) λ c₂ l₂.
        Reads-bind (decode_kind fuel kind) _ c₂ (decode_kind-Reads n fuel c₂ w l₂ h) λ c₃ l₃.
          Reads-bind finish _ c₃ (finish-Reads c₃ l₃)
            λ c₄ l₄. record { next = c₄; runs = refl; left = l₄ })

-- Decoding the encoding of a well-formed node gives the node back.
pub decode-encode : (n : Node) → IsWellFormed n → decode (encode n) ≡ ok n
unfolding decode header
decode-encode n w =
    let written = encode-payload n w in
    let r =
      decode_with-Reads n (length (encode n)) (new (encode n)) w written
        (omega (arith, ap length written)) in
    rw (r.runs, decode)
