-- ===== src/Store/Node/Items.antt =====
-- The entries of a leaf, a root and the extras, one at a time.
use mathlib.Core.List.{append_assoc}
use reldir.Base.{
  ◌≡◌, refl, sym, ap, ◌∙◌, inl, inr, Bool, true, false, ◌||◌, List, ◌++◌, length, All, Bool-cases,
  if◌then◌else◌,
}
use reldir.Store.Corruption.{Bytes, Corruption, Decoded, ok}
use reldir.Store.Codec.{Cursor, pure, fail, array}
use reldir.Store.Codec.Reads.{rest, Reads, Reads-bind, bind_elim, pure_elim}
use reldir.Store.Codec.Spelling.{IsByte}
use reldir.Store.Text.{valid_path, valid_table_name}
use reldir.Store.Node.{
  Entry, TableRef, Extra, is_zero, out_of_order, decode_path, decode_entry, decode_table_ref,
  decode_extra,
}
use reldir.Store.Node.Names.{name_bytes, GoodName, decode_path-Reads, decode_path_ok}
use reldir.Store.Node.Digests.{array-Reads, array_ok, GoodDigest}

pub three_parts :
    (a b d z : Bytes) {w x y : Bytes}
    → w ≡ a ++ x
    → x ≡ b ++ y
    → y ≡ d ++ z
    → w ≡ ((a ++ b) ++ d) ++ z
three_parts a b d z e f g =
    e
    ∙ ap (λ t. a ++ t) (f ∙ ap (λ t. b ++ t) g)
    ∙ sym (append_assoc (a ++ b) d z ∙ append_assoc a b (d ++ z))

two_parts : (a b z : Bytes) {w x : Bytes} → w ≡ a ++ x → x ≡ b ++ z → w ≡ (a ++ b) ++ z
two_parts a b z e f = e ∙ ap (λ t. a ++ t) f ∙ sym (append_assoc a b z)

abbrev pub entry_bytes : Entry → Bytes
entry_bytes e = (name_bytes e.path ++ e.row_hash) ++ e.blob

-- An entry that may follow those before it.
pub record GoodEntry (before : List Entry) (e : Entry) : Type 0 where
  pub name : GoodName valid_path e.path
  pub order : out_of_order (λ x. x.path) before e.path ≡ false
  pub hash_size : length e.row_hash ≡ 32
  pub blob_size : length e.blob ≡ 32

pub decode_entry-Reads :
    (before : List Entry) (e : Entry) (c : Cursor) (ys : Bytes)
    → GoodEntry before e
    → rest c ≡ entry_bytes e ++ ys
    → Reads (decode_entry before) c e ys
unfolding decode_entry
decode_entry-Reads before e c ys g h =
    Reads-bind (decode_path valid_path) _ c
      (decode_path-Reads valid_path e.path c (e.row_hash ++ (e.blob ++ ys)) g.name (
        h
        ∙ rw (
          append_assoc (name_bytes e.path ++ e.row_hash) e.blob ys,
          append_assoc (name_bytes e.path) e.row_hash (e.blob ++ ys),
        )))
      λ c₁ l. rw (g.order) (
        Reads-bind (array 32) _ c₁ (array-Reads 32 e.row_hash c₁ (e.blob ++ ys) g.hash_size l)
          λ c₂ l₂.
            Reads-bind (array 32) _ c₂ (array-Reads 32 e.blob c₂ ys g.blob_size l₂)
              λ c₃ l₃. record { next = c₃; runs = refl; left = l₃ })

pub decode_entry_ok :
    (before : List Entry) (e : Entry) (c c' : Cursor)
    → All IsByte (rest c)
    → decode_entry before c ≡ ok (e, c')
    → GoodEntry before e × (rest c ≡ entry_bytes e ++ rest c')
unfolding decode_entry
decode_entry_ok before e c c' hb h =
    bind_elim (decode_path valid_path) _ c e c' h λ path c₁ took more.
      let (name, split) = decode_path_ok valid_path path c c₁ hb took in
      elim (Bool-cases (out_of_order (λ (x : Entry). x.path) before path)) [
        | inl bad ↦ cc (rw bad at more)
        | inr order ↦ bind_elim (array 32) _ c₁ e c' (rw order at more) λ hash c₂ took₂ more₂.
            let (split₂, size₂) = array_ok 32 hash c₁ c₂ took₂ in
            bind_elim (array 32) _ c₂ e c' more₂ λ blob c₃ took₃ done.
              let (split₃, size₃) = array_ok 32 blob c₂ c₃ took₃ in
              pure_elim (λ x c'. GoodEntry before x × (rest c ≡ entry_bytes x ++ rest c'))
                (record { path = path; row_hash = hash; blob = blob }) e c₃ c' done
                (
                  record { name = name; order = order; hash_size = size₂; blob_size = size₃ },
                  three_parts (name_bytes path) hash blob (rest c₃) split split₂ split₃,
                )
      ]

abbrev pub table_bytes : TableRef → Bytes
table_bytes t = (name_bytes t.name ++ t.id) ++ t.identity

pub record GoodTable (before : List TableRef) (t : TableRef) : Type 0 where
  pub name : GoodName valid_table_name t.name
  pub order : out_of_order (λ x. x.name) before t.name ≡ false
  pub id : GoodDigest t.id
  pub identity : GoodDigest t.identity

pub decode_table_ref-Reads :
    (before : List TableRef) (t : TableRef) (c : Cursor) (ys : Bytes)
    → GoodTable before t
    → rest c ≡ table_bytes t ++ ys
    → Reads (decode_table_ref before) c t ys
unfolding decode_table_ref
decode_table_ref-Reads before t c ys g h =
    Reads-bind (decode_path valid_table_name) _ c
      (decode_path-Reads valid_table_name t.name c (t.id ++ (t.identity ++ ys)) g.name (
        h
        ∙ rw (
          append_assoc (name_bytes t.name ++ t.id) t.identity ys,
          append_assoc (name_bytes t.name) t.id (t.identity ++ ys),
        )))
      λ c₁ l. rw (g.order) (
        Reads-bind (array 32) _ c₁ (array-Reads 32 t.id c₁ (t.identity ++ ys) g.id.size l) λ c₂ l₂.
          Reads-bind (array 32) _ c₂ (array-Reads 32 t.identity c₂ ys g.identity.size l₂)
            λ c₃ l₃. record { next = c₃; runs = rw (g.id.nonzero, g.identity.nonzero); left = l₃ })

-- The last test of a table's entry passed.
both_nonzero :
    {A : Type 0} (p q : Bool) (e : Corruption) (a : A) (c : Cursor) (b : A) (c' : Cursor)
    → (if p || q then fail e else pure a) c ≡ ok (b, c')
    → (p ≡ false) × (q ≡ false) × (◌≡◌ {A = Decoded (A × Cursor)} (ok (a, c)) (ok (b, c')))
both_nonzero false false e a c b c' h = (refl, refl, h)
both_nonzero false true e a c b c' h = cc
both_nonzero true q e a c b c' h = cc

pub decode_table_ref_ok :
    (before : List TableRef) (t : TableRef) (c c' : Cursor)
    → All IsByte (rest c)
    → decode_table_ref before c ≡ ok (t, c')
    → GoodTable before t × (rest c ≡ table_bytes t ++ rest c')
unfolding decode_table_ref
decode_table_ref_ok before t c c' hb h =
    bind_elim (decode_path valid_table_name) _ c t c' h λ name c₁ took more.
      let (good, split) = decode_path_ok valid_table_name name c c₁ hb took in
      elim (Bool-cases (out_of_order (λ (x : TableRef). x.name) before name)) [
        | inl bad ↦ cc (rw bad at more)
        | inr order ↦ bind_elim (array 32) _ c₁ t c' (rw order at more) λ id c₂ took₂ more₂.
            let (split₂, size₂) = array_ok 32 id c₁ c₂ took₂ in
            bind_elim (array 32) _ c₂ t c' more₂ λ identity c₃ took₃ last.
              let (split₃, size₃) = array_ok 32 identity c₂ c₃ took₃ in
              let (z, z₂, done) = both_nonzero (is_zero id) (is_zero identity) _ _ c₃ t c' last in
              pure_elim (λ x c'. GoodTable before x × (rest c ≡ table_bytes x ++ rest c'))
                (record { name = name; id = id; identity = identity }) t c₃ c' done
                (
                  record {
                    name = good;
                    order = order;
                    id = record { size = size₂; nonzero = z };
                    identity = record { size = size₃; nonzero = z₂ };
                  },
                  three_parts (name_bytes name) id identity (rest c₃) split split₂ split₃,
                )
      ]

abbrev pub extra_bytes : Extra → Bytes
extra_bytes x = name_bytes x.path ++ x.blob

pub record GoodExtra (before : List Extra) (x : Extra) : Type 0 where
  pub name : GoodName valid_path x.path
  pub order : out_of_order (λ y. y.path) before x.path ≡ false
  pub blob_size : length x.blob ≡ 32

pub decode_extra-Reads :
    (before : List Extra) (x : Extra) (c : Cursor) (ys : Bytes)
    → GoodExtra before x
    → rest c ≡ extra_bytes x ++ ys
    → Reads (decode_extra before) c x ys
unfolding decode_extra
decode_extra-Reads before x c ys g h =
    Reads-bind (decode_path valid_path) _ c
      (decode_path-Reads valid_path x.path c (x.blob ++ ys) g.name
        (h ∙ append_assoc (name_bytes x.path) x.blob ys))
      λ c₁ l. rw (g.order) (
        Reads-bind (array 32) _ c₁ (array-Reads 32 x.blob c₁ ys g.blob_size l)
          λ c₂ l₂. record { next = c₂; runs = refl; left = l₂ })

pub decode_extra_ok :
    (before : List Extra) (x : Extra) (c c' : Cursor)
    → All IsByte (rest c)
    → decode_extra before c ≡ ok (x, c')
    → GoodExtra before x × (rest c ≡ extra_bytes x ++ rest c')
unfolding decode_extra
decode_extra_ok before x c c' hb h =
    bind_elim (decode_path valid_path) _ c x c' h λ path c₁ took more.
      let (name, split) = decode_path_ok valid_path path c c₁ hb took in
      elim (Bool-cases (out_of_order (λ (y : Extra). y.path) before path)) [
        | inl bad ↦ cc (rw bad at more)
        | inr order ↦ bind_elim (array 32) _ c₁ x c' (rw order at more) λ blob c₂ took₂ done.
            let (split₂, size₂) = array_ok 32 blob c₁ c₂ took₂ in
            pure_elim (λ y c'. GoodExtra before y × (rest c ≡ extra_bytes y ++ rest c'))
              (record { path = path; blob = blob }) x c₂ c' done
              (
                record { name = name; order = order; blob_size = size₂ },
                two_parts (name_bytes path) blob (rest c₂) split split₂,
              )
      ]
