-- ===== src/Store/Node/Total.antt =====
-- Fuel of the decoder (store/node.rs).
use reldir.Base.{
  ℕ, ◌≡◌, ◌≢◌, ◌≤◌, refl, ap, not, List, [], ◌∷◌, ◌++◌, arith, length, length-append, ◌==◌,
  if◌then◌else◌, All, All-split, subst,
}
use reldir.Store.Corruption.{Bytes, NodeKind, empty_node, ok, err, out_of_fuel, Decoded}
use reldir.Store.Codec.{Cursor, Reader, pure, fail, ◌>>=◌, array, u8, finish, new}
use reldir.Store.Codec.Reads.{rest, u8_ok, bind-ne-out_of_fuel}
use reldir.Store.Codec.Spelling.{IsByte}
use reldir.Store.Text.{bytes_eq}
use reldir.Store.Node.{
  Node, magic, decode, decode_with, decode_kind, decode_leaf, decode_mid, decode_table, decode_root,
  decode_extras, decode_children, collect, decode_entry, decode_table_ref, decode_extra, read_magic,
  decode_opt_hash,
}
use reldir.Store.Node.Collect.{collect-ne-out_of_fuel}
use reldir.Store.Node.Digests.{decode_opt_hash_ok, array_ok}
use reldir.Store.Node.Items.{
  entry_bytes, GoodEntry, decode_entry_ok, table_bytes, GoodTable, decode_table_ref_ok, extra_bytes,
  GoodExtra, decode_extra_ok,
}
use reldir.Store.Node.Decoding.{without_cursor, read_magic_ok}
use reldir.Store.Node.Encoding.{entry-grows, table-grows, extra-grows}
use reldir.Store.Node.Endings.{
  Ends, Ends-pure, Ends-fail, Reader-if, u8-Ends, array-Ends, decode_entry-Ends,
  decode_table_ref-Ends, decode_extra-Ends, decode_opt_hash-Ends, decode_slots-Ends,
  read_magic-Ends, finish-Ends, ends_rules,
}

module _ {A B : Type 0} (item : List A → Reader A) (fuel : ℕ) (f : List A → Reader B) where
  -- A loop that ends, and what follows it.
  collect_then :
      (c : Cursor)
      → collect item fuel [] c ≢ out_of_fuel
      → ((xs : List A) → Ends (f xs))
      → (collect item fuel [] >>= f) c ≢ out_of_fuel
  collect_then c loop e =
      bind-ne-out_of_fuel (collect item fuel []) f c loop (λ xs c' _. (e xs).ends c')

module _ (fuel : ℕ) (c : Cursor) (hb : All IsByte (rest c)) (enough : length (rest c) ≤ fuel) where
  decode_leaf-ends : decode_leaf fuel c ≢ out_of_fuel
  unfolding decode_leaf
  decode_leaf-ends =
      collect_then decode_entry fuel
        (λ es. if length es == 0 then fail (empty_node NodeKind.leaf) else pure (Node.leaf es)) c
        (collect-ne-out_of_fuel decode_entry entry_bytes GoodEntry (λ b. (decode_entry-Ends b).ends)
          decode_entry_ok entry-grows fuel [] c hb enough)
        λ xs. search ends_rules

  decode_extras-ends : decode_extras fuel c ≢ out_of_fuel
  unfolding decode_extras
  decode_extras-ends =
      collect_then decode_extra fuel
        (λ xs. if length xs == 0 then fail (empty_node NodeKind.extras) else pure (Node.extras xs))
        c
        (collect-ne-out_of_fuel decode_extra extra_bytes GoodExtra (λ b. (decode_extra-Ends b).ends)
          decode_extra_ok extra-grows fuel [] c hb enough)
        λ xs. search ends_rules

decode_mid-Ends : Ends decode_mid
unfolding decode_mid decode_children
decode_mid-Ends = search (ends_rules, decode_slots-Ends)

decode_table-Ends : Ends decode_table
unfolding decode_table decode_children
decode_table-Ends = search (ends_rules, decode_slots-Ends, decode_opt_hash-Ends)

-- What is left after a step is bytes, and no more of them.
shorter :
    (xs : Bytes) (c c' : Cursor) (fuel : ℕ)
    → rest c ≡ xs ++ rest c'
    → All IsByte (rest c)
    → length (rest c) ≤ fuel
    → All IsByte (rest c') × (length (rest c') ≤ fuel)
shorter xs c c' fuel e hb h = (
  (All-split IsByte xs (rest c') (subst (All IsByte) e hb)).1,
  omega (arith, ap length e, length-append xs (rest c')),
)

decode_root-ends :
    (fuel : ℕ) (c : Cursor)
    → All IsByte (rest c)
    → length (rest c) ≤ fuel
    → decode_root fuel c ≢ out_of_fuel
unfolding decode_root
decode_root-ends fuel c hb h =
    bind-ne-out_of_fuel decode_opt_hash _ c (decode_opt_hash-Ends.ends c) λ format c₁ took₁.
      let (hb₁, h₁) = shorter _ c c₁ fuel (decode_opt_hash_ok format c c₁ took₁).1 hb h in
      bind-ne-out_of_fuel decode_opt_hash _ c₁ (decode_opt_hash-Ends.ends c₁) λ config c₂ took₂.
        let (hb₂, h₂) = shorter _ c₁ c₂ fuel (decode_opt_hash_ok config c₁ c₂ took₂).1 hb₁ h₁ in
        bind-ne-out_of_fuel (array 32) _ c₂ ((array-Ends 32).ends c₂) λ kept c₃ took₃.
          let (hb₃, h₃) = shorter kept c₂ c₃ fuel (array_ok 32 kept c₂ c₃ took₃).0 hb₂ h₂ in
          collect_then decode_table_ref fuel _ c₃
            (collect-ne-out_of_fuel decode_table_ref table_bytes GoodTable
              (λ b. (decode_table_ref-Ends b).ends) decode_table_ref_ok table-grows fuel [] c₃ hb₃
              h₃)
            λ xs. search ends_rules

decode_kind-ends :
    (fuel kind : ℕ) (c : Cursor)
    → All IsByte (rest c)
    → length (rest c) ≤ fuel
    → decode_kind fuel kind c ≢ out_of_fuel
unfolding decode_kind
decode_kind-ends fuel kind c hb h = Reader-if (kind == b'L') _ _ c (decode_leaf-ends fuel c hb h) (
    Reader-if (kind == b'M') _ _ c (decode_mid-Ends.ends c) (
      Reader-if (kind == b'T') _ _ c (decode_table-Ends.ends c) (
        Reader-if (kind == b'R') _ _ c (decode_root-ends fuel c hb h) (
          Reader-if (kind == b'X') _ _ c (decode_extras-ends fuel c hb h) ((Ends-fail _).ends c)))))

decode_with-ends :
    (fuel : ℕ) (c : Cursor)
    → All IsByte (rest c)
    → length (rest c) ≤ fuel
    → decode_with fuel c ≢ out_of_fuel
unfolding decode_with
decode_with-ends fuel c hb h =
    bind-ne-out_of_fuel read_magic _ c (read_magic-Ends.ends c) λ found c₁ took₁.
      let (hb₁, h₁) = shorter found c c₁ fuel (read_magic_ok found c c₁ took₁) hb h in
      Reader-if (not (bytes_eq found magic)) _ _ c₁ ((Ends-fail _).ends c₁) (
        bind-ne-out_of_fuel u8 _ c₁ (u8-Ends.ends c₁) λ kind c₂ took₂.
          let (hb₂, h₂) = shorter (kind ∷ []) c₁ c₂ fuel (u8_ok c₁ kind c₂ took₂) hb₁ h₁ in
          bind-ne-out_of_fuel (decode_kind fuel kind) _ c₂ (decode_kind-ends fuel kind c₂ hb₂ h₂)
            λ node c₃ _.
              bind-ne-out_of_fuel finish _ c₃ (finish-Ends.ends c₃)
                (λ _ c₄ _. (Ends-pure node).ends c₄))

-- `decode` answers every byte string with a node or a corruption: the rounds that the model allows
-- its loops are enough.
pub decode-ne-out_of_fuel : (bytes : Bytes) → All IsByte bytes → decode bytes ≢ out_of_fuel
unfolding decode
decode-ne-out_of_fuel bytes hb e = go (decode_with (length bytes) (new bytes)) refl e
  where
    go :
        (r : Decoded (Node × Cursor))
        → decode_with (length bytes) (new bytes) ≡ r
        → without_cursor r ≡ out_of_fuel
        → ⊥
    go (ok (m, c')) e p = cc
    go (err x) e p = cc
    go out_of_fuel e p = decode_with-ends (length bytes) (new bytes) hb (omega arith) e
