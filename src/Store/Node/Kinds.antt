-- ===== src/Store/Node/Kinds.antt =====
-- The bytes each kind of node is decoded from (store/node.rs).
use reldir.Base.{
  ℕ, ◌≡◌, refl, sym, ap, ◌∙◌, inl, inr, [], ◌∷◌, ◌++◌, arith, length, ◌==◌, ==_iff, All, All-split,
  subst, Bool-cases,
}
use mathlib.Core.List.{append_assoc}
use reldir.Store.Corruption.{Bytes, ok}
use reldir.Store.Codec.{Cursor, array}
use reldir.Store.Codec.Reads.{rest, bind_elim, pure_elim}
use reldir.Store.Codec.Spelling.{IsByte}
use reldir.Store.Node.{
  Node, Root, leaf, mid, table, root, extras, fanout, kind_byte, opt_hash, all_none, decode_kind,
  decode_leaf, decode_mid, decode_table, decode_root, decode_extras, decode_children, decode_slots,
  collect, decode_entry, decode_table_ref, decode_extra, decode_opt_hash, some_unless_zero,
}
use reldir.Store.Node.Collect.{joined, Chain, collect_ok}
use reldir.Store.Node.Digests.{decode_opt_hash_ok, array_ok, opt_hash-some_unless_zero}
use reldir.Store.Node.Slots.{decode_slots_ok}
use reldir.Store.Node.Items.{
  three_parts, entry_bytes, GoodEntry, decode_entry_ok, table_bytes, GoodTable, decode_table_ref_ok,
  extra_bytes, GoodExtra, decode_extra_ok,
}
use reldir.Store.Node.WellFormed.{IsWellFormed, kind_of, payload}

-- What a node that decodes was read from.
abbrev pub Payload : Cursor → ℕ → Node → Cursor → Type 0
Payload c kind n c' =
    IsWellFormed n × (kind ≡ kind_byte (kind_of n)) × (rest c ≡ payload n ++ rest c')

decode_leaf_ok :
    (fuel : ℕ) (n : Node) (c c' : Cursor)
    → All IsByte (rest c)
    → decode_leaf fuel c ≡ ok (n, c')
    → Payload c b'L' n c'
unfolding decode_leaf
decode_leaf_ok fuel n c c' hb h =
    bind_elim (collect decode_entry fuel []) _ c n c' h λ es c₁ took more.
      let r =
        collect_ok decode_entry entry_bytes GoodEntry decode_entry_ok fuel [] es c c₁ hb took in
      elim (Bool-cases (length es == 0)) [
        | inl nothing ↦ cc (rw nothing at more)
        | inr some_left ↦ pure_elim (Payload c b'L') (leaf es) n c₁ c' (rw some_left at more) (
          (subst (Chain GoodEntry []) (sym r.result_eq) r.chain, some_left),
          refl,
          r.split ∙ ap (λ t. joined entry_bytes t ++ rest c₁) (sym r.result_eq),
        )
      ]

decode_extras_ok :
    (fuel : ℕ) (n : Node) (c c' : Cursor)
    → All IsByte (rest c)
    → decode_extras fuel c ≡ ok (n, c')
    → Payload c b'X' n c'
unfolding decode_extras
decode_extras_ok fuel n c c' hb h =
    bind_elim (collect decode_extra fuel []) _ c n c' h λ xs c₁ took more.
      let r =
        collect_ok decode_extra extra_bytes GoodExtra decode_extra_ok fuel [] xs c c₁ hb took in
      elim (Bool-cases (length xs == 0)) [
        | inl nothing ↦ cc (rw nothing at more)
        | inr some_left ↦ pure_elim (Payload c b'X') (extras xs) n c₁ c' (rw some_left at more) (
          (subst (Chain GoodExtra []) (sym r.result_eq) r.chain, some_left),
          refl,
          r.split ∙ ap (λ t. joined extra_bytes t ++ rest c₁) (sym r.result_eq),
        )
      ]

decode_mid_ok : (n : Node) (c c' : Cursor) → decode_mid c ≡ ok (n, c') → Payload c b'M' n c'
unfolding decode_mid decode_children
decode_mid_ok n c c' h = bind_elim (decode_slots fanout 0) _ c n c' h λ os c₁ took more.
    let s = decode_slots_ok fanout 0 os c c₁ took in
    elim (Bool-cases (all_none os)) [
      | inl nothing ↦ cc (rw nothing at more)
      | inr some_left ↦
          pure_elim (Payload c b'M') (mid os) n c₁ c' (rw some_left at more)
            ((s.size, s.good, some_left), refl, s.split)
    ]

decode_table_ok : (n : Node) (c c' : Cursor) → decode_table c ≡ ok (n, c') → Payload c b'T' n c'
unfolding decode_table decode_children
decode_table_ok n c c' h = bind_elim decode_opt_hash _ c n c' h λ schema c₁ took more.
    let (good, split) = decode_opt_hash_ok schema c c₁ took in
    bind_elim (decode_slots fanout 0) _ c₁ n c' more λ mids c₂ took₂ done.
      let s = decode_slots_ok fanout 0 mids c₁ c₂ took₂ in
      pure_elim (Payload c b'T') (table (record { schema = schema; mids = mids })) n c₂ c' done (
        (good, s.size, s.good),
        refl,
        split
            ∙ ap (λ t. opt_hash schema ++ t) s.split
            ∙ sym (append_assoc (opt_hash schema) _ (rest c₂)),
      )

root_split :
    (f g kept x items tables left : Bytes) {w y : Bytes}
    → w ≡ ((f ++ g) ++ kept) ++ y
    → kept ≡ x
    → y ≡ items ++ left
    → items ≡ tables
    → w ≡ (f ++ (g ++ (x ++ tables))) ++ left
root_split f g kept x items tables left e same split i =
    e ∙ ap (λ t. ((f ++ g) ++ kept) ++ t) split ∙ rw (same, i) (simp append_assoc)

pub empty_of_length : (xs : Bytes) → length xs ≡ 0 → xs ≡ []
empty_of_length [] h = refl
empty_of_length (x ∷ xs) h = absurd (omega arith)

decode_root_ok :
    (fuel : ℕ) (n : Node) (c c' : Cursor)
    → All IsByte (rest c)
    → decode_root fuel c ≡ ok (n, c')
    → Payload c b'R' n c'
unfolding decode_root
decode_root_ok fuel n c c' hb h = bind_elim decode_opt_hash _ c n c' h λ format c₁ took₁ more₁.
    let (good₁, split₁) = decode_opt_hash_ok format c c₁ took₁ in
    bind_elim decode_opt_hash _ c₁ n c' more₁ λ config c₂ took₂ more₂.
      let (good₂, split₂) = decode_opt_hash_ok config c₁ c₂ took₂ in
      bind_elim (array 32) _ c₂ n c' more₂ λ kept c₃ took₃ more₃.
        let (split₃, size) = array_ok 32 kept c₂ c₃ took₃ in
        let (good₃, same) = opt_hash-some_unless_zero kept size in
        let head : rest c ≡ ((opt_hash format ++ opt_hash config) ++ kept) ++ rest c₃ =
          three_parts (opt_hash format) (opt_hash config) kept (rest c₃) split₁ split₂ split₃ in
        let bytes = All-split IsByte _ (rest c₃) (subst (All IsByte) head hb) in
        bind_elim (collect decode_table_ref fuel []) _ c₃ n c' more₃ λ tables c₄ took₄ done.
          let r =
            collect_ok decode_table_ref table_bytes GoodTable decode_table_ref_ok fuel [] tables c₃
              c₄ bytes.1 took₄ in
          let x = some_unless_zero kept in
          let made : Root = record {
            format = format;
            config = config;
            extras = x;
            tables = tables;
          } in
          pure_elim (Payload c b'R') (root made) n c₄ c' done (
            (good₁, good₂, good₃, subst (Chain GoodTable []) (sym r.result_eq) r.chain),
            refl,
            root_split (opt_hash format) (opt_hash config) kept (opt_hash x)
                (joined table_bytes r.items) (joined table_bytes tables) (rest c₄) head (sym same)
                r.split (ap (joined table_bytes) (sym r.result_eq)),
          )

pub decode_kind_ok :
    (fuel kind : ℕ) (n : Node) (c c' : Cursor)
    → All IsByte (rest c)
    → decode_kind fuel kind c ≡ ok (n, c')
    → Payload c kind n c'
unfolding decode_kind
decode_kind_ok fuel kind n c c' hb h = elim (Bool-cases (kind == b'L')) [
  | inl l ↦
      subst (λ k. Payload c k n c') (sym ((==_iff kind b'L').0 l))
        (decode_leaf_ok fuel n c c' hb (rw l at h))
  | inr nl ↦ elim (Bool-cases (kind == b'M')) [
    | inl m ↦
        subst (λ k. Payload c k n c') (sym ((==_iff kind b'M').0 m))
          (decode_mid_ok n c c' (rw (nl, m) at h))
    | inr nm ↦ elim (Bool-cases (kind == b'T')) [
      | inl t ↦
          subst (λ k. Payload c k n c') (sym ((==_iff kind b'T').0 t))
            (decode_table_ok n c c' (rw (nl, nm, t) at h))
      | inr nt ↦ elim (Bool-cases (kind == b'R')) [
        | inl r ↦
            subst (λ k. Payload c k n c') (sym ((==_iff kind b'R').0 r))
              (decode_root_ok fuel n c c' hb (rw (nl, nm, nt, r) at h))
        | inr nr ↦ elim (Bool-cases (kind == b'X')) [
          | inl x ↦
              subst (λ k. Payload c k n c') (sym ((==_iff kind b'X').0 x))
                (decode_extras_ok fuel n c c' hb (rw (nl, nm, nt, nr, x) at h))
          | inr nx ↦ cc (rw (nl, nm, nt, nr, nx) at h)
        ]
      ]
    ]
  ]
]
