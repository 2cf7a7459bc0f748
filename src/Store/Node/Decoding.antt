-- ===== src/Store/Node/Decoding.antt =====
-- `decode` against `encode`: the bytes it accepts (store/node.rs).
use reldir.Base.{
  ℕ, ◌≡◌, ◌↔◌, refl, sym, ap, ◌∙◌, inl, inr, [], ◌∷◌, ◌++◌, arith, length, ◌==◌, ==_iff, All,
  All-split, subst, Bool-cases,
}
use mathlib.Core.List.{append_assoc, append-nil}
use reldir.Store.Corruption.{Bytes, ok, err, out_of_fuel, Decoded}
use reldir.Store.Codec.{Cursor, u8, finish, remaining, new}
use reldir.Store.Codec.Reads.{rest, u8_ok, bind_elim, pure_elim, remaining-eq-length}
use reldir.Store.Codec.Spelling.{IsByte}
use reldir.Store.Text.{bytes_eq, bytes_eq_iff}
use reldir.Store.Node.{
  Node, kind_byte, header, magic, encode, decode, decode_with, decode_kind, read_magic,
}
use reldir.Store.Node.Digests.{array_ok}
use reldir.Store.Node.WellFormed.{IsWellFormed, kind_of, payload, encode-payload}
use reldir.Store.Node.Encoding.{decode-encode}
use reldir.Store.Node.Kinds.{decode_kind_ok, empty_of_length}

pub read_magic_ok : (m : Bytes) (c c' : Cursor) → read_magic c ≡ ok (m, c') → rest c ≡ m ++ rest c'
unfolding read_magic
read_magic_ok m c c' h = (array_ok 5 m c c' (ground arith)).0

finish_ok : (c : Cursor) (u : Unit {0}) (c' : Cursor) → finish c ≡ ok (u, c') → rest c ≡ []
unfolding finish
finish_ok c u c' h = elim (Bool-cases (remaining c == 0)) [
  | inl z ↦ empty_of_length (rest c) (sym (remaining-eq-length c) ∙ (==_iff (remaining c) 0).0 z)
  | inr nz ↦ cc (rw nz at h)
]

-- The whole input is the header and the payload of the node.
decode_with_ok :
    (fuel : ℕ) (n : Node) (c c' : Cursor)
    → All IsByte (rest c)
    → decode_with fuel c ≡ ok (n, c')
    → IsWellFormed n × (rest c ≡ header (kind_of n) ++ payload n)
unfolding decode_with header
decode_with_ok fuel n c c' hb h = bind_elim read_magic _ c n c' h λ found c₁ took₁ more₁.
    elim (Bool-cases (bytes_eq found magic)) [
      | inr wrong ↦ cc (rw wrong at more₁)
      | inl right ↦
          let m : found ≡ magic = (bytes_eq_iff found magic).0 right in
          let split₁ : rest c ≡ magic ++ rest c₁ =
            read_magic_ok found c c₁ took₁ ∙ ap (λ t. t ++ rest c₁) m in
          let bytes₁ = (All-split IsByte magic (rest c₁) (subst (All IsByte) split₁ hb)).1 in
          bind_elim u8 _ c₁ n c' (rw right at more₁) λ kind c₂ took₂ more₂.
            let split₂ = u8_ok c₁ kind c₂ took₂ in
            let bytes₂ : All IsByte (kind ∷ rest c₂) = subst (All IsByte) split₂ bytes₁ in
            bind_elim (decode_kind fuel kind) _ c₂ n c' more₂ λ node c₃ took₃ more₃.
              let (good, kind_eq, split₃) = decode_kind_ok fuel kind node c₂ c₃ bytes₂.1 took₃ in
              bind_elim finish _ c₃ n c' more₃ λ u c₄ took₄ done.
                let nothing = finish_ok c₃ u c₄ took₄ in
                pure_elim
                  (λ x _.
                    IsWellFormed x × (rest c ≡ (magic ++ kind_byte (kind_of x) ∷ []) ++ payload x))
                  node n c₄ c' done
                  (
                    good,
                    split₁
                        ∙ ap (λ t. magic ++ t)
                            (split₂
                              ∙ ap (λ t. kind ∷ t)
                                  (split₃
                                    ∙ ap (λ t. payload node ++ t) nothing
                                    ∙ append-nil (payload node)))
                        ∙ ap (λ (k : ℕ). magic ++ k ∷ payload node) kind_eq
                        ∙ sym (append_assoc magic (kind_byte (kind_of node) ∷ []) (payload node)),
                  )
    ]

abbrev pub without_cursor : Decoded (Node × Cursor) → Decoded Node
without_cursor r = elim r [ ok (n, c) ↦ ok n | err e ↦ err e | out_of_fuel ↦ out_of_fuel ]

decode_ok :
    (bytes : Bytes) (n : Node)
    → decode bytes ≡ ok n
    → (c' : Cursor) × (decode_with (length bytes) (new bytes) ≡ ok (n, c'))
unfolding decode
decode_ok bytes n h = go (decode_with (length bytes) (new bytes)) refl h
  where
    go :
        (r : Decoded (Node × Cursor))
        → decode_with (length bytes) (new bytes) ≡ r
        → without_cursor r ≡ ok n
        → (c' : Cursor) × (decode_with (length bytes) (new bytes) ≡ ok (n, c'))
    go (ok (m, c')) e p = let same : m ≡ n = cc p in (c', e ∙ ap (λ (x : Node). ok (x, c')) same)
    go (err x) e p = cc
    go out_of_fuel e p = cc

-- A byte string decodes to a node exactly when the node is well formed and the string is its
-- encoding: a structure has one encoding, and an encoding is of one structure.
pub decode_iff :
    (bytes : Bytes) (n : Node)
    → All IsByte bytes
    → (decode bytes ≡ ok n) ↔ (IsWellFormed n × (bytes ≡ encode n))
decode_iff bytes n hb = (
  λ h.
      let (good, split) =
        let (c', runs) = decode_ok bytes n h in
        decode_with_ok (length bytes) n (new bytes) c' hb runs in
      (good, split ∙ sym (encode-payload n good)),
  λ w. ap decode (w.1) ∙ decode-encode n w.0,
)
