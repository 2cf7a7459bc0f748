-- ===== src/Store/Node/Digests.antt =====
-- Digests inside a node, optional ones, and the 64 slots of a mid or a table.
use mathlib.Core.List.{append_assoc}
use reldir.Base.{
  ℕ, ◌≡◌, refl, sym, ap, ◌∙◌, inl, inr, true, false, ◌++◌, length, Bool-cases, subst, Option, none,
  some,
}
use reldir.Store.Corruption.{Bytes, ok}
use reldir.Store.Codec.{Cursor, array, take_bytes}
use reldir.Store.Codec.Reads.{rest, Reads, Reads-bind, bind_ok, take_bytes-Reads, take_bytes_ok}
use reldir.Store.Text.{bytes_eq_iff}
use reldir.Store.Node.{
  Child, zero_digest, is_zero, some_unless_zero, opt_hash, decode_opt_hash, child_bytes,
  decode_child,
}

pub array-Reads :
    (n : ℕ) (xs : Bytes) (c : Cursor) (ys : Bytes)
    → length xs ≡ n
    → rest c ≡ xs ++ ys
    → Reads (array n) c xs ys
unfolding array
array-Reads n xs c ys h e = subst (λ k. Reads (take_bytes k) c xs ys) h (take_bytes-Reads c xs ys e)

pub array_ok :
    (n : ℕ) (xs : Bytes) (c c' : Cursor)
    → array n c ≡ ok (xs, c')
    → (rest c ≡ xs ++ rest c') × (length xs ≡ n)
unfolding array
array_ok n xs c c' h = take_bytes_ok n c xs c' h

eq_of_is_zero : (h : Bytes) → is_zero h ≡ true → h ≡ zero_digest
unfolding is_zero
eq_of_is_zero h e = (bytes_eq_iff h zero_digest).0 e

is_zero-zero_digest : is_zero zero_digest ≡ true
unfolding is_zero
is_zero-zero_digest = (bytes_eq_iff zero_digest zero_digest).1 refl

-- A digest that is there: 32 bytes, not all zero.
pub record GoodDigest (h : Bytes) : Type 0 where
  pub size : length h ≡ 32
  pub nonzero : is_zero h ≡ false

abbrev pub GoodOption : Option Bytes → Type 0
GoodOption none = Unit
GoodOption (some h) = GoodDigest h

pub length-opt_hash : (o : Option Bytes) → GoodOption o → length (opt_hash o) ≡ 32
unfolding opt_hash
length-opt_hash none g = refl
length-opt_hash (some h) g = g.size

pub some_unless_zero-opt_hash :
    (o : Option Bytes) → GoodOption o → some_unless_zero (opt_hash o) ≡ o
unfolding opt_hash some_unless_zero
some_unless_zero-opt_hash none g = rw is_zero-zero_digest
some_unless_zero-opt_hash (some h) g = rw (g.nonzero)

pub opt_hash-some_unless_zero :
    (h : Bytes)
    → length h ≡ 32
    → GoodOption (some_unless_zero h) × (opt_hash (some_unless_zero h) ≡ h)
unfolding opt_hash some_unless_zero
opt_hash-some_unless_zero h size = elim (Bool-cases (is_zero h)) [
  | inl z ↦ rw z (tt, sym (eq_of_is_zero h z))
  | inr nz ↦ rw nz (record { size = size; nonzero = nz }, refl)
]

pub decode_opt_hash-Reads :
    (o : Option Bytes) (c : Cursor) (ys : Bytes)
    → GoodOption o
    → rest c ≡ opt_hash o ++ ys
    → Reads decode_opt_hash c o ys
unfolding decode_opt_hash opt_hash some_unless_zero
decode_opt_hash-Reads none c ys g e =
    Reads-bind (array 32) _ c (array-Reads 32 zero_digest c ys refl e)
      λ c' l. record { next = c'; runs = rw is_zero-zero_digest; left = l }
decode_opt_hash-Reads (some h) c ys g e =
    Reads-bind (array 32) _ c (array-Reads 32 h c ys g.size e)
      λ c' l. record { next = c'; runs = rw g.nonzero; left = l }

pub decode_opt_hash_ok :
    (o : Option Bytes) (c c' : Cursor)
    → decode_opt_hash c ≡ ok (o, c')
    → GoodOption o × (rest c ≡ opt_hash o ++ rest c')
unfolding decode_opt_hash opt_hash some_unless_zero
decode_opt_hash_ok o c c' h =
    let (d, c₁, took, body) = bind_ok (array 32) _ c o c' h in
    let (split, size) = array_ok 32 d c c₁ took in
    elim (Bool-cases (is_zero d)) [
      | inl z ↦
          let done : ok (none, c₁) ≡ ok (o, c') = rw z at body in
          let o_eq : none ≡ o = cc done in
          let c_eq : c₁ ≡ c' = cc done in rw (← o_eq) (tt, split ∙ rw (eq_of_is_zero d z, c_eq))
      | inr nz ↦
          let done : ok (some d, c₁) ≡ ok (o, c') = rw nz at body in
          let o_eq : some d ≡ o = cc done in
          let c_eq : c₁ ≡ c' = cc done in
          rw (← o_eq) (record { size = size; nonzero = nz }, split ∙ rw c_eq)
    ]

abbrev pub GoodChild : Option Child → Type 0
GoodChild none = Unit
GoodChild (some child) = GoodDigest child.id × GoodDigest child.identity

pub decode_child-Reads :
    (index : ℕ) (o : Option Child) (c : Cursor) (ys : Bytes)
    → GoodChild o
    → rest c ≡ child_bytes o ++ ys
    → Reads (decode_child index) c o ys
unfolding decode_child child_bytes
decode_child-Reads index none c ys g e =
    Reads-bind (array 32) _ c (array-Reads 32 zero_digest c (zero_digest ++ ys) refl e) λ c₁ l.
      Reads-bind (array 32) _ c₁ (array-Reads 32 zero_digest c₁ ys refl l)
        λ c₂ l₂. record { next = c₂; runs = rw is_zero-zero_digest; left = l₂ }
decode_child-Reads index (some child) c ys g e =
    Reads-bind (array 32) _ c
      (array-Reads 32 child.id c (child.identity ++ ys) g.0.size
        (e ∙ append_assoc child.id child.identity ys))
      λ c₁ l.
        Reads-bind (array 32) _ c₁ (array-Reads 32 child.identity c₁ ys g.1.size l)
          λ c₂ l₂. record { next = c₂; runs = rw (g.0.nonzero, g.1.nonzero); left = l₂ }

pub decode_child_ok :
    (index : ℕ) (o : Option Child) (c c' : Cursor)
    → decode_child index c ≡ ok (o, c')
    → GoodChild o × (rest c ≡ child_bytes o ++ rest c')
unfolding decode_child child_bytes
decode_child_ok index o c c' h =
    let (id, c₁, took, more) = bind_ok (array 32) _ c o c' h in
    let (split, size) = array_ok 32 id c c₁ took in
    let (identity, c₂, took₂, body) = bind_ok (array 32) _ c₁ o c' more in
    let (split₂, size₂) = array_ok 32 identity c₁ c₂ took₂ in
    let both : rest c ≡ (id ++ identity) ++ rest c₂ =
      split ∙ ap (λ t. id ++ t) split₂ ∙ sym (append_assoc id identity (rest c₂)) in
    elim (Bool-cases (is_zero id)) [
      | inl z ↦ elim (Bool-cases (is_zero identity)) [
        | inl z₂ ↦
            let done : ok (none, c₂) ≡ ok (o, c') = rw (z, z₂) at body in
            let o_eq : none ≡ o = cc done in
            let c_eq : c₂ ≡ c' = cc done in
            rw (← o_eq) (tt, both ∙ rw (eq_of_is_zero id z, eq_of_is_zero identity z₂, c_eq))
        | inr nz₂ ↦ cc (rw (z, nz₂) at body)
      ]
      | inr nz ↦ elim (Bool-cases (is_zero identity)) [
        | inl z₂ ↦ cc (rw (nz, z₂) at body)
        | inr nz₂ ↦
            let done : ok (some (record { id = id; identity = identity }), c₂) ≡ ok (o, c') =
              rw (nz, nz₂) at body in
            let o_eq : some (record { id = id; identity = identity }) ≡ o = cc done in
            let c_eq : c₂ ≡ c' = cc done in
            rw (← o_eq) (
              (record { size = size; nonzero = nz }, record { size = size₂; nonzero = nz₂ }),
              both ∙ rw c_eq,
            )
      ]
    ]
