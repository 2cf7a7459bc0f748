-- ===== src/Store/Node/Names.antt =====
-- Names and digests inside a node, written and read (store/node.rs).
use mathlib.Core.List.{append_assoc}
use reldir.Base.{
  ℕ, ◌≡◌, sym, ap, ◌∙◌, inl, inr, Bool, true, [], ◌++◌, length, All, Bool-cases, subst,
}
use reldir.Store.Corruption.{Bytes, ok}
use reldir.Store.Codec.{Cursor, put_varint, take_bytes, varint, length_prefixed}
use reldir.Store.Codec.Reads.{rest, Reads, Reads-bind, bind_ok, take_bytes-Reads, take_bytes_ok}
use reldir.Store.Codec.Spelling.{IsByte, IsU64, put_varint-septets}
use reldir.Store.Codec.Varint.{varint-put_varint}
use reldir.Store.Codec.Canonical.{put_varint-varint}
use reldir.Store.Text.{is_utf8}
use reldir.Store.Node.{put_str, decode_path}

-- A text behind its length.
abbrev pub name_bytes : Bytes → Bytes
name_bytes text = put_varint [] (length text) ++ text

pub put_varint-append : (out : Bytes) (v : ℕ) → IsU64 v → put_varint out v ≡ out ++ put_varint [] v
put_varint-append out v h =
    put_varint-septets out v h ∙ ap (λ t. out ++ t) (sym (put_varint-septets [] v h))

pub put_str-append :
    (out text : Bytes) → IsU64 (length text) → put_str out text ≡ out ++ name_bytes text
unfolding put_str
put_str-append out text h =
    rw (put_varint-append out (length text) h) (append_assoc out (put_varint [] (length text)) text)

-- A name that the decoder admits.
pub record GoodName (valid : Bytes → Bool) (name : Bytes) : Type 0 where
  pub short : IsU64 (length name)
  pub utf8 : is_utf8 name ≡ true
  pub legal : valid name ≡ true

length_prefixed-Reads :
    (text : Bytes) (c : Cursor) (ys : Bytes)
    → IsU64 (length text)
    → rest c ≡ name_bytes text ++ ys
    → Reads length_prefixed c text ys
unfolding length_prefixed
length_prefixed-Reads text c ys h e =
    Reads-bind varint take_bytes c
      (varint-put_varint (length text) c (text ++ ys) h
        (e ∙ append_assoc (put_varint [] (length text)) text ys))
      (λ c' l. take_bytes-Reads c' text ys l)

length_prefixed_ok :
    (text : Bytes) (c c' : Cursor)
    → All IsByte (rest c)
    → length_prefixed c ≡ ok (text, c')
    → IsU64 (length text) × (rest c ≡ name_bytes text ++ rest c')
unfolding length_prefixed
length_prefixed_ok text c c' hb h =
    let (len, c₁, took, body) = bind_ok varint take_bytes c text c' h in
    let (fits, spelt) = put_varint-varint len c c₁ hb took in
    let (split, exact) = take_bytes_ok len c₁ text c' body in
    rw exact (
      fits,
      spelt
          ∙ ap (λ t. put_varint [] len ++ t) split
          ∙ sym (append_assoc (put_varint [] len) text (rest c')),
    )

module _ (valid : Bytes → Bool) where
  pub decode_path-Reads :
      (name : Bytes) (c : Cursor) (ys : Bytes)
      → GoodName valid name
      → rest c ≡ name_bytes name ++ ys
      → Reads (decode_path valid) c name ys
  unfolding decode_path
  decode_path-Reads name c ys good e =
      Reads-bind length_prefixed _ c (length_prefixed-Reads name c ys good.short e)
        λ c' l. record { next = c'; runs = rw (good.utf8, good.legal); left = l }

  pub decode_path_ok :
      (name : Bytes) (c c' : Cursor)
      → All IsByte (rest c)
      → decode_path valid c ≡ ok (name, c')
      → GoodName valid name × (rest c ≡ name_bytes name ++ rest c')
  unfolding decode_path
  decode_path_ok name c c' hb h =
      let (text, c₁, took, body) = bind_ok length_prefixed _ c name c' h in
      let (short, split) = length_prefixed_ok text c c₁ hb took in
      elim (Bool-cases (is_utf8 text)) [
        | inr bad ↦ cc (rw bad at body)
        | inl utf8 ↦ elim (Bool-cases (valid text)) [
          | inr bad ↦ cc (rw (utf8, bad) at body)
          | inl legal ↦
              let done : ok (text, c₁) ≡ ok (name, c') = rw (utf8, legal) at body in
              let same : text ≡ name = cc done in
              let at_end : c₁ ≡ c' = cc done in
              (
                subst (GoodName valid) same (record { short = short; utf8 = utf8; legal = legal }),
                split ∙ rw (same, at_end),
              )
        ]
      ]
