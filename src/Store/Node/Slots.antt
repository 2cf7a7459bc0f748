-- ===== src/Store/Node/Slots.antt =====
-- The 64 slots of a mid or a table.
use mathlib.Core.List.{append_assoc, append-nil}
use reldir.Base.{ℕ, zero, suc, ◌+◌, ◌≡◌, refl, sym, ap, ◌∙◌, [], ◌∷◌, ◌++◌, arith, length, Option}
use reldir.Store.Corruption.{Bytes, ok}
use reldir.Store.Codec.{Cursor}
use reldir.Store.Codec.Reads.{rest, Reads, Reads-bind, bind_ok}
use reldir.Store.Node.{Child, Children, child_bytes, put_children, decode_child, decode_slots}
use reldir.Store.Node.Collect.{joined}
use reldir.Store.Node.Digests.{GoodChild, decode_child-Reads, decode_child_ok}

abbrev pub GoodSlots : Children → Type 0
GoodSlots [] = Unit
GoodSlots (o ∷ os) = GoodChild o × GoodSlots os

pub put_children-joined :
    (out : Bytes) (os : Children) → put_children out os ≡ out ++ joined child_bytes os
unfolding put_children
put_children-joined out [] = sym (append-nil out)
put_children-joined out (o ∷ os) =
    put_children-joined (out ++ child_bytes o) os
    ∙ append_assoc out (child_bytes o) (joined child_bytes os)

pub decode_slots-Reads :
    (os : Children) (n index : ℕ) (c : Cursor) (ys : Bytes)
    → length os ≡ n
    → GoodSlots os
    → rest c ≡ joined child_bytes os ++ ys
    → Reads (decode_slots n index) c os ys
unfolding decode_slots
decode_slots-Reads [] zero index c ys h g e = record { next = c; runs = refl; left = e }
decode_slots-Reads [] (suc n) index c ys h g e = absurd (omega arith)
decode_slots-Reads (o ∷ os) zero index c ys h g e = absurd (omega arith)
decode_slots-Reads (o ∷ os) (suc n) index c ys h g e =
    Reads-bind (decode_child index) _ c
      (decode_child-Reads index o c (joined child_bytes os ++ ys) g.0
        (e ∙ append_assoc (child_bytes o) (joined child_bytes os) ys))
      λ c₁ l.
        Reads-bind (decode_slots n (index + 1)) _ c₁
          (decode_slots-Reads os n (index + 1) c₁ ys (omega arith) g.1 l)
          λ c₂ l₂. record { next = c₂; runs = refl; left = l₂ }

-- What `n` slots that decode hold.
pub record Slots (n : ℕ) (os : Children) (c c' : Cursor) : Type 0 where
  pub size : length os ≡ n
  pub good : GoodSlots os
  pub split : rest c ≡ joined child_bytes os ++ rest c'

Slots-cons :
    (n : ℕ) (o : Option Child) (os : Children) (c c₁ c₂ : Cursor)
    → GoodChild o
    → rest c ≡ child_bytes o ++ rest c₁
    → Slots n os c₁ c₂
    → Slots (suc n) (o ∷ os) c c₂
Slots-cons n o os c c₁ c₂ g e s = record {
  size = ap suc s.size;
  good = (g, s.good);
  split =
      e
      ∙ ap (λ t. child_bytes o ++ t) s.split
      ∙ sym (append_assoc (child_bytes o) (joined child_bytes os) (rest c₂));
}

pub decode_slots_ok :
    (n index : ℕ) (os : Children) (c c' : Cursor)
    → decode_slots n index c ≡ ok (os, c')
    → Slots n os c c'
unfolding decode_slots
decode_slots_ok zero index os c c' h =
    let done : ok ([], c) ≡ ok (os, c') = h in
    let os_eq : [] ≡ os = cc done in
    let c_eq : c ≡ c' = cc done in
    rw (← os_eq) (record { size = refl; good = tt; split = ap rest c_eq })
decode_slots_ok (suc n) index os c c' h =
    let (o, c₁, took, more) = bind_ok (decode_child index) _ c os c' h in
    let (good, split) = decode_child_ok index o c c₁ took in
    let (os', c₂, took₂, body) = bind_ok (decode_slots n (index + 1)) _ c₁ os c' more in
    let os_eq : o ∷ os' ≡ os = cc body in
    let c_eq : c₂ ≡ c' = cc body in
    let s = decode_slots_ok n (index + 1) os' c₁ c₂ took₂ in
    rw (← os_eq, ← c_eq) (Slots-cons n o os' c c₁ c₂ good split s)
