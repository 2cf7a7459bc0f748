-- ===== src/Store/Codec/Varint.antt =====
-- `varint` on what `put_varint` wrote (store/codec.rs).
use Prim.Native.Nat.{bit_and, bit_or}
use native.Mathlib.Decide.{ℕ_discrete}
use native.Mathlib.Nat.{add_assoc, div-add-mod, mod-eq_of_lt, pow-le-pow_right}
use native.Mathlib.Numerals.{towards_suc}
use reldir.Base.{
  ℕ, zero, suc, ◌+◌, ◌-◌, ◌*◌, ◌/◌, ◌%◌, ◌^◌, ◌≤◌, ◌<◌, ◌≡◌, refl, ap, ◌∙◌, inl, inr, false, [],
  ◌∷◌, ◌++◌, arith, ◌==◌, subst, Bool-cases,
}
use reldir.Base.Bits.{bit_or-shifted}
use reldir.Store.Corruption.{Bytes, ok}
use reldir.Store.Codec.{Cursor, put_varint, u8_of_varint, varint_loop, varint, max_varint_bytes}
use reldir.Store.Codec.Reads.{rest, Reads, u8-Reads, u8_ok, Reads-bind}
use reldir.Store.Codec.Spelling.{IsU64, septets, low_bits, top_bit, put_varint-septets}

u8_of_varint-Reads : (c : Cursor) (b : ℕ) (ys : Bytes) → rest c ≡ b ∷ ys → Reads u8_of_varint c b ys
unfolding u8_of_varint
u8_of_varint-Reads c b ys e =
    let r = u8-Reads c b ys e in
    record { next = r.next; runs = rw (r.runs, u8_of_varint); left = r.left }

pub u8_of_varint_ok :
    (c : Cursor) (b : ℕ) (c' : Cursor) → u8_of_varint c ≡ ok (b, c') → rest c ≡ b ∷ rest c'
unfolding u8_of_varint
u8_of_varint_ok c b c' h = u8_ok c b c' (ground arith)

-- The value that `varint_loop` holds after a byte.
abbrev pub add_group : ℕ → ℕ → ℕ → ℕ
add_group value byte index = bit_or value (bit_and byte 0x7f * 2 ^ (7 * index) % 2 ^ 64)

pub group_small : (index : ℕ) → index < 9 → 128 * 2 ^ (7 * index) < 2 ^ 64
group_small index h =
    let small : 2 ^ (7 * index) ≤ 2 ^ 56 =
      pow-le-pow_right {n = 2} (omega arith) {i = 7 * index} {j = 56} (omega arith) in
    omega arith

pub add_group-sum :
    (value byte index : ℕ)
    → byte < 256
    → value < 2 ^ (7 * index)
    → byte % 128 * 2 ^ (7 * index) < 2 ^ 64
    → add_group value byte index ≡ value + byte % 128 * 2 ^ (7 * index)
add_group-sum value byte index hb hv hs =
    rw (low_bits byte hb, mod-eq_of_lt hs) (bit_or-shifted (7 * index) value (byte % 128) hv)

pub next_index : (index : ℕ) → 2 ^ (7 * (index + 1)) ≡ 128 * 2 ^ (7 * index)
next_index index =
    let shifted : 7 * (index + 1) ≡ 7 * index + 7 = omega arith in
    rw shifted (simp towards_suc (omega arith))

-- The last of ten bytes holds one bit.
tenth_byte : (index value v : ℕ) → index ≡ 9 → value + v * 2 ^ (7 * index) < 2 ^ 64 → v ≤ 1
tenth_byte index value v e h = let h' : value + v * 2 ^ 63 < 2 ^ 64 = rw e at h in omega arith

last_byte :
    (rounds index value v : ℕ) (c : Cursor) (ys : Bytes)
    → value < 2 ^ (7 * index)
    → value + v * 2 ^ (7 * index) < 2 ^ 64
    → v < 128
    → (0 < index → 0 < v)
    → rest c ≡ v ∷ ys
    → Reads (varint_loop (suc rounds) index value) c (value + v * 2 ^ (7 * index)) ys
unfolding varint_loop
last_byte rounds index value v c ys hv hs small more e =
    Reads-bind u8_of_varint _ c (u8_of_varint-Reads c v ys e) λ c' l. record {
      next = c';
      runs = ground (arith, tenth_byte index value v, top_bit v, add_group-sum value v index);
      left = l;
    }

split_group :
    (v index : ℕ)
    → v * 2 ^ (7 * index) ≡ v % 128 * 2 ^ (7 * index) + v / 128 * 2 ^ (7 * (index + 1))
split_group v index = omega (
  arith,
  ap (λ (t : ℕ). t * 2 ^ (7 * index)) (div-add-mod v 128),
  ap (λ (t : ℕ). v / 128 * t) (next_index index),
)

-- A byte with its top bit set hands its group on to the rounds that are left.
inner_byte :
    (rounds index value v : ℕ) (c : Cursor) {r : ℕ} {ys zs : Bytes}
    → value < 2 ^ (7 * index)
    → v < 128
    → index < 9
    → rest c ≡ (v + 128) ∷ zs
    → ((c' : Cursor)
        → rest c' ≡ zs
        → Reads (varint_loop rounds (index + 1) (value + v * 2 ^ (7 * index))) c' r ys)
    → Reads (varint_loop (suc rounds) index value) c r ys
unfolding varint_loop
inner_byte rounds index value v c hv hb hi e k =
    let group : (v + 128) % 128 ≡ v = omega arith in
    let sum : add_group value (v + 128) index ≡ value + v * 2 ^ (7 * index) =
      add_group-sum value (v + 128) index (omega arith) hv
        (rw group (grind (arith, group_small index hi)))
      ∙ rw group in
    let not_tenth : (index == max_varint_bytes - 1) ≡ false = ground arith in
    let marked : (bit_and (v + 128) 0x80 == 0) ≡ false = ground (arith, top_bit (v + 128)) in
    Reads-bind u8_of_varint _ c (u8_of_varint-Reads c (v + 128) _ e) λ c' l.
      let r' = k c' l in
      record { next = r'.next; runs = rw (not_tenth, marked, sum) r'.runs; left = r'.left }

pub groups_fit : (g p value : ℕ) → g < 128 → value < p → value + g * p < 128 * p
groups_fit g p value hg hv = let bound : g * p ≤ 127 * p = grind arith in omega arith

no_room : (index value v : ℕ) → index ≡ 10 → value + v * 2 ^ (7 * index) < 2 ^ 64 → ¬ (0 < v)
no_room index value v e h pos = let h' : value + v * 2 ^ 70 < 2 ^ 64 = rw e at h in omega arith

inner_room :
    (index value v : ℕ) → value + v * 2 ^ (7 * index) < 2 ^ 64 → 128 ≤ v → index ≤ 9 → index < 9
inner_room index value v h big le = elim (ℕ_discrete index 9) [
  | yes e ↦ absurd (omega (arith, tenth_byte index value v e h))
  | no ne ↦ omega arith
]

pub varint_loop-Reads :
    (rounds index value v : ℕ) (c : Cursor) (ys : Bytes)
    → rounds + index ≡ 10
    → value < 2 ^ (7 * index)
    → value + v * 2 ^ (7 * index) < 2 ^ 64
    → (0 < index → 0 < v)
    → rest c ≡ septets rounds v ++ ys
    → Reads (varint_loop rounds index value) c (value + v * 2 ^ (7 * index)) ys
unfolding septets
varint_loop-Reads zero index value v c ys hr hv hs more e =
    absurd (no_room index value v (omega arith) hs (more (omega arith)))
varint_loop-Reads (suc rounds) index value v c ys hr hv hs more e =
    elim (Bool-cases (v / 128 == 0)) [
      | inl last ↦ last_byte rounds index value v c ys hv hs (ground arith) more (e ∙ rw last)
      | inr inner ↦
          let split = split_group v index in
          rw split (
            rw (← add_assoc value (v % 128 * 2 ^ (7 * index)) (v / 128 * 2 ^ (7 * (index + 1)))) (
              inner_byte rounds index value (v % 128) c hv (omega arith)
                (inner_room index value v hs (ground arith) (omega arith)) (e ∙ rw inner)
                λ c' l.
                  varint_loop-Reads rounds (index + 1) (value + v % 128 * 2 ^ (7 * index)) (v / 128)
                    c' ys (omega arith)
                    (rw next_index (groups_fit (v % 128) (2 ^ (7 * index)) value (omega arith) hv))
                    (omega (arith, split)) (λ _. ground arith) l))
    ]

-- Reading what `put_varint` wrote gives the number back and leaves what follows it.
pub varint-put_varint :
    (v : ℕ) (c : Cursor) (ys : Bytes)
    → IsU64 v
    → rest c ≡ put_varint [] v ++ ys
    → Reads varint c v ys
unfolding varint
varint-put_varint v c ys h e =
    let sum : 0 + v * 2 ^ (7 * 0) ≡ v = omega arith in
    subst (λ x. Reads varint c x ys) sum
      (varint_loop-Reads 10 0 0 v c ys refl (omega arith) (omega arith) (λ p. absurd (omega arith))
        (e ∙ ap (λ (t : Bytes). t ++ ys) (put_varint-septets [] v h)))
