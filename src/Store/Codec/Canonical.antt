-- ===== src/Store/Codec/Canonical.antt =====
-- The bytes that `varint` accepts (store/codec.rs).
use Prim.Native.Nat.{bit_and}
use native.Mathlib.Decide.{ℕ_discrete}
use native.Mathlib.Nat.{mod-eq_of_lt}
use reldir.Base.{
  ℕ, zero, suc, ◌+◌, ◌-◌, ◌*◌, ◌/◌, ◌%◌, ◌^◌, ◌≤◌, ◌<◌, ◌≡◌, refl, ap, ◌∙◌, ◌⊎◌, inl, inr, ◌&&◌,
  Bool, true, false, [], ◌∷◌, ◌++◌, arith, ◌==◌, ltb, if◌then◌else◌, All, subst, Bool-cases,
}
use reldir.Store.Corruption.{malformed_varint, Bytes, ok}
use reldir.Store.Codec.{
  Cursor, Reader, pure, fail, put_varint, u8_of_varint, varint_loop, varint, max_varint_bytes,
}
use reldir.Store.Codec.Reads.{rest, bind_ok}
use reldir.Store.Codec.Spelling.{IsByte, IsU64, septets, top_bit, put_varint-septets}
use reldir.Store.Codec.Varint.{
  u8_of_varint_ok, add_group, add_group-sum, group_small, groups_fit, next_index,
}

-- What `varint_loop` accepts: the spelling of a number that fits 64 bits.
record Spells (rounds index value r : ℕ) (c c' : Cursor) : Type 0 where
  v : ℕ
  sum : r ≡ value + v * 2 ^ (7 * index)
  spelt : rest c ≡ septets rounds v ++ rest c'
  minimal : 0 < index → 0 < v
  fits : r < 2 ^ 64

group_room :
    (index value g : ℕ)
    → index ≤ 9
    → value < 2 ^ (7 * index)
    → g < 128
    → (index ≡ 9 → g ≤ 1)
    → value + g * 2 ^ (7 * index) < 2 ^ 64
group_room index value g hi hv hg ten = elim (ℕ_discrete index 9) [
  | yes e ↦
      let at_nine : value < 2 ^ 63 = rw e at hv in let one : g ≤ 1 = ten e in rw e (omega arith)
  | no ne ↦
      omega (arith, group_small index (omega arith), groups_fit g (2 ^ (7 * index)) value hg hv)
]

Spells-last :
    (rounds index value byte : ℕ) (c c' : Cursor)
    → index ≤ 9
    → value < 2 ^ (7 * index)
    → byte < 128
    → (index ≡ 9 → byte ≤ 1)
    → (0 < index → 0 < byte)
    → rest c ≡ byte ∷ rest c'
    → Spells (suc rounds) index value (add_group value byte index) c c'
unfolding septets
Spells-last rounds index value byte c c' hi hv hb ten minimal e =
    let room = group_room index value byte hi hv hb ten in
    let low : byte % 128 ≡ byte = mod-eq_of_lt hb in
    let sum : add_group value byte index ≡ value + byte * 2 ^ (7 * index) =
      add_group-sum value byte index (omega arith) hv (rw low (omega arith)) ∙ rw low in
    let short : (byte / 128 == 0) ≡ true = ground arith in
    record { v = byte; sum = sum; spelt = rw short e; minimal = minimal; fits = rw sum room }

Spells-more :
    (rounds index value byte r : ℕ) (c c₁ c' : Cursor)
    → index < 9
    → value < 2 ^ (7 * index)
    → byte < 256
    → 128 ≤ byte
    → rest c ≡ byte ∷ rest c₁
    → Spells rounds (index + 1) (value + byte % 128 * 2 ^ (7 * index)) r c₁ c'
    → Spells (suc rounds) index value r c c'
unfolding septets
Spells-more rounds index value byte r c c₁ c' hi hv hb big e s =
    let w = byte % 128 + 128 * s.v in
    let positive : 0 < s.v = s.minimal (omega arith) in
    let high : w / 128 ≡ s.v = omega arith in
    let low : w % 128 + 128 ≡ byte = omega arith in
    let long : (s.v == 0) ≡ false = ground arith in
    record {
      v = w;
      sum = s.sum ∙ omega (arith, ap (λ (t : ℕ). s.v * t) (next_index index));
      spelt = rw (high, long, low) (e ∙ ap (λ (t : Bytes). byte ∷ t) s.spelt);
      minimal = λ _. omega arith;
      fits = s.fits;
    }

not_last : (index byte : ℕ) → index ≤ 9 → 128 ≤ byte → (index ≡ 9 → byte ≤ 1) → index < 9
not_last index byte hi big ten = elim (ℕ_discrete index 9) [
  | yes e ↦ absurd (omega (arith, ten e))
  | no ne ↦ omega arith
]

abbrev pub tenth_too_big : ℕ → ℕ → Bool
tenth_too_big index byte = index == max_varint_bytes - 1 && ltb 1 byte

-- One byte, judged as the body of `varint_loop` does, with `more` for the rounds that are left.
abbrev pub judge : ℕ → ℕ → ℕ → Reader ℕ → Reader ℕ
judge index value byte more =
    if tenth_too_big index byte
    then fail malformed_varint
    else if bit_and byte 0x80 == 0
    then (if ltb 0 index && byte == 0
        then fail malformed_varint
        else pure (add_group value byte index))
    else more

judge_ok :
    (index value byte r : ℕ) (more : Reader ℕ) (c c' : Cursor)
    → byte < 256
    → judge index value byte more c ≡ ok (r, c')
    → (index ≡ 9 → byte ≤ 1)
      × ((byte < 128) × (0 < index → 0 < byte) × (add_group value byte index ≡ r) × (c ≡ c')
          ⊎ (128 ≤ byte) × (more c ≡ ok (r, c')))
judge_ok index value byte r more c c' hb h = elim (Bool-cases (tenth_too_big index byte)) [
  | inl t ↦ cc (rw t at h)
  | inr t ↦ elim (Bool-cases (bit_and byte 0x80 == 0)) [
    | inl l ↦ elim (Bool-cases (ltb 0 index && byte == 0)) [
      | inl z ↦ cc (rw (t, l, z) at h)
      | inr z ↦
          let done : ok (add_group value byte index, c) ≡ ok (r, c') = rw (t, l, z) at h in
          (ground arith, inl (ground (arith, top_bit byte), ground arith, cc done, cc done))
    ]
    | inr l ↦
        let going : more c ≡ ok (r, c') = rw (t, l) at h in
        (ground arith, inr (ground (arith, top_bit byte), going))
  ]
]

varint_loop_ok :
    (rounds index value r : ℕ) (c c' : Cursor)
    → rounds + index ≡ 10
    → value < 2 ^ (7 * index)
    → All IsByte (rest c)
    → varint_loop rounds index value c ≡ ok (r, c')
    → Spells rounds index value r c c'
unfolding varint_loop
varint_loop_ok zero index value r c c' hr hv hb h = cc
varint_loop_ok (suc rounds) index value r c c' hr hv hb h =
    let (byte, c₁, took, body) = bind_ok u8_of_varint _ c r c' h in
    let split = u8_of_varint_ok c byte c₁ took in
    let bytes : All IsByte (byte ∷ rest c₁) = subst (All IsByte) split hb in
    let value' = add_group value byte index in
    let (ten, outcome) =
      judge_ok index value byte r (varint_loop rounds (index + 1) value') c₁ c' bytes.0 body in
    elim outcome [
      | inl (small, minimal, sum, same) ↦
          subst (λ x. Spells (suc rounds) index value x c c') sum
            (Spells-last rounds index value byte c c' (omega arith) hv small ten minimal
              (split ∙ ap (λ (x : Cursor). byte ∷ rest x) same))
      | inr (big, going) ↦
          let room : index < 9 = not_last index byte (omega arith) big ten in
          let P = 2 ^ (7 * index) in
          let sum : value' ≡ value + byte % 128 * P = add_group-sum value byte index bytes.0 hv (
            omega
              (arith, groups_fit (byte % 128) P value (omega arith) hv, group_small index room)) in
          Spells-more rounds index value byte r c c₁ c' room hv bytes.0 big split (
            subst (λ x. Spells rounds (index + 1) x r c₁ c') sum
              (varint_loop_ok rounds (index + 1) value' r c₁ c' (omega arith)
                (rw (sum, next_index index) (groups_fit (byte % 128) P value (omega arith) hv))
                bytes.1 going))
    ]

-- `varint` accepts nothing but what `put_varint` writes: a number has one spelling.
pub put_varint-varint :
    (v : ℕ) (c c' : Cursor)
    → All IsByte (rest c)
    → varint c ≡ ok (v, c')
    → IsU64 v × (rest c ≡ put_varint [] v ++ rest c')
unfolding varint
put_varint-varint v c c' h e =
    let s = varint_loop_ok 10 0 0 v c c' refl (omega arith) h e in
    let same : s.v ≡ v = omega (arith, s.sum) in
    (s.fits, s.spelt ∙ rw (same, put_varint-septets [] v s.fits))
