-- ===== src/Store/Codec/Lengths.antt =====
-- `varint_len` beside `put_varint` (store/codec.rs).
use Prim.Native.Nat.{max}
use native.Mathlib.Nat.{div-eq_of_lt, div-add-mod, mod-lt, pow-le-pow_right, pow-suc}
use reldir.Base.{
  ℕ, zero, suc, ◌≡◌, ◌≤◌, ◌<◌, ◌+◌, ◌-◌, ◌*◌, ◌/◌, ◌%◌, ◌^◌, ◌⊎◌, refl, sym, ap, ◌∙◌, arith, inl,
  inr, true, false, ltb, leb, length, length-append, ◌==◌, Bool-cases,
}
use reldir.Store.Corruption.{Bytes}
use reldir.Store.Codec.{put_varint, varint_len, leading_zeros}
use reldir.Store.Codec.Spelling.{IsU64, septets, put_varint-septets}

two_pow_pos : (b : ℕ) → 0 < 2 ^ b
two_pow_pos b = pow-le-pow_right {n = 2} (omega arith) {i = 0} {j = b} (omega arith)

below : (v b : ℕ) → v / 2 ^ b == 0 ≡ true → v < 2 ^ b
below v b e =
    let z : v / 2 ^ b ≡ 0 = ground (arith, e) in
    let parts : 2 ^ b * 0 + v % 2 ^ b ≡ v =
      ap (λ q. 2 ^ b * q + v % 2 ^ b) (sym z) ∙ div-add-mod v (2 ^ b) in
    let small : v % 2 ^ b < 2 ^ b = mod-lt v (two_pow_pos b) in omega (arith, parts, small)

above : (v b : ℕ) → v / 2 ^ b == 0 ≡ false → 2 ^ b ≤ v
above v b e = elim (Bool-cases (ltb v (2 ^ b))) [
  | inl y ↦ let z : v / 2 ^ b ≡ 0 = div-eq_of_lt (ground (arith, y)) in absurd (grind (arith, z, e))
  | inr n ↦ ground (arith, n)
]

leading_zeros-below : (w m v : ℕ) → v < 2 ^ m → m ≤ w → w ≤ m + leading_zeros w v
unfolding leading_zeros
leading_zeros-below zero m v h k = omega arith
leading_zeros-below (suc b) m v h k = elim (Bool-cases (v / 2 ^ b == 0)) [
  | inl y ↦ rw y (elim (Bool-cases (leb m b)) [
    | inl i ↦ omega (arith, leading_zeros-below b m v h (ground (arith, i)))
    | inr j ↦ ground (arith, j)
  ])
  | inr n ↦ rw n (elim (Bool-cases (leb m b)) [
    | inl i ↦ absurd (
        omega (
          arith,
          h,
          above v b n,
          pow-le-pow_right {n = 2} (omega arith) {i = m} {j = b} (ground (arith, i)),
        ))
    | inr j ↦ ground (arith, j)
  ])
]

leading_zeros-above : (w m v : ℕ) → 2 ^ m ≤ v → m < w → leading_zeros w v + m < w
unfolding leading_zeros
leading_zeros-above zero m v h k = omega (arith, k)
leading_zeros-above (suc b) m v h k = elim (Bool-cases (v / 2 ^ b == 0)) [
  | inl y ↦ rw y (elim (Bool-cases (ltb m b)) [
    | inl i ↦ omega (arith, leading_zeros-above b m v h (ground (arith, i)))
    | inr j ↦ absurd (
        omega (
          arith,
          h,
          below v b y,
          pow-le-pow_right {n = 2} (omega arith) {i = b} {j = m} (ground (arith, j)),
        ))
  ])
  | inr n ↦ rw n (omega (arith, k))
]

-- A number of `j + 1` groups of seven bits is spelled by as many bytes.
length-septets :
    (j k v : ℕ) → (128 ^ j ≤ v) ⊎ (j ≡ 0) → v < 128 ^ suc j → j < k → length (septets k v) ≡ suc j
unfolding septets
length-septets j zero v g h i = absurd (omega (arith, i))
length-septets zero (suc k) v g h i = ground (arith, h)
length-septets (suc j) (suc k) v (inr e) h i = absurd (omega (arith, e))
length-septets (suc j) (suc k) v (inl g) h i =
    let one_more : 128 ^ suc j ≡ 128 ^ j * 128 = pow-suc 128 j in
    let two_more : 128 ^ suc (suc j) ≡ 128 ^ suc j * 128 = pow-suc 128 (suc j) in
    let positive : 1 ≤ 128 ^ j =
      pow-le-pow_right {n = 128} (omega arith) {i = 0} {j = j} (omega arith) in
    let rest =
      length-septets j k (v / 128) (inl (omega (arith, g, one_more))) (omega (arith, h, two_more))
        (omega (arith, i)) in
    let more : (v / 128 == 0) ≡ false = ground (arith, g, one_more, positive) in
    rw more (omega (arith, rest))

groups : (bits j : ℕ) → (7 * j < bits) ⊎ (j ≡ 0) → bits ≤ 7 * j + 7 → max ((bits + 6) / 7) 1 ≡ suc j
groups bits j (inl g) h = omega (arith, g, h)
groups bits j (inr e) h = omega (arith, e, h)

-- The number of bits of a `u64` that is at least 2 ^ 7 j, and below 2 ^ (7 j + 7).
varint_len-bits :
    (j v : ℕ)
    → (2 ^ (7 * j) ≤ v) ⊎ (j ≡ 0)
    → v < 2 ^ (7 * j + 7)
    → j < 10
    → IsU64 v
    → varint_len v ≡ suc j
unfolding varint_len
varint_len-bits j v g h i u = groups (64 - leading_zeros 64 v) j (lower g) upper
  where
    lower : (2 ^ (7 * j) ≤ v) ⊎ (j ≡ 0) → (7 * j < 64 - leading_zeros 64 v) ⊎ (j ≡ 0)
    lower (inl g) = inl (omega (arith, i, leading_zeros-above 64 (7 * j) v g (omega (arith, i))))
    lower (inr e) = inr e

    upper : 64 - leading_zeros 64 v ≤ 7 * j + 7
    upper = elim (Bool-cases (leb (7 * j + 7) 64)) [
      | inl y ↦ omega (arith, leading_zeros-below 64 (7 * j + 7) v h (ground (arith, y)))
      | inr n ↦ ground (arith, n)
    ]

same_length :
    (j v : ℕ)
    → (128 ^ j ≤ v) ⊎ (j ≡ 0)
    → (2 ^ (7 * j) ≤ v) ⊎ (j ≡ 0)
    → v < 128 ^ suc j
    → v < 2 ^ (7 * j + 7)
    → j < 10
    → IsU64 v
    → length (septets 10 v) ≡ varint_len v
same_length j v g g' h h' i u = length-septets j 10 v g h i ∙ sym (varint_len-bits j v g' h' i u)

-- Seven more bits.
pow_seven : (a : ℕ) → 2 ^ (a + 7) ≡ 2 ^ a * 128
pow_seven a =
    let up : a + 7 ≡ suc (suc (suc (suc (suc (suc (suc a)))))) = omega arith in
    ap (λ n. 2 ^ n) up
    ∙ omega (
      arith,
      pow-suc 2 a,
      pow-suc 2 (suc a),
      pow-suc 2 (suc (suc a)),
      pow-suc 2 (suc (suc (suc a))),
      pow-suc 2 (suc (suc (suc (suc a)))),
      pow-suc 2 (suc (suc (suc (suc (suc a))))),
      pow-suc 2 (suc (suc (suc (suc (suc (suc a)))))),
    )

pow_128 : (j : ℕ) → 128 ^ j ≡ 2 ^ (7 * j)
pow_128 zero = refl
pow_128 (suc j) =
    let up : 7 * suc j ≡ 7 * j + 7 = omega arith in
    rw (pow-suc 128 j, up, pow_seven (7 * j), pow_128 j) refl

in_range :
    (j v : ℕ)
    → (128 ^ j ≤ v) ⊎ (j ≡ 0)
    → v < 128 ^ suc j
    → j < 10
    → IsU64 v
    → length (septets 10 v) ≡ varint_len v
in_range j v g h i u =
    let up : 7 * suc j ≡ 7 * j + 7 = omega arith in
    let high : 128 ^ suc j ≡ 2 ^ (7 * j + 7) = pow_128 (suc j) ∙ ap (λ n. 2 ^ n) up in
    same_length j v g (bits g) h (omega (arith, h, high)) i u
  where
    bits : (128 ^ j ≤ v) ⊎ (j ≡ 0) → (2 ^ (7 * j) ≤ v) ⊎ (j ≡ 0)
    bits (inl a) = inl (omega (arith, a, pow_128 j))
    bits (inr e) = inr e

-- The ranges of `u64`, from the one that `j` bytes do not reach.
length-septets-from :
    (n j v : ℕ)
    → n + j ≡ 9
    → (128 ^ j ≤ v) ⊎ (j ≡ 0)
    → IsU64 v
    → length (septets 10 v) ≡ varint_len v
length-septets-from zero j v e g u =
    let ten : suc j ≡ 10 = omega (arith, e) in
    let last : 128 ^ suc j ≡ 128 ^ 10 = ap (λ n. 128 ^ n) ten in
    in_range j v g (omega (arith, last, u)) (omega (arith, e)) u
length-septets-from (suc n) j v e g u = elim (Bool-cases (ltb v (128 ^ suc j))) [
  | inl y ↦ in_range j v g (ground (arith, y)) (omega (arith, e)) u
  | inr m ↦ length-septets-from n (suc j) v (omega (arith, e)) (inl (ground (arith, m))) u
]

-- `varint_len` is the number of bytes that `put_varint` appends, on every `u64`.
pub length-put_varint :
    (out : Bytes) (v : ℕ) → IsU64 v → length (put_varint out v) ≡ length out + varint_len v
length-put_varint out v u =
    ap length (put_varint-septets out v u)
    ∙ length-append out (septets 10 v)
    ∙ ap (λ n. length out + n) (length-septets-from 9 0 v refl (inr refl) u)
