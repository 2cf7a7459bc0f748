-- ===== src/Base/Bits.antt =====
-- Facts about `bit_or` and `bit_and` at variables.
use Prim.Native.Nat.{
  ℕ, zero, suc, ◌+◌, ◌*◌, ◌/◌, ◌%◌, ◌^◌, ◌≤◌, ◌<◌, max, bit_or, digits, bit_or-bitwise,
}
use mathlib.Core.Path.{◌≡◌, refl, ap}
use mathlib.Core.Bool.{Bool, true, ◌&&◌}
use reldir.Base.Tests.{◌==◌}
use native.Mathlib.Omega.{arith}
use native.Mathlib.Nat.{pow-suc}

abbrev or_digits : ℕ → ℕ → ℕ → ℕ
or_digits n a b = digits (λ b. b) max n a b

or_digits_fuel : (n m a b : ℕ) → a ≤ n → a ≤ m → or_digits n a b ≡ or_digits m a b
or_digits_fuel zero zero a b p q = refl
or_digits_fuel zero (suc m) zero b p q = refl
or_digits_fuel zero (suc m) (suc a) b p q = absurd (omega arith)
or_digits_fuel (suc n) zero zero b p q = refl
or_digits_fuel (suc n) zero (suc a) b p q = absurd (omega arith)
or_digits_fuel (suc n) (suc m) zero b p q = refl
or_digits_fuel (suc n) (suc m) (suc a) b p q =
    omega (arith, or_digits_fuel n m (suc a / 2) (b / 2) (omega arith) (omega arith))

pub zero-bit_or : (b : ℕ) → bit_or 0 b ≡ b
zero-bit_or b = bit_or-bitwise 0 b

pub bit_or_step : (a b : ℕ) → bit_or a b ≡ bit_or (a / 2) (b / 2) * 2 + max (a % 2) (b % 2)
bit_or_step zero b = omega (arith, zero-bit_or b, zero-bit_or (b / 2))
bit_or_step (suc a) b = omega (
  arith,
  bit_or-bitwise (suc a) b,
  bit_or-bitwise (suc a / 2) (b / 2),
  or_digits_fuel a (suc a / 2) (suc a / 2) (b / 2) (omega arith) (omega arith),
)

-- Bits below 2 ^ k and a multiple of 2 ^ k have none in common.
pub bit_or-shifted : (k a g : ℕ) → a < 2 ^ k → bit_or a (g * 2 ^ k) ≡ a + g * 2 ^ k
bit_or-shifted zero zero g h = omega (arith, zero-bit_or (g * 2 ^ 0))
bit_or-shifted zero (suc a) g h = absurd (omega arith)
bit_or-shifted (suc k) a g h =
    let doubled : g * 2 ^ suc k ≡ g * 2 ^ k * 2 =
      omega (arith, ap (λ (t : ℕ). g * t) (pow-suc 2 k)) in
    let halved : g * 2 ^ suc k / 2 ≡ g * 2 ^ k = omega arith in
    let smaller : a / 2 < 2 ^ k = omega (arith, pow-suc 2 k) in
    rw (bit_or_step a (g * 2 ^ suc k), halved, bit_or-shifted k (a / 2) g smaller) (omega arith)

-- Two functions agree below `n`, by evaluation.
unfoldable pub all_below : ℕ → (ℕ → ℕ) → (ℕ → ℕ) → Bool
all_below zero f g = true
all_below (suc n) f g = f n == g n && all_below n f g

pub all_below_sound : (n : ℕ) (f g : ℕ → ℕ) → all_below n f g ≡ true → (x : ℕ) → x < n → f x ≡ g x
unfolding all_below
all_below_sound zero f g h x lt = absurd (omega arith)
all_below_sound (suc n) f g h x lt = ground (arith, all_below_sound n f g (ground arith) x)
