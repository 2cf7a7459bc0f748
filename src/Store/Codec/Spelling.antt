-- ===== src/Store/Codec/Spelling.antt =====
-- The one spelling of a number that `put_varint` writes.
use Prim.Native.Nat.{bit_and, bit_or}
use mathlib.Core.List.{append_assoc}
use mathlib.Core.WellFounded.{Acc}
use reldir.Base.{
  ℕ, zero, suc, ◌+◌, ◌*◌, ◌/◌, ◌%◌, ◌^◌, ◌<◌, ◌≡◌, refl, [], ◌∷◌, ◌++◌, arith, ◌==◌, if◌then◌else◌,
  lt_wf,
}
use reldir.Base.Bits.{all_below, all_below_sound}
use reldir.Store.Corruption.{Bytes}
use reldir.Store.Codec.{put_varint_loop, put_varint}

abbrev pub IsByte : ℕ → Type 0
IsByte b = b < 256

abbrev pub IsU64 : ℕ → Type 0
IsU64 v = v < 2 ^ 64

-- The groups of seven bits of `v`, lowest first, in at most `k` bytes.
unfoldable pub septets : ℕ → ℕ → Bytes
septets zero v = []
septets (suc k) v =
    let more = septets k (v / 128) in if v / 128 == 0 then v ∷ [] else (v % 128 + 128) ∷ more

pub low_bits : (b : ℕ) → b < 256 → bit_and b 0x7f ≡ b % 128
unfolding all_below
low_bits b h = all_below_sound 256 (λ x. bit_and x 0x7f) (λ x. x % 128) refl b h

pub top_bit : (b : ℕ) → b < 256 → bit_and b 0x80 ≡ b / 128 * 128
unfolding all_below
top_bit b h = all_below_sound 256 (λ x. bit_and x 0x80) (λ x. x / 128 * 128) refl b h

set_top_bit : (b : ℕ) → b < 128 → bit_or b 0x80 ≡ b + 128
unfolding all_below
set_top_bit b h = all_below_sound 128 (λ x. bit_or x 0x80) (λ x. x + 128) refl b h

put_varint_loop-septets :
    (k : ℕ) (out : Bytes) (v : ℕ) (w : Acc ◌<◌ v)
    → v < 128 ^ suc k
    → put_varint_loop out v w ≡ out ++ septets (suc k) v
unfolding put_varint_loop septets
put_varint_loop-septets zero out v (Acc.intro _ smaller) h = ground arith
put_varint_loop-septets (suc k) out v (Acc.intro _ smaller) h = grind (
  arith,
  set_top_bit (v % 128),
  λ (w : Acc ◌<◌ (v / 128)).
      put_varint_loop-septets k (out ++ (v % 128 + 128) ∷ []) (v / 128) w (omega arith),
  append_assoc out ((v % 128 + 128) ∷ []) (septets (suc k) (v / 128)),
)

-- On every `u64`, `put_varint` appends at most ten bytes to `out`.
pub put_varint-septets : (out : Bytes) (v : ℕ) → IsU64 v → put_varint out v ≡ out ++ septets 10 v
unfolding put_varint
put_varint-septets out v h = put_varint_loop-septets 9 out v (lt_wf.apply v) (omega arith)
