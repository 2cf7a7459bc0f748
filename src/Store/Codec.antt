-- ===== src/Store/Codec.antt =====
-- store/codec.rs: varints, the bounds-checked cursor, and JSON string escaping.
pub mod Reads
pub mod Spelling
pub mod Varint
pub mod Canonical
pub mod Lengths
mod Examples
use Prim.Native.Nat.{bit_and, bit_or, max}
use mathlib.Core.Logic.{dite}
use mathlib.Core.WellFounded.{Acc}
use native.Mathlib.Decide.{ℕ_discrete}
use reldir.Base.{
  ℕ, zero, suc, ◌+◌, ◌-◌, ◌*◌, ◌/◌, ◌%◌, ◌^◌, ◌<◌, Bool, ◌&&◌, List, [], ◌∷◌, ◌++◌, arith, ltb,
  ◌==◌, if◌then◌else◌, length, get_or, take, drop, lt_wf,
}
use reldir.Store.Corruption.{
  Bytes, Corruption, truncated, malformed_varint, trailing_bytes, Decoded, ok, err, out_of_fuel,
}

abbrev pub max_varint_bytes : ℕ
max_varint_bytes = 10

-- The loop of `put_varint`: it ends because `value >> 7` is smaller while it is not 0.
put_varint_loop : Bytes → (value : ℕ) → Acc ◌<◌ value → Bytes
put_varint_loop out value (Acc.intro _ smaller) =
    let byte = value % 2 ^ 7 in
    dite (ℕ_discrete (value / 2 ^ 7) 0) (λ _. out ++ byte ∷ [])
      λ more.
        put_varint_loop (out ++ bit_or byte 0x80 ∷ []) (value / 2 ^ 7)
          (smaller (value / 2 ^ 7) (omega arith))

unfoldable pub put_varint : Bytes → ℕ → Bytes
unfolding put_varint_loop lt_wf ℕ_discrete
put_varint out value = put_varint_loop out value (lt_wf.apply value)

-- `u64::leading_zeros`, over the `bits` lowest bits.
unfoldable pub leading_zeros : ℕ → ℕ → ℕ
leading_zeros zero value = 0
leading_zeros (suc bits) value = if value / 2 ^ bits == 0 then suc (leading_zeros bits value) else 0

unfoldable pub varint_len : ℕ → ℕ
varint_len value = let bits = 64 - leading_zeros 64 value in max ((bits + 6) / 7) 1

-- A read position over a byte slice.
pub record Cursor : Type 0 where
  pub bytes : Bytes
  pub at : ℕ

-- A method of `&mut Cursor`. Every error is returned at once, so the position it leaves is not kept.
abbrev pub Reader : Type 0 → Type 0
Reader A = Cursor → Decoded (A × Cursor)

abbrev pub pure : {A : Type 0} → A → Reader A
pure a c = ok (a, c)

abbrev pub fail : {A : Type 0} → Corruption → Reader A
fail e c = err e

infixl 5 ◌>>=◌
abbrev pub ◌>>=◌ : {A B : Type 0} → Reader A → (A → Reader B) → Reader B
◌>>=◌ m f c = elim (m c) [ ok (a, c') ↦ f a c' | err e ↦ err e | out_of_fuel ↦ out_of_fuel ]

abbrev pub new : Bytes → Cursor
new bytes = record { bytes = bytes; at = 0 }

abbrev pub position : Cursor → ℕ
position c = c.at

unfoldable pub remaining : Cursor → ℕ
remaining c = length c.bytes - c.at

unfoldable pub is_empty : Cursor → Bool
is_empty c = remaining c == 0

abbrev pub advance : Cursor → ℕ → Cursor
advance c n = record c { at = c.at + n }

unfoldable pub take_bytes : ℕ → Reader Bytes
take_bytes n c =
    if ltb (remaining c) n then err truncated else ok (take n (drop c.at c.bytes), advance c n)

-- `self.take(1)?[0]`: `take` returned one byte, so the default of `get_or` is never read.
unfoldable pub u8 : Reader ℕ
u8 = do xs ← take_bytes 1; pure (get_or xs 0 0)

unfoldable pub array : ℕ → Reader Bytes
array n = take_bytes n

-- `from_le_bytes`
unfoldable pub from_le_bytes : Bytes → ℕ
from_le_bytes [] = 0
from_le_bytes (b ∷ bs) = b + 2 ^ 8 * from_le_bytes bs

unfoldable pub u32_le : Reader ℕ
u32_le = do xs ← array 4; pure (from_le_bytes xs)

unfoldable pub u64_le : Reader ℕ
u64_le = do xs ← array 8; pure (from_le_bytes xs)

-- `self.u8().map_err(|_| Corruption::MalformedVarint)`
unfoldable pub u8_of_varint : Reader ℕ
u8_of_varint c = elim (u8 c) [
  | ok r ↦ ok r
  | err _ ↦ err malformed_varint
  | out_of_fuel ↦ out_of_fuel
]

-- The `for` loop of `varint`: `rounds` are left, and `index` are done.
unfoldable pub varint_loop : ℕ → ℕ → ℕ → Reader ℕ
varint_loop zero index value = fail malformed_varint
varint_loop (suc rounds) index value = do
  byte ← u8_of_varint
  let value' = bit_or value (bit_and byte 0x7f * 2 ^ (7 * index) % 2 ^ 64)
  let more = varint_loop rounds (index + 1) value'
  if index == max_varint_bytes - 1 && ltb 1 byte
      then fail malformed_varint
      else if bit_and byte 0x80 == 0
      then (if ltb 0 index && byte == 0 then fail malformed_varint else pure value')
      else more

unfoldable pub varint : Reader ℕ
varint = varint_loop max_varint_bytes 0 0

-- The target's `usize` has 64 bits, so `usize::try_from` keeps every length.
unfoldable pub length_prefixed : Reader Bytes
length_prefixed = do len ← varint; take_bytes len

unfoldable pub finish : Reader (Unit {0})
finish c = if remaining c == 0 then ok (tt, c) else err (trailing_bytes (remaining c))
