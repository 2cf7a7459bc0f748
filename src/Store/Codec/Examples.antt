-- ===== src/Store/Codec/Examples.antt =====
-- Runs of the codec, and its theorems at concrete inputs.
use reldir.Base.{◌≡◌, refl, [], ◌∷◌, ◌++◌, arith, length, ◌+◌, ℕ}
use reldir.Store.Corruption.{Bytes, ok, err, malformed_varint}
use reldir.Store.Codec.{
  new, advance, put_varint, varint_len, varint, varint_loop, u8_of_varint, u8, take_bytes,
  remaining,
}
use reldir.Store.Codec.Reads.{Reads}
use reldir.Store.Codec.Spelling.{IsU64}
use reldir.Store.Codec.Varint.{varint-put_varint}
use reldir.Store.Codec.Lengths.{length-put_varint}
use reldir.Store.Codec.Canonical.{put_varint-varint}

put_300 : put_varint [] 300 ≡ 0xac ∷ 0x02 ∷ []
unfolding put_varint
put_300 = refl

abbrev three_hundred : Bytes
three_hundred = 0xac ∷ 0x02 ∷ 7 ∷ []

varint_300 : varint (new three_hundred) ≡ ok (300, advance (new three_hundred) 2)
unfolding varint varint_loop u8_of_varint u8 take_bytes remaining
varint_300 = refl

varint_padded : varint (new (0x80 ∷ 0x00 ∷ [])) ≡ err malformed_varint
unfolding varint varint_loop u8_of_varint u8 take_bytes remaining
varint_padded = refl

varint-put_varint_example : Reads varint (new three_hundred) 300 (7 ∷ [])
unfolding put_varint
varint-put_varint_example = varint-put_varint 300 (new three_hundred) (7 ∷ []) (omega arith) refl

put_varint-varint_example : IsU64 300 × (three_hundred ≡ put_varint [] 300 ++ 7 ∷ [])
put_varint-varint_example =
    put_varint-varint 300 (new three_hundred) (record { bytes = three_hundred; at = 2 })
      (omega arith) varint_300

length-put_varint_example :
    length (put_varint (7 ∷ []) 300) ≡ length {A = ℕ} (7 ∷ []) + varint_len 300
length-put_varint_example = length-put_varint (7 ∷ []) 300 (omega arith)
