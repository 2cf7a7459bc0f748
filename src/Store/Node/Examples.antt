-- ===== src/Store/Node/Examples.antt =====
-- Runs of the decoder, and its theorems at concrete inputs.
use reldir.Base.{◌≡◌, ◌≢◌, ◌↔◌, refl, [], ◌∷◌, ◌++◌, arith, replicate}
use reldir.Store.Corruption.{Bytes, ok, out_of_fuel}
use reldir.Store.Codec
use reldir.Store.Codec.{Cursor, new}
use reldir.Store.Node.{Node, Entry, leaf, encode, decode, put_entries, put_str, header}
use reldir.Store.Node.WellFormed.{IsWellFormed}
use reldir.Store.Node.Decoding.{decode_iff}
use reldir.Store.Node.Total.{decode-ne-out_of_fuel}

abbrev sample_entry : Entry
sample_entry = record {
  path = b't' ∷ b'/' ∷ b'a' ∷ [];
  row_hash = replicate 32 7;
  blob = replicate 32 9;
}

abbrev sample : Node
sample = leaf (sample_entry ∷ [])

abbrev sample_bytes : Bytes
sample_bytes =
    0
    ∷ b'R'
    ∷ b'D'
    ∷ b'N'
    ∷ b'3'
    ∷ b'L'
    ∷ 3
    ∷ b't'
    ∷ b'/'
    ∷ b'a'
    ∷ (replicate 32 7 ++ replicate 32 9)

decode_iff_example :
    (decode sample_bytes ≡ ok sample) ↔ (IsWellFormed sample × (sample_bytes ≡ encode sample))
decode_iff_example = decode_iff sample_bytes sample (omega arith)

-- Both sides hold here.
encode-sample : sample_bytes ≡ encode sample
unfolding encode put_entries put_str header reldir.Store.Codec.put_varint
encode-sample = refl

decode-ne-out_of_fuel_example : decode (0 ∷ b'R' ∷ []) ≢ out_of_fuel
decode-ne-out_of_fuel_example = decode-ne-out_of_fuel (0 ∷ b'R' ∷ []) (omega arith)
