-- ===== src/Store/Node/Endings.antt =====
-- The readers of the decoder that run no loop on fuel (store/node.rs).
use reldir.Base.{ℕ, zero, suc, ◌+◌, ◌≢◌, false, true, Bool, List, ◌∷◌, arith, if◌then◌else◌}
use reldir.Store.Corruption.{Bytes, Corruption, out_of_fuel}
use reldir.Store.Codec.{
  Cursor, Reader, pure, fail, ◌>>=◌, take_bytes, array, u8, u8_of_varint, varint_loop, varint,
  length_prefixed, finish,
}
use reldir.Store.Codec.Reads.{bind-ne-out_of_fuel}
use reldir.Store.Codec.Varint.{add_group}
use reldir.Store.Codec.Canonical.{judge}
use reldir.Store.Node.{
  Entry, TableRef, Extra, decode_slots, decode_child, decode_path, decode_entry, decode_table_ref,
  decode_extra, read_magic, decode_opt_hash,
}

-- A reader that runs no loop on fuel.
pub record Ends {A : Type 0} (m : Reader A) : Type 0 where
  pub ends : (c : Cursor) → m c ≢ out_of_fuel

module _ {A B : Type 0} where
  pub Ends-bind :
      (m : Reader A) (f : A → Reader B) → Ends m → ((a : A) → Ends (f a)) → Ends (m >>= f)
  Ends-bind m f em ef = record {
    ends = λ c. bind-ne-out_of_fuel m f c (em.ends c) (λ a c' _. (ef a).ends c');
  }

module _ {A : Type 0} where
  pub Ends-pure : (a : A) → Ends (pure a)
  Ends-pure a = record { ends = λ c p. cc }

  pub Ends-fail : (e : Corruption) → Ends (fail {A = A} e)
  Ends-fail e = record { ends = λ c p. cc }

  pub Ends-if : (b : Bool) (m n : Reader A) → Ends m → Ends n → Ends (if b then m else n)
  Ends-if true m n em en = em
  Ends-if false m n em en = en

pub take_bytes-Ends : (n : ℕ) → Ends (take_bytes n)
unfolding take_bytes
take_bytes-Ends n = record { ends = λ c. ground arith }

module _ {A : Type 0} where
  pub Reader-if :
      (b : Bool) (m n : Reader A) (c : Cursor)
      → m c ≢ out_of_fuel
      → n c ≢ out_of_fuel
      → (if b then m else n) c ≢ out_of_fuel
  Reader-if true m n c em en = em
  Reader-if false m n c em en = en

pub ruleset ends_rules = (Ends-bind, Ends-pure, Ends-fail, Ends-if, take_bytes-Ends)

pub array-Ends : (n : ℕ) → Ends (array n)
unfolding array
array-Ends n = take_bytes-Ends n

pub u8-Ends : Ends u8
unfolding u8
u8-Ends = search ends_rules

u8_of_varint-Ends : Ends u8_of_varint
unfolding u8_of_varint
u8_of_varint-Ends = record { ends = λ c. ground (arith, u8-Ends.ends c) }

pub judge-Ends :
    (index value byte : ℕ) (more : Reader ℕ) → Ends more → Ends (judge index value byte more)
judge-Ends index value byte more h = search ends_rules

pub varint_loop-Ends : (rounds index value : ℕ) → Ends (varint_loop rounds index value)
unfolding varint_loop
varint_loop-Ends zero index value = search ends_rules
varint_loop-Ends (suc rounds) index value =
    Ends-bind u8_of_varint
      (λ byte. judge index value byte (varint_loop rounds (index + 1) (add_group value byte index)))
      u8_of_varint-Ends
      λ byte.
        judge-Ends index value byte _
          (varint_loop-Ends rounds (index + 1) (add_group value byte index))

pub length_prefixed-Ends : Ends length_prefixed
unfolding length_prefixed varint
length_prefixed-Ends = search (ends_rules, varint_loop-Ends)

pub decode_path-Ends : (valid : Bytes → Bool) → Ends (decode_path valid)
unfolding decode_path
decode_path-Ends valid = search (ends_rules, length_prefixed-Ends)

pub ruleset item_rules = (ends_rules, array-Ends, decode_path-Ends)

pub decode_entry-Ends : (before : List Entry) → Ends (decode_entry before)
unfolding decode_entry
decode_entry-Ends before = search item_rules depth 12

pub decode_table_ref-Ends : (before : List TableRef) → Ends (decode_table_ref before)
unfolding decode_table_ref
decode_table_ref-Ends before = search item_rules depth 12

pub decode_extra-Ends : (before : List Extra) → Ends (decode_extra before)
unfolding decode_extra
decode_extra-Ends before = search item_rules depth 12

pub decode_opt_hash-Ends : Ends decode_opt_hash
unfolding decode_opt_hash
decode_opt_hash-Ends = search item_rules

pub decode_child-Ends : (index : ℕ) → Ends (decode_child index)
unfolding decode_child
decode_child-Ends index = search item_rules depth 12

pub decode_slots-Ends : (n index : ℕ) → Ends (decode_slots n index)
unfolding decode_slots
decode_slots-Ends zero index = search ends_rules
decode_slots-Ends (suc n) index =
    Ends-bind (decode_child index) _ (decode_child-Ends index) λ child.
      Ends-bind (decode_slots n (index + 1)) _ (decode_slots-Ends n (index + 1))
        λ children. Ends-pure (child ∷ children)

pub read_magic-Ends : Ends read_magic
unfolding read_magic
read_magic-Ends = record { ends = λ c. ground (arith, (array-Ends 5).ends c) }

pub finish-Ends : Ends finish
unfolding finish
finish-Ends = record { ends = λ c. ground arith }
