-- ===== src/Bundled/Table.antt =====
-- src/librabbitmq/amqp_table.c and the field tables of amqp.h: `amqp_encode_table`,
-- `amqp_decode_table` and `amqp_table_entry_cmp`. A buffer is its memory and its length, which is
-- below 2 ^ 31, so that no offset leaves an `int`.
pub mod Wire
pub mod Decode
pub mod Ends
pub mod ReadBack
pub mod RoundTrip
pub mod Compare
use pg_amqp.Base.{ℕ, ◌+◌, ◌-◌, ◌/◌, ◌%◌, ◌^◌, [], ◌∷◌, length}
use pg_amqp.Events.{Bytes}
use pg_amqp.Bundled.Buffer.{be32}
use pg_amqp.Bundled.Frame.{einval}
use pg_amqp.Bundled.Encoder.{
  Spot, Encoding, Encoder, encoded, failed, then_encode, ◌and_then◌, emit,
}

-- `amqp_table_entry_t`, with the union by the kind, and `amqp_table_t`, the entries in order. An
-- `int32_t` or an `int` is its 32 bits; `unknown` is any other kind.
mutual
  pub data Value : Type 0 where
    bytes : Bytes → Value
    i32 : ℕ → Value
    decimal : ℕ → ℕ → Value
    u64 : ℕ → Value
    table : Table → Value
    unknown : ℕ → Value

  pub data Table : Type 0 where
    no_entries : Table
    entry : Bytes → Value → Table → Table

-- The characters S, I, D, T and F.
abbrev pub kind : Value → ℕ
kind (bytes _) = 83
kind (i32 _) = 73
kind (decimal _ _) = 68
kind (u64 _) = 84
kind (table _) = 70
kind (unknown k) = k

-- The table's size, in the four bytes that were left for it at `start`.
unfoldable pub emit_size : ℕ → ℕ → Encoder
unfolding emit
emit_size len start s =
    then_encode
      (emit len (be32 (s.offset - start - 4)) (record { memory = s.memory; offset = start }))
      (λ t. encoded (record { memory = t.memory; offset = s.offset }))

-- A table: room for its size, its entries, and then its size.
abbrev pub around : ℕ → Encoder → Encoder
around len entries s =
    then_encode (entries (record { memory = s.memory; offset = s.offset + 4 }))
      (emit_size len s.offset)

-- The loop of `amqp_encode_table` and its `switch`.
unfoldable mutual
  unfolding emit emit_size

  pub encode_entries : ℕ → Table → Encoder
  encode_entries len no_entries s = encoded s
  encode_entries len (entry k v t) s =
      let first =
        emit len (length k % 256 ∷ []) and_then emit len k and_then emit len (kind v ∷ []) in
      then_encode (then_encode (first s) (encode_value len v)) (encode_entries len t)

  pub encode_value : ℕ → Value → Encoder
  encode_value len (bytes bs) s = (emit len (be32 (length bs)) and_then emit len bs) s
  encode_value len (i32 n) s = emit len (be32 n) s
  encode_value len (decimal d n) s = (emit len (d % 256 ∷ []) and_then emit len (be32 n)) s
  encode_value len (u64 n) s =
      (emit len (be32 (n / 2 ^ 32)) and_then emit len (be32 (n % 2 ^ 32))) s
  encode_value len (table t) s = around len (encode_entries len t) s
  encode_value len (unknown _) s = failed einval s.memory

unfoldable pub amqp_encode_table : ℕ → Table → Encoder
unfolding encode_entries
amqp_encode_table len t = around len (encode_entries len t)
