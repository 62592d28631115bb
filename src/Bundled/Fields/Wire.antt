-- ===== src/Bundled/Fields/Wire.antt =====
-- The bytes of a struct's members, described without the code, and what `encode_fields` leaves.
use pg_amqp.Base.{ℕ, ◌/◌, ◌%◌, ◌^◌, Bool, true, ◌&&◌, List, [], ◌∷◌, ◌++◌, length}
use pg_amqp.Events.{Bytes}
use pg_amqp.Bundled.Buffer.{be16, be32}
use pg_amqp.Bundled.Encoder.{Spot}
use pg_amqp.Bundled.Encoder.Stored.{
  Stored, emit-Stored, two-Stored, then_encode-Stored, no_bytes-Stored,
}
use pg_amqp.Bundled.Table.Wire.{sized, wire, known_entries, amqp_encode_table-wire}
use pg_amqp.Bundled.Fields.{
  Item, octet, short, long, longlong, shortstr, longstr, table, bits, Arg, Args, bit_buffer,
  encode_item, encode_fields,
}

abbrev pub wire_item : (i : Item) → Arg i → Bytes
wire_item (octet _) n = n % 256 ∷ []
wire_item (short _) n = be16 n
wire_item (long _) n = be32 n
wire_item (longlong _) n = be32 (n / 2 ^ 32) ++ be32 (n % 2 ^ 32)
wire_item (shortstr _) bs = length bs % 256 ∷ bs
wire_item (longstr _) bs = sized bs
wire_item (table _) t = wire t
wire_item (bits fs) bs = bit_buffer fs bs % 256 ∷ []

abbrev pub wire_fields : (is : List Item) → Args is → Bytes
wire_fields [] _ = []
wire_fields (i ∷ is) (a, more) = wire_item i a ++ wire_fields is more

-- The tables have no value of an unknown kind.
abbrev pub known_item : (i : Item) → Arg i → Bool
known_item (table _) t = known_entries t
known_item _ _ = true

abbrev pub known_fields : (is : List Item) → Args is → Bool
known_fields [] _ = true
known_fields (i ∷ is) (a, more) = known_item i a && known_fields is more

pub encode_item-Stored :
    (len : ℕ) (i : Item) (a : Arg i) (s : Spot)
    → Stored len s (known_item i a) (wire_item i a) (encode_item len i a s)
unfolding encode_item
encode_item-Stored len (octet _) n s = emit-Stored len (n % 256 ∷ []) s
encode_item-Stored len (short _) n s = emit-Stored len (be16 n) s
encode_item-Stored len (long _) n s = emit-Stored len (be32 n) s
encode_item-Stored len (longlong _) n s = two-Stored len (be32 (n / 2 ^ 32)) (be32 (n % 2 ^ 32)) s
encode_item-Stored len (shortstr _) bs s = two-Stored len (length bs % 256 ∷ []) bs s
encode_item-Stored len (longstr _) bs s = two-Stored len (be32 (length bs)) bs s
encode_item-Stored len (table _) t s = amqp_encode_table-wire len t s
encode_item-Stored len (bits fs) bs s = emit-Stored len (bit_buffer fs bs % 256 ∷ []) s

pub encode_fields-Stored :
    (len : ℕ) (is : List Item) (m : Args is) (s : Spot)
    → Stored len s (known_fields is m) (wire_fields is m) (encode_fields len is m s)
unfolding encode_fields
encode_fields-Stored len [] m s = no_bytes-Stored len s
encode_fields-Stored len (i ∷ is) (a, more) s =
    then_encode-Stored len s (known_item i a) (known_fields is more) (wire_item i a)
      (wire_fields is more) (encode_item len i a s) (encode_fields len is more)
      (encode_item-Stored len i a s) (λ t. encode_fields-Stored len is more t)
