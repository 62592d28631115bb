-- ===== src/Bundled/Fields.antt =====
-- src/librabbitmq/amqp_framing.c, the statements that the cases of `amqp_encode_method` and
-- `amqp_decode_method` are made of: each case reads or writes the members of a struct one by one, a run
-- of flags as one byte. A layout lists them with the members' names.
pub mod Wire
pub mod ReadBack
pub mod Ends
use pg_amqp.Base.{
  ℕ, ◌+◌, ◌*◌, ◌/◌, ◌%◌, ◌^◌, String, Bool, true, false, Option, none, some, List, [], ◌∷◌, ◌++◌,
  map, ◌==◌, if◌then◌else◌, length,
}
use pg_amqp.Events.{Bytes}
use pg_amqp.Bundled.Buffer.{be16, be32}
use pg_amqp.Bundled.Encoder.{Encoder, encoded, then_encode, ◌and_then◌, emit}
use pg_amqp.Bundled.Pool
use pg_amqp.Bundled.Reader.{Cursor, Reader, crashed, ◌>>=◌, pure, AmqpBytes}
use pg_amqp.Bundled.Table.{Table, amqp_encode_table}
use pg_amqp.Bundled.Table.Decode.{amqp_decode_table}

-- An integer of 1, 2, 4 or 8 bytes, bytes with their length in one byte or in four, a table, or at most
-- eight flags from the lowest bit on.
pub data Item : Type 0 where
  octet short long longlong shortstr longstr table : String → Item
  bits : List String → Item

-- The members of a struct, by their C types.
pub data Member : Type 0 where
  uint8 uint16 uint32 uint64 amqp_bytes_t amqp_table_t amqp_boolean_t : String → Member

-- By the method's number.
abbrev pub Layouts : Type 0
Layouts = List (ℕ × List Item)

abbrev pub Structs : Type 0
Structs = List (ℕ × List Member)

-- The properties of each class, each with the number of the bit of its flag.
abbrev pub PropertyLayouts : Type 0
PropertyLayouts = List (ℕ × List (ℕ × Item))

-- The `case` of a number.
abbrev pub case_of : {A : Type 0} → ℕ → List (ℕ × A) → Option A
case_of n [] = none
case_of n ((k, a) ∷ rest) = let next = case_of n rest in if n == k then some a else next

abbrev pub members : List Item → List Member
members [] = []
members (octet f ∷ is) = uint8 f ∷ members is
members (short f ∷ is) = uint16 f ∷ members is
members (long f ∷ is) = uint32 f ∷ members is
members (longlong f ∷ is) = uint64 f ∷ members is
members (shortstr f ∷ is) = amqp_bytes_t f ∷ members is
members (longstr f ∷ is) = amqp_bytes_t f ∷ members is
members (table f ∷ is) = amqp_table_t f ∷ members is
members (bits fs ∷ is) = map (λ f. amqp_boolean_t f) fs ++ members is

-- The values of a struct's members.
abbrev pub Flags : List String → Type 0
Flags [] = Unit
Flags (_ ∷ fs) = Bool × Flags fs

abbrev pub Arg : Item → Type 0
Arg (octet _) = ℕ
Arg (short _) = ℕ
Arg (long _) = ℕ
Arg (longlong _) = ℕ
Arg (shortstr _) = Bytes
Arg (longstr _) = Bytes
Arg (table _) = Table
Arg (bits fs) = Flags fs

abbrev pub Args : List Item → Type 0
Args [] = Unit
Args (i ∷ is) = Arg i × Args is

-- `if (m->flag) { bit_buffer |= (1 << k); }` for the flags in order, and `bit_buffer & (1 << k)`.
abbrev pub bit_buffer : (fs : List String) → Flags fs → ℕ
bit_buffer [] _ = 0
bit_buffer (_ ∷ fs) (true, bs) = 1 + 2 * bit_buffer fs bs
bit_buffer (_ ∷ fs) (false, bs) = 2 * bit_buffer fs bs

abbrev pub flags_of : (fs : List String) → ℕ → Flags fs
flags_of [] b = tt
flags_of (_ ∷ fs) b = (b % 2 == 1, flags_of fs (b / 2))

unfoldable pub encode_item : ℕ → (i : Item) → Arg i → Encoder
encode_item len (octet _) n = emit len (n % 256 ∷ [])
encode_item len (short _) n = emit len (be16 n)
encode_item len (long _) n = emit len (be32 n)
encode_item len (longlong _) n = emit len (be32 (n / 2 ^ 32)) and_then emit len (be32 (n % 2 ^ 32))
encode_item len (shortstr _) bs = emit len (length bs % 256 ∷ []) and_then emit len bs
encode_item len (longstr _) bs = emit len (be32 (length bs)) and_then emit len bs
encode_item len (table _) t = amqp_encode_table len t
encode_item len (bits fs) bs = emit len (bit_buffer fs bs % 256 ∷ [])

unfoldable pub encode_fields : ℕ → (is : List Item) → Args is → Encoder
unfolding encode_item
encode_fields len [] _ s = encoded s
encode_fields len (i ∷ is) (a, as_) s =
    then_encode (encode_item len i a s) (encode_fields len is as_)

module _ (mem : Pool.Memory) (encoded : AmqpBytes) where
  -- A store to a member of `m`, which crashes where `m` is NULL.
  unfoldable pub store : Bool → Reader (Unit {0})
  store there = if there then pure tt else (λ c. crashed)

  unfoldable pub decode_item : Bool → (i : Item) → Reader (Arg i)
  unfolding store
  decode_item m (octet _) = do n ← encoded.d_8; _ ← store m; pure n
  decode_item m (short _) = do n ← encoded.d_16; _ ← store m; pure n
  decode_item m (long _) = do n ← encoded.d_32; _ ← store m; pure n
  decode_item m (longlong _) = do n ← encoded.d_64; _ ← store m; pure n
  decode_item m (shortstr _) = do n ← encoded.d_8; _ ← store m; encoded.d_bytes n
  decode_item m (longstr _) = do n ← encoded.d_32; _ ← store m; encoded.d_bytes n
  decode_item m (table _) = do t ← amqp_decode_table mem encoded; _ ← store m; pure t
  decode_item m (bits fs) = do b ← encoded.d_8; _ ← store m; pure (flags_of fs b)

  unfoldable pub decode_fields : Bool → (is : List Item) → Reader (Args is)
  unfolding decode_item
  decode_fields m [] = pure tt
  decode_fields m (i ∷ is) = do a ← decode_item m i; rest ← decode_fields m is; pure (a, rest)
