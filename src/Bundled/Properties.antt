-- ===== src/Bundled/Properties.antt =====
-- src/librabbitmq/amqp_framing.c: `amqp_encode_properties` and `amqp_decode_properties`. In front of the
-- properties stand their flags, in words of 15 flags each and one bit that says whether another word
-- follows. A property whose flag is not set is neither written nor read, so the model of a struct has
-- the members whose flags are set.
pub mod Decode
pub mod Encode
pub mod Structs
pub mod Flags
pub mod Wire
pub mod Ends
pub mod Agree
pub mod ReadBack
pub mod RoundTrip
use pg_amqp.Base.{
  ℕ, zero, suc, ◌+◌, ◌*◌, ◌/◌, ◌%◌, ◌^◌, ◌-◌, Bool, true, false, Option, none, some, List, [], ◌∷◌,
  ltb, ◌==◌, if◌then◌else◌,
}
use pg_amqp.Bundled.Buffer.{Memory, be16}
use pg_amqp.Bundled.Encoder.{Spot, Encoder, Encoding, encoded, failed, then_encode, emit}
use pg_amqp.Bundled.Pool
use pg_amqp.Bundled.Pool.{State}
use pg_amqp.Bundled.Reader.{Cursor, Reader, Reading, stopped, starved, ◌>>=◌, pure, AmqpBytes}
use pg_amqp.Bundled.Fields.{Item, Arg, case_of, encode_item, decode_item, store}
use pg_amqp.Bundled.Methods.{enoent, alloc_struct}
use pg_amqp.Bundled.Properties.Decode.{decode_properties_layouts}
use pg_amqp.Bundled.Properties.Encode.{encode_properties_layouts}

-- `flags & (1 << k)`
abbrev pub flag : ℕ → ℕ → Bool
flag k flags = flags / 2 ^ k % 2 == 1

-- A member, if its flag is set.
abbrev pub Given : Bool → Item → Type 0
Given true i = Arg i
Given false i = Unit

abbrev pub Members : ℕ → List (ℕ × Item) → Type 0
Members flags [] = Unit
Members flags ((k, i) ∷ ps) = Given (flag k flags) i × Members flags ps

-- The struct of a class behind `_flags`; no case, no struct.
abbrev pub PropertiesOf : ℕ → Option (List (ℕ × Item)) → Type 0
PropertiesOf flags none = Unit
PropertiesOf flags (some ps) = Members flags ps

-- `remaining_flags & 0xFFFE`, with the bit that says that there is a remainder.
abbrev pub partial_flags : ℕ → ℕ
partial_flags remaining = remaining % 2 ^ 16 / 2 * 2 + (if remaining / 2 ^ 16 == 0 then 0 else 1)

-- The words of the flags, by the rounds that are left.
unfoldable pub flag_words : ℕ → ℕ → List ℕ
flag_words zero remaining = []
flag_words (suc rounds) remaining =
    let rest = flag_words rounds (remaining / 2 ^ 16) in
    partial_flags remaining ∷ (if remaining / 2 ^ 16 == 0 then [] else rest)

unfoldable pub encode_flags : ℕ → List ℕ → Encoder
encode_flags len [] s = encoded s
encode_flags len (w ∷ ws) s = then_encode (emit len (be16 w) s) (encode_flags len ws)

unfoldable pub encode_given : ℕ → (set : Bool) → (i : Item) → Given set i → Encoder
encode_given len true i a s = encode_item len i a s
encode_given len false i _ s = encoded s

unfoldable pub encode_members :
    ℕ → (flags : ℕ) → (ps : List (ℕ × Item)) → Members flags ps → Encoder
unfolding encode_given
encode_members len flags [] _ s = encoded s
encode_members len flags ((k, i) ∷ ps) (a, more) s =
    then_encode (encode_given len (flag k flags) i a s) (encode_members len flags ps more)

unfoldable pub encode_class :
    ℕ → (flags : ℕ) → (c : Option (List (ℕ × Item))) → PropertiesOf flags c → Encoder
unfolding encode_members
encode_class len flags none _ s = failed enoent s.memory
encode_class len flags (some ps) m s = encode_members len flags ps m s

-- `offset` starts at 0; `amqp_flags_t` has 32 bits, so that there are at most two rounds.
unfoldable pub amqp_encode_properties :
    ℕ
    → (class flags : ℕ) → PropertiesOf flags (case_of class encode_properties_layouts)
    → Memory
    → Encoding
unfolding flag_words encode_flags encode_class
amqp_encode_properties len class flags m buffer =
    then_encode (encode_flags len (flag_words 2 flags) (record { memory = buffer; offset = 0 }))
      (encode_class len flags (case_of class encode_properties_layouts) m)

-- `|` of two numbers, on so many bits.
unfoldable pub bit_or : ℕ → ℕ → ℕ → ℕ
bit_or zero a b = 0
bit_or (suc n) a b = (if a % 2 == 1 then 1 else b % 2) + 2 * bit_or n (a / 2) (b / 2)

-- `flags |= (partial_flags << (flagword_index * 16))` in 32 bits. C leaves it open what a shift by 32
-- or more gives.
unfoldable pub add_flags : (ℕ → ℕ → ℕ) → ℕ → ℕ → ℕ → ℕ
unfolding bit_or
add_flags shift_beyond index flags partial =
    bit_or 32 flags (
      if ltb index 2
      then partial * 2 ^ (index * 16) % 2 ^ 32
      else shift_beyond partial (index * 16))

module _ (shift_beyond : ℕ → ℕ → ℕ) (mem : Pool.Memory) (sizeof : ℕ → ℕ) (encoded : AmqpBytes) where
  -- `do { ... } while (partial_flags & 1)`
  unfoldable pub decode_flags : ℕ → ℕ → ℕ → Reader ℕ
  unfolding add_flags
  decode_flags zero index flags = λ c. starved
  decode_flags (suc f) index flags = do
    partial ← encoded.d_16
    let flags' = add_flags shift_beyond index flags partial
    let more = decode_flags f (index + 1) flags'
    if partial % 2 == 1 then more else pure flags'

  unfoldable pub decode_given : Bool → (set : Bool) → (i : Item) → Reader (Given set i)
  decode_given p true i = decode_item mem encoded p i
  decode_given p false i = pure tt

  unfoldable pub decode_members :
      Bool → (flags : ℕ) → (ps : List (ℕ × Item)) → Reader (Members flags ps)
  unfolding decode_given
  decode_members p flags [] = pure tt
  decode_members p flags ((k, i) ∷ ps) = do
    a ← decode_given p (flag k flags) i
    more ← decode_members p flags ps
    pure (a, more)

  unfoldable pub decode_class :
      ℕ → (flags : ℕ) → (c : Option (List (ℕ × Item))) → Reader (PropertiesOf flags c)
  unfolding decode_members
  decode_class class flags none = λ c. stopped enoent c.heap
  decode_class class flags (some ps) = do
    p ← alloc_struct mem sizeof encoded (sizeof class)
    _ ← store mem encoded p
    decode_members p flags ps

  -- The flags, and the members that they say are there.
  unfoldable pub amqp_decode_properties :
      (class : ℕ)
      → State
      → Reading ((flags : ℕ) × PropertiesOf flags (case_of class decode_properties_layouts))
  unfolding decode_flags decode_class
  amqp_decode_properties class h =
      (do
        flags ← decode_flags (suc encoded.len) 0 0
        m ← decode_class class flags (case_of class decode_properties_layouts)
        pure (flags, m))
        (record { offset = 0; heap = h })
