-- ===== src/Bundled/Encoder.antt =====
-- src/librabbitmq/amqp_private.h, the macros E_8 to E_64 and E_BYTES as the encoders use them: each
-- tests the limit, stores, and is followed by the step of `offset`.
pub mod Stored
use pg_amqp.Base.{ℕ, ◌+◌, ltb, if◌then◌else◌, length}
use pg_amqp.Events.{Bytes}
use pg_amqp.Bundled.Buffer.{Memory, set_bytes}
use pg_amqp.Bundled.Frame.{efault}

-- The buffer that is written, and `offset`.
pub record Spot : Type 0 where
  pub memory : Memory
  pub offset : ℕ

-- What an encoder leaves: the buffer and the next offset, or `-e` and the buffer.
pub data Encoding : Type 0 where
  encoded : Spot → Encoding
  failed : ℕ → Memory → Encoding

abbrev pub Encoder : Type 0
Encoder = Spot → Encoding

-- AMQP_CHECK_RESULT, and what comes next.
abbrev pub then_encode : Encoding → Encoder → Encoding
then_encode (encoded s) next = next s
then_encode (failed e m) next = failed e m

infixr 3 ◌and_then◌
abbrev pub ◌and_then◌ : Encoder → Encoder → Encoder
(p and_then q) s = then_encode (p s) q

-- E_8, E_32 and E_BYTES: CHECK_LIMIT, the store, and `offset` behind it.
unfoldable pub emit : ℕ → Bytes → Encoder
emit len bs s =
    if ltb len (s.offset + length bs)
    then failed efault s.memory
    else encoded (record { memory = set_bytes s.memory s.offset bs; offset = s.offset + length bs })
