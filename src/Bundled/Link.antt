-- ===== src/Bundled/Link.antt =====
-- src/librabbitmq/amqp_connection.c with src/librabbitmq/amqp_framing.c: what `inner_send_frame` gets from
-- the encoders and `amqp_handle_input` from the decoders. A struct comes with the number of the method,
-- or with the class and its flags, that it belongs to.
pub mod Decoding
pub mod Properties
pub mod Payloads
pub mod Stream
pub mod Delivery
use pg_amqp.Base.{ℕ, ◌+◌}
use pg_amqp.Bundled.Buffer.{Memory, get_bytes}
use pg_amqp.Bundled.Pool
use pg_amqp.Bundled.Pool.{State}
use pg_amqp.Bundled.Encoder.{Encoding, encoded, failed}
use pg_amqp.Bundled.Reader.{Reading, got, stopped, crashed, starved, AmqpBytes, amqp_bytes}
use pg_amqp.Bundled.Fields.{case_of}
use pg_amqp.Bundled.Frame.{Encoded, bytes, refused, Codec, efault}
use pg_amqp.Bundled.Input.{Decoded, decoded, undecodable, Decoder}
use pg_amqp.Bundled.Methods.{StructOf, encode_layouts, amqp_encode_method, amqp_decode_method}
use pg_amqp.Bundled.Properties.{PropertiesOf, amqp_encode_properties, amqp_decode_properties}
use pg_amqp.Bundled.Properties.Encode.{encode_properties_layouts}

abbrev pub Struct : Type 0
Struct = (n : ℕ) × StructOf (case_of n encode_layouts)

abbrev pub PropertyStruct : Type 0
PropertyStruct =
    (class : ℕ) × (flags : ℕ) × PropertiesOf flags (case_of class encode_properties_layouts)

-- The bytes up to the offset that the encoder returns, or `-e`.
unfoldable pub encoder_result : Encoding → Encoded
encoder_result (encoded s) = bytes (get_bytes s.memory 0 s.offset)
encoder_result (failed e m) = refused e

-- The calls in `inner_send_frame`; `rest` is what the buffer holds behind the front of the payload.
unfoldable pub codec : Memory → Codec Struct PropertyStruct
unfolding encoder_result
codec rest = record {
  encode_method = λ id (n, x) room. encoder_result (amqp_encode_method room n x rest);
  encode_properties = λ class_id (class, flags, x) room.
      encoder_result (amqp_encode_properties room class flags x rest);
}

-- A crash of the decoder is an error here.
unfoldable pub decoder_result : {A B : Type 0} → (A → B) → Reading A → Decoded B
decoder_result f (got a c) = decoded (f a)
decoder_result f (stopped e h) = undecodable e
decoder_result f crashed = undecodable efault
decoder_result f starved = undecodable efault

-- The bytes from an offset on.
abbrev pub from : Memory → ℕ → Memory
from m o j = m (o + j)

module _ (shift_beyond : ℕ → ℕ → ℕ) (mem : Pool.Memory) (sizeof sizeof_class : ℕ → ℕ)
    (heap : State) where
  -- The calls in `amqp_handle_input`, with the pool of decoded values on a heap.
  unfoldable pub decoder : Decoder Struct PropertyStruct
  unfolding decoder_result
  decoder = record {
    decode_method = λ id m o n.
        decoder_result (λ x. (id, x))
          (amqp_decode_method mem sizeof (amqp_bytes (from m o) n) id heap);
    decode_properties = λ class m o n.
        decoder_result (λ (flags, x). (class, flags, x))
          (amqp_decode_properties shift_beyond mem sizeof_class (amqp_bytes (from m o) n) class
            heap);
  }
