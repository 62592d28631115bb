-- ===== src/Tests/Properties.antt =====
-- The properties of a message at concrete inputs: src/librabbitmq/amqp_framing.c.
use pg_amqp.Base.{ℕ, ◌≡◌, refl, [], ◌∷◌, arith}
use mathlib.Core.Path.{subst}
use pg_amqp.Bundled.Buffer.{Memory, set_bytes}
use pg_amqp.Bundled.Encoder.{Spot, emit}
use pg_amqp.Bundled.Reader.{amqp_bytes}
use pg_amqp.Bundled.Reader.Ends.{Ensures, Passes}
use pg_amqp.Bundled.Reader.Gives.{Gives}
use pg_amqp.Bundled.Fields.{case_of, encode_item}
use pg_amqp.Bundled.Properties.{PropertiesOf, amqp_encode_properties, amqp_decode_properties}
use pg_amqp.Bundled.Properties.Encode.{encode_properties_layouts}
use pg_amqp.Bundled.Properties.Agree.{same_properties}
use pg_amqp.Bundled.Properties.Ends.{amqp_decode_properties-Ends}
use pg_amqp.Bundled.Properties.RoundTrip.{amqp_decode_properties-amqp_encode_properties}
use pg_amqp.Tests.Codec.{blank, heap, plenty, left}

-- A shift by 32 or more as a processor does it that takes the distance modulo 32.
abbrev pub modulo : ℕ → ℕ → ℕ
modulo n k = n

-- AMQP_BASIC_CLASS with a content type of one byte and the delivery mode 2.
abbrev pub persistent : PropertiesOf 36864 (case_of 60 encode_properties_layouts)
persistent =
    (120 ∷ [], (tt, (tt, (2, (tt, (tt, (tt, (tt, (tt, (tt, (tt, (tt, (tt, (tt, tt))))))))))))))

abbrev properties_written : Spot
properties_written = left (amqp_encode_properties 64 60 36864 persistent blank)

-- The word of the flags, the length, the byte and the mode.
persistent_bytes :
    (properties_written.memory 0 ≡ 144)
    × (properties_written.memory 1 ≡ 0)
    × (properties_written.memory 2 ≡ 1)
    × (properties_written.memory 3 ≡ 120)
    × (properties_written.memory 4 ≡ 2)
    × (properties_written.offset ≡ 5)
unfolding amqp_encode_properties emit encode_item set_bytes
persistent_bytes = (refl, refl, refl, refl, refl, refl)

amqp_decode_properties-amqp_encode_properties_example :
    Gives
      (36864, subst (λ ls. PropertiesOf 36864 (case_of 60 ls)) same_properties persistent)
      properties_written.offset
      (amqp_decode_properties modulo plenty
        (λ n. 48)
        (amqp_bytes properties_written.memory 64)
        60
        heap)
unfolding amqp_encode_properties emit encode_item
amqp_decode_properties-amqp_encode_properties_example =
    amqp_decode_properties-amqp_encode_properties modulo plenty (λ n. 48) 64 60 36864 persistent
      blank properties_written heap (λ cs n. refl) (omega arith) (omega arith) (omega arith) refl
      (
        omega arith,
        (tt, (tt, (omega arith, (tt, (tt, (tt, (tt, (tt, (tt, (tt, (tt, (tt, (tt, tt))))))))))))),
      )
      refl

-- Three words of flags and no property.
abbrev three_words : Memory
three_words = set_bytes blank 0 (0 ∷ 1 ∷ 0 ∷ 1 ∷ 0 ∷ 0 ∷ [])

amqp_decode_properties-Ends_example :
    Ensures plenty
      (Passes 6 0 2)
      (amqp_decode_properties modulo plenty (λ n. 48) (amqp_bytes three_words 6) 60 heap)
amqp_decode_properties-Ends_example =
    amqp_decode_properties-Ends modulo plenty (λ n. 48) three_words 6 60 heap (omega arith)
      (omega arith)
