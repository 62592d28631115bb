-- ===== src/Bundled/Link/Properties.antt =====
-- The same for the properties of a class.
use pg_amqp.Base.{
  ℕ, ◌+◌, ◌%◌, ◌^◌, ◌≤◌, ◌<◌, ◌≡◌, ◌≢◌, ap, ◌∙◌, true, Option, none, some, List, [], ◌∷◌, ◌++◌,
  length, arith,
}
use mathlib.Core.Path.{subst}
use pg_amqp.Events.{Bytes}
use pg_amqp.Bundled.Buffer.{Memory, be16}
use pg_amqp.Bundled.Pool
use pg_amqp.Bundled.Pool.{State}
use pg_amqp.Bundled.Encoder.{Spot, then_encode}
use pg_amqp.Bundled.Encoder.Stored.{Stored, Holds, Holds-split, then_encode-Stored}
use pg_amqp.Bundled.Reader.{amqp_bytes}
use pg_amqp.Bundled.Reader.Gives.{Gives}
use pg_amqp.Bundled.Table.ReadBack.{Plenty}
use pg_amqp.Bundled.Frame.{bytes}
use pg_amqp.Bundled.Fields.{Item, case_of}
use pg_amqp.Bundled.Properties.{
  PropertiesOf, flag_words, encode_flags, encode_members, encode_class, amqp_encode_properties,
  amqp_decode_properties,
}
use pg_amqp.Bundled.Properties.Encode.{encode_properties_layouts}
use pg_amqp.Bundled.Properties.Flags.{encode_flags-Stored, flag_words-one}
use pg_amqp.Bundled.Properties.Wire.{wire_members, known_members, encode_members-Stored}
use pg_amqp.Bundled.Properties.ReadBack.{MembersFit}
use pg_amqp.Bundled.Properties.RoundTrip.{decode_both, decode_both-Gives}
use pg_amqp.Bundled.Link.{encoder_result}
use pg_amqp.Bundled.Link.Decoding.{encoder_result-Stored}

-- The flags in one word, and the members they say are there.
abbrev pub wire_class : (flags : ℕ) → (c : Option (List (ℕ × Item))) → PropertiesOf flags c → Bytes
wire_class flags none _ = []
wire_class flags (some ps) x = be16 flags ++ wire_members flags ps x

-- Properties of a known class, with flags in bits 1 to 15 and members that fit their fields.
abbrev pub SoundClass : (flags : ℕ) → (c : Option (List (ℕ × Item))) → PropertiesOf flags c → Type 0
SoundClass flags none _ = ⊥
SoundClass flags (some ps) x =
    (flags < 2 ^ 16) × (flags % 2 ≡ 0) × MembersFit flags ps x × (known_members flags ps x ≡ true)

encode_class-Sound :
    (room flags : ℕ) (c : Option (List (ℕ × Item))) (x : PropertiesOf flags c) (rest : Memory)
    → SoundClass flags c x
    → length (wire_class flags c x) ≤ room
    → encoder_result (
        then_encode
          (encode_flags room (flag_words 2 flags) (record { memory = rest; offset = 0 }))
          (encode_class room flags c x))
      ≡ bytes (wire_class flags c x)
unfolding encode_class
encode_class-Sound room flags none x rest sound fits = absurd sound
encode_class-Sound room flags (some ps) x rest (word, even, fit, known) fits =
    let start : Spot = record { memory = rest; offset = 0 } in
    let members = wire_members flags ps x in
    let stored =
      then_encode-Stored room start true (known_members flags ps x) (be16 flags) members
        (encode_flags room (flags ∷ []) start) (encode_members room flags ps x)
        (encode_flags-Stored room (flags ∷ []) start)
        (λ t. encode_members-Stored room flags ps x t) in
    ap
      (λ ws.
        encoder_result (then_encode (encode_flags room ws start) (encode_members room flags ps x)))
      (flag_words-one flags word even)
    ∙ encoder_result-Stored room rest (be16 flags ++ members) _
        (subst
          (λ k.
            Stored room start k (be16 flags ++ members)
              (then_encode (encode_flags room (flags ∷ []) start) (encode_members room flags ps x)))
          known stored)
        fits

pub amqp_encode_properties-Sound :
    (room class flags : ℕ) (x : PropertiesOf flags (case_of class encode_properties_layouts))
    (rest : Memory)
    → SoundClass flags (case_of class encode_properties_layouts) x
    → length (wire_class flags (case_of class encode_properties_layouts) x) ≤ room
    → encoder_result (amqp_encode_properties room class flags x rest)
      ≡ bytes (wire_class flags (case_of class encode_properties_layouts) x)
unfolding amqp_encode_properties
amqp_encode_properties-Sound room class flags x rest sound fits =
    encode_class-Sound room flags (case_of class encode_properties_layouts) x rest sound fits

module _ (shift_beyond : ℕ → ℕ → ℕ) (mem : Pool.Memory) (plenty : Plenty mem) (sizeof : ℕ → ℕ)
    (sized : (n : ℕ) → sizeof n ≢ 0) (m : Memory) (len : ℕ) (small : len < 2 ^ 31)
    (heap : State) where
  decode_class-Sound :
      (class flags : ℕ) (c : Option (List (ℕ × Item))) (x : PropertiesOf flags c)
      → SoundClass flags c x
      → Holds m 0 (wire_class flags c x)
      → length (wire_class flags c x) ≤ len
      → Gives
          (flags, x)
          (length (wire_class flags c x))
          (decode_both mem plenty sizeof shift_beyond len small m class c heap)
  decode_class-Sound class flags none x sound held fits = absurd sound
  decode_class-Sound class flags (some ps) x (word, even, fit, known) held fits =
      let members = wire_members flags ps x in
      let (words, rest) = Holds-split m 0 (be16 flags) members held in
      let end : 2 + length members ≡ length (wire_class flags (some ps) x) = omega arith in
      subst
        (λ o.
          Gives (flags, x) o
            (decode_both mem plenty sizeof shift_beyond len small m class (some ps) heap))
        end
        (decode_both-Gives mem plenty sizeof shift_beyond len small m class flags ps x heap
          (sized class) word even fit words rest (omega arith))

  pub amqp_decode_properties-Sound :
      (class flags : ℕ) (x : PropertiesOf flags (case_of class encode_properties_layouts))
      → SoundClass flags (case_of class encode_properties_layouts) x
      → Holds m 0 (wire_class flags (case_of class encode_properties_layouts) x)
      → length (wire_class flags (case_of class encode_properties_layouts) x) ≤ len
      → Gives {A = (f : ℕ) × PropertiesOf f (case_of class encode_properties_layouts)}
          (flags, x)
          (length (wire_class flags (case_of class encode_properties_layouts) x))
          (amqp_decode_properties shift_beyond mem sizeof (amqp_bytes m len) class heap)
  unfolding amqp_decode_properties
  amqp_decode_properties-Sound class flags x sound held fits =
      decode_class-Sound class flags (case_of class encode_properties_layouts) x sound held fits
