-- ===== src/Bundled/Link/Payloads.antt =====
-- The payloads that one end of a connection encodes and the other end decodes.
use pg_amqp.Base.{ℕ, ◌+◌, ◌-◌, ◌^◌, ◌≤◌, ◌<◌, ◌≡◌, ◌≢◌, refl, ap, ◌∙◌, sym, [], ◌++◌, length, arith}
use mathlib.Core.Path.{subst}
use pg_amqp.Events.{Bytes}
use pg_amqp.Bundled.Buffer.{Memory, be16, be32, be64}
use pg_amqp.Bundled.Pool
use pg_amqp.Bundled.Pool.{State}
use pg_amqp.Bundled.Encoder.Stored.{Holds, Holds-split}
use pg_amqp.Bundled.Table.ReadBack.{Plenty}
use pg_amqp.Bundled.Fields.{case_of}
use pg_amqp.Bundled.Methods.{encode_layouts}
use pg_amqp.Bundled.Properties.{PropertiesOf}
use pg_amqp.Bundled.Properties.Encode.{encode_properties_layouts}
use pg_amqp.Bundled.Frame.{Payload, Frame, method, properties, body, heartbeat, other, frame_type}
use pg_amqp.Bundled.Frame.Sent.{Carries}
use pg_amqp.Bundled.Input
use pg_amqp.Bundled.Input.{
  Inbound, Decoder, decoded, Received, Outcome, consumed, amqp_handle_input, decode_frame,
  return_to_idle,
}
use pg_amqp.Bundled.Input.Collected.{Arrived}
use pg_amqp.Bundled.Input.Payloads.{
  decode_frame-heartbeat, decode_frame-body, decode_frame-method, decode_frame-properties,
}
use pg_amqp.Bundled.Link.{Struct, PropertyStruct, codec, decoder, from}
use pg_amqp.Bundled.Link.Decoding.{
  Holds-from, Sound, wire_case, amqp_encode_method-Sound, amqp_decode_method-Sound,
  decoder_result-Gives,
}
use pg_amqp.Bundled.Link.Properties.{
  SoundClass, wire_class, amqp_encode_properties-Sound, amqp_decode_properties-Sound,
}

-- The bytes of a payload.
abbrev pub wire_payload : Payload Struct PropertyStruct → Bytes
wire_payload (method id (n, x)) = be32 id ++ wire_case (case_of n encode_layouts) x
wire_payload (properties class size (c, flags, x)) =
    be16 class ++ be16 0 ++ be64 size ++ wire_class flags (case_of c encode_properties_layouts) x
wire_payload (body bs) = bs
wire_payload heartbeat = []
wire_payload (other t) = []

-- A payload with a struct of its own number, all of which fits its field and a frame of `len` bytes.
abbrev pub Sendable : ℕ → Payload Struct PropertyStruct → Type 0
Sendable len (method id (n, x)) =
    (n ≡ id)
    × (id < 2 ^ 32)
    × Sound (case_of n encode_layouts) x
    × (length (wire_case (case_of n encode_layouts) x) + 12 ≤ len)
Sendable len (properties class size (c, flags, x)) =
    (c ≡ class)
    × (class < 2 ^ 16)
    × (size < 2 ^ 64)
    × SoundClass flags (case_of c encode_properties_layouts) x
    × (length (wire_class flags (case_of c encode_properties_layouts) x) + 20 ≤ len)
Sendable len (body bs) = length bs + 8 ≤ len
Sendable len heartbeat = Unit
Sendable len (other t) = ⊥

-- A frame as the other end sees it.
abbrev pub received : Frame Struct PropertyStruct → Received Struct PropertyStruct
received f = elim f.payload [
  | method id d ↦ Input.method f.channel id d
  | properties class size p ↦ Input.properties f.channel class size p
  | body bs ↦ Input.body f.channel bs
  | heartbeat ↦ Input.heartbeat f.channel
  | other t ↦ Input.nothing
]

pub wire_payload-Carries :
    (rest : Memory) (len : ℕ) (pl : Payload Struct PropertyStruct)
    → Sendable len pl
    → 20 ≤ len
    → Carries (codec rest) len pl (wire_payload pl)
unfolding Carries codec
wire_payload-Carries rest len (method id (n, x)) (same, few, sound, fits) room = (
  wire_case (case_of n encode_layouts) x,
  amqp_encode_method-Sound (len - 12) n x rest sound (omega arith),
  fits,
  refl,
)
wire_payload-Carries rest len (properties class size (c, flags, x)) (same, few, big, sound, fits)
      room =
    (
      wire_class flags (case_of c encode_properties_layouts) x,
      amqp_encode_properties-Sound (len - 20) c flags x rest sound (omega arith),
      fits,
      refl,
    )
wire_payload-Carries rest len (body bs) fits room = refl
wire_payload-Carries rest len heartbeat fits room = refl
wire_payload-Carries rest len (other t) never room = absurd never

module _ (shift_beyond : ℕ → ℕ → ℕ) (mem : Pool.Memory) (plenty : Plenty mem)
    (sizeof sizeof_class : ℕ → ℕ) (sized : (n : ℕ) → sizeof n ≢ 0)
    (sized_class : (n : ℕ) → sizeof_class n ≢ 0) (heap : State) where
  abbrev pub reader : Decoder Struct PropertyStruct
  reader = decoder shift_beyond mem sizeof sizeof_class heap

  decode_method-Sendable :
      (m : Memory) (o : ℕ) (x : Struct)
      → Sound (case_of x.0 encode_layouts) x.1
      → Holds m o (wire_case (case_of x.0 encode_layouts) x.1)
      → length (wire_case (case_of x.0 encode_layouts) x.1) < 2 ^ 31
      → reader.decode_method x.0 m o (length (wire_case (case_of x.0 encode_layouts) x.1))
        ≡ decoded x
  unfolding decoder
  decode_method-Sendable m o (n, x) sound held small =
      let len = length (wire_case (case_of n encode_layouts) x) in
      decoder_result-Gives (λ y. (n, y)) x len _
        (amqp_decode_method-Sound mem plenty sizeof sized (from m o) len small heap n x sound
          (Holds-from m o 0 _
            (subst (λ k. Holds m k (wire_case (case_of n encode_layouts) x)) (omega arith) held))
          (omega arith))

  decode_properties-Sendable :
      (m : Memory) (o c flags : ℕ) (x : PropertiesOf flags (case_of c encode_properties_layouts))
      → SoundClass flags (case_of c encode_properties_layouts) x
      → Holds m o (wire_class flags (case_of c encode_properties_layouts) x)
      → length (wire_class flags (case_of c encode_properties_layouts) x) < 2 ^ 31
      → reader.decode_properties c m o
          (length (wire_class flags (case_of c encode_properties_layouts) x))
        ≡ decoded (c, flags, x)
  unfolding decoder
  decode_properties-Sendable m o c flags x sound held small =
      let bs = wire_class flags (case_of c encode_properties_layouts) x in
      decoder_result-Gives (λ (f, y). (c, f, y)) (flags, x) (length bs) _
        (amqp_decode_properties-Sound shift_beyond mem plenty sizeof_class sized_class (from m o)
          (length bs) small heap c flags x sound
          (Holds-from m o 0 bs (subst (λ k. Holds m k bs) (omega arith) held)) (omega arith))

  -- In the buffer with all its bytes, a frame decodes.
  pub payload-decoded :
      (i : Inbound) (channel len : ℕ) (pl : Payload Struct PropertyStruct)
      → Sendable len pl
      → Arrived i (frame_type pl) channel (wire_payload pl)
      → len ≤ i.buffer_len
      → i.buffer_len < 2 ^ 31
      → decode_frame reader i ≡ consumed 0 (received (record { channel = channel; payload = pl }))
  payload-decoded i channel len (method id (n, x)) (same, few, sound, fits) arrived room small =
      let bs = wire_case (case_of n encode_layouts) x in
      let (t, c, held, marked, size) = arrived in
      let (front, written) = Holds-split i.buffer 7 (be32 id) bs held in
      let read = decode_method-Sendable i.buffer 11 (n, x) sound written (omega arith) in
      decode_frame-method reader i channel id bs (n, x) arrived few (omega arith) (omega arith)
        (ap (λ k. reader.decode_method k i.buffer 11 (length bs)) (sym same) ∙ read)
  payload-decoded i channel len (properties class size (c, flags, x)) (same, few, big, sound, fits)
        arrived room small =
      let bs = wire_class flags (case_of c encode_properties_layouts) x in
      let (t, ch, held, marked, total) = arrived in
      let (front, written) = Holds-split i.buffer 7 (be16 class ++ be16 0 ++ be64 size) bs held in
      let read = decode_properties-Sendable i.buffer 19 c flags x sound written (omega arith) in
      decode_frame-properties reader i channel class size bs (c, flags, x) arrived few big
        (omega arith) (omega arith)
        (ap (λ k. reader.decode_properties k i.buffer 19 (length bs)) (sym same) ∙ read)
  payload-decoded i channel len (body bs) fits arrived room small =
      decode_frame-body reader i channel bs arrived (omega arith) (omega arith)
  payload-decoded i channel len heartbeat fits (t, c, held, marked, size) room small =
      decode_frame-heartbeat reader i channel t c
  payload-decoded i channel len (other t) never arrived room small = absurd never

  pub frame_bits :
      (len : ℕ) (pl : Payload Struct PropertyStruct)
      → Sendable len pl
      → 20 ≤ len
      → (length (wire_payload pl) + 8 ≤ len) × (frame_type pl ≢ 65)
  frame_bits len (method id (n, x)) (same, few, sound, fits) room = (omega arith, omega arith)
  frame_bits len (properties class size (c, flags, x)) (same, few, big, sound, fits) room =
      (omega arith, omega arith)
  frame_bits len (body bs) fits room = (fits, omega arith)
  frame_bits len heartbeat fits room = (omega arith, omega arith)
  frame_bits len (other t) never room = absurd never
