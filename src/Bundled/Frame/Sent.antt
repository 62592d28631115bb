-- ===== src/Bundled/Frame/Sent.antt =====
-- `amqp_send_frame` for every kind of frame, where the buffer is long enough and the encoder keeps
-- to the length it is given.
use pg_amqp.Base.{
  ℕ, ◌+◌, ◌-◌, ◌≤◌, ◌<◌, ◌≡◌, refl, ap, ◌^◌, false, [], ◌++◌, length, arith, ◌∙◌, sym,
}
use pg_amqp.Events.{Bytes}
use pg_amqp.Bundled.Buffer.{
  Memory, sub64, set, set_bytes, get_bytes, be16, be32, be64, set_bytes-before, get_bytes-agree,
  get_bytes-set_bytes,
}
use pg_amqp.Bundled.Frame.{
  Codec, Payload, Frame, method, properties, body, heartbeat, other, bytes, Writer, Writes, Out,
  frame_type, close_frame, assemble, store_encoded, inner_send_frame, send_assembled,
  amqp_send_frame,
}
use pg_amqp.Bundled.Frame.Wire.{
  layout, Accepts, Appends, get_bytes-behind, closed-Appends, separate-Appends,
}

-- What a store from offset 7 on leaves: the frame's type and channel.
kept :
    (m : Memory) (o : ℕ) (bs : Bytes)
    → 7 ≤ o
    → (set_bytes m o bs 0 ≡ m 0) × (get_bytes (set_bytes m o bs) 1 2 ≡ get_bytes m 1 2)
kept m o bs h = (
  set_bytes-before m o bs 0 (omega arith),
  get_bytes-agree (set_bytes m o bs) m 1 2 (λ i lo hi. set_bytes-before m o bs i (omega arith)),
)

-- The front of a properties payload: class, weight and body size.
front-read :
    (m : Memory) (a b c : Bytes)
    → length a ≡ 2
    → length b ≡ 2
    → length c ≡ 8
    → get_bytes (set_bytes (set_bytes (set_bytes m 7 a) 9 b) 11 c) 7 12 ≡ a ++ b ++ c
front-read m a b c ha hb hc =
    let ma = set_bytes m 7 a in
    let mb = set_bytes ma 9 b in
    let ra = get_bytes-set_bytes m 7 a in
    let rb = get_bytes-behind ma 7 2 b in let rc = get_bytes-behind mb 7 4 c in cc

module _ {M P : Type 0} (cd : Codec M P) (len : ℕ) where
  -- The payload of a frame, where the encoder writes no more than there is room for.
  unfoldable pub Carries : Payload M P → Bytes → Type 0
  Carries (method id d) p =
      (bs : Bytes) × (cd.encode_method id d (len - 12) ≡ bytes bs)
      × (length bs + 12 ≤ len)
      × (p ≡ be32 id ++ bs)
  Carries (properties class_id size d) p =
      (bs : Bytes) × (cd.encode_properties class_id d (len - 20) ≡ bytes bs)
      × (length bs + 20 ≤ len)
      × (p ≡ be16 class_id ++ be16 0 ++ be64 size ++ bs)
  Carries (body bs) p = p ≡ bs
  Carries heartbeat p = p ≡ []
  Carries (other t) p = ⊥

  module _ (fn : Writer) (takes : Accepts fn) (ws : Writes) (m : Memory) (type channel : ℕ) where
    -- The encoder's bytes behind the front of the payload.
    encoded-Appends :
        (front : Memory) (f : ℕ) (head bs p : Bytes)
        → front 0 ≡ type
        → get_bytes front 1 2 ≡ be16 channel
        → get_bytes front 7 f ≡ head
        → length bs + f + 8 ≤ len
        → p ≡ head ++ bs
        → length p ≡ length bs + f
        → Appends ws
            (layout type channel p)
            (send_assembled fn (close_frame len (store_encoded front f (bytes bs))) ws)
    unfolding store_encoded
    encoded-Appends front f head bs p h0 h1 hf fits eq size =
        let s = set_bytes front (7 + f) bs in
        let read = get_bytes-behind front 7 f bs in
        let n : length bs + f ≡ f + length bs = omega arith in
        let early =
          get_bytes-agree s front 1 2
            (λ i lo hi. set_bytes-before front (7 + f) bs i (omega arith)) in
        let first = set_bytes-before front (7 + f) bs 0 (omega arith) in
        closed-Appends fn takes len ws
          (record { buffer = s; encoded = bs; payload_len = length bs + f; separate_body = false })
          p type channel refl (omega arith) (first ∙ h0) (early ∙ h1)
          (ap (get_bytes s 7) n ∙ read ∙ ap (λ x. x ++ bs) hf ∙ sym eq) size

    -- Every kind of payload, with the type and the channel in the buffer.
    payload-Appends :
        (pl : Payload M P) (p : Bytes)
        → Carries pl p
        → m 0 ≡ type
        → get_bytes m 1 2 ≡ be16 channel
        → 20 ≤ len
        → len < 2 ^ 31
        → Appends ws
            (layout type channel p)
            (send_assembled fn (close_frame len (assemble cd len pl m)) ws)
    unfolding Carries assemble get_bytes
    payload-Appends (method id d) p (bs, enc, fits, eq) h0 h1 room small =
        let front = set_bytes m 7 (be32 id) in
        let first = set_bytes-before m 7 (be32 id) 0 (omega arith) in
        let early =
          get_bytes-agree front m 1 2 (λ i lo hi. set_bytes-before m 7 (be32 id) i (omega arith)) in
        let sent =
          encoded-Appends front 4 (be32 id) bs p (first ∙ h0) (early ∙ h1)
            (get_bytes-set_bytes m 7 (be32 id)) (omega arith) eq (ap length eq ∙ omega arith) in
        ground arith
    payload-Appends (properties class_id size d) p (bs, enc, fits, eq) h0 h1 room small =
        let ma = set_bytes m 7 (be16 class_id) in
        let mb = set_bytes ma 9 (be16 0) in
        let front = set_bytes mb 11 (be64 size) in
        let (a0, a1) = kept m 7 (be16 class_id) (omega arith) in
        let (b0, b1) = kept ma 9 (be16 0) (omega arith) in
        let (c0, c1) = kept mb 11 (be64 size) (omega arith) in
        let cap : sub64 len 20 ≡ len - 20 = omega arith in
        let sent =
          encoded-Appends front 12 (be16 class_id ++ be16 0 ++ be64 size) bs p (c0 ∙ b0 ∙ a0 ∙ h0)
            (c1 ∙ b1 ∙ a1 ∙ h1) (front-read m (be16 class_id) (be16 0) (be64 size) refl refl refl)
            (omega arith) eq (ap length eq ∙ omega arith) in
        ground arith
    payload-Appends (body bs) p eq h0 h1 room small =
        let sent = separate-Appends fn takes len ws m p type channel h0 h1 (omega arith) in
        ground arith
    payload-Appends heartbeat p eq h0 h1 room small =
        closed-Appends fn takes len ws
          (record { buffer = m; encoded = []; payload_len = 0; separate_body = false }) p type
          channel refl (omega arith) h0 h1 (sym eq) (ap length eq)
    payload-Appends (other t) p eq h0 h1 room small = absurd eq

pub amqp_send_frame-layout :
    {M P : Type 0} (cd : Codec M P) (len : ℕ) (fn : Writer)
    → Accepts fn
    → (f : Frame M P) (s : Out) (p : Bytes) → Carries cd len f.payload p
    → 20 ≤ len
    → len < 2 ^ 31
    → Appends s.writes (layout (frame_type f.payload) f.channel p) (amqp_send_frame cd fn len f s)
unfolding amqp_send_frame inner_send_frame
amqp_send_frame-layout cd len fn takes f s p carries room small =
    let typed = set s.buffer 0 (frame_type f.payload) in
    let m = set_bytes typed 1 (be16 f.channel) in
    let sent =
      payload-Appends cd len fn takes s.writes m (frame_type f.payload) f.channel f.payload p
        carries (set_bytes-before typed 1 (be16 f.channel) 0 (omega arith))
        (get_bytes-set_bytes typed 1 (be16 f.channel)) room small in
    ground arith

-- With a buffer of 20 to 2 ^ 31 - 1 bytes, a payload below 2 ^ 31 bytes, so that the int that holds its
-- length does not wrap, a writer that takes all bytes and an encoder that fits the payload into the room
-- it is given, `amqp_send_frame` returns 0 and appends the frame to the wire as the layout says.
pub amqp_send_frame-Appends :
    {M P : Type 0} (cd : Codec M P) (len : ℕ) (fn : Writer)
    → Accepts fn
    → (f : Frame M P) (s : Out) (p : Bytes) → Carries cd len f.payload p
    → 20 ≤ len
    → len < 2 ^ 31
    → length p < 2 ^ 31
    → Appends s.writes (layout (frame_type f.payload) f.channel p) (amqp_send_frame cd fn len f s)
amqp_send_frame-Appends cd len fn takes f s p carries room small int_length =
    amqp_send_frame-layout cd len fn takes f s p carries room small
