-- ===== src/Bundled/Input/Payloads.antt =====
-- What `decode_frame` makes of each kind of payload that stands in the buffer.
use pg_amqp.Base.{ℕ, ◌+◌, ◌*◌, ◌/◌, ◌%◌, ◌^◌, ◌≤◌, ◌<◌, ◌≡◌, ◌++◌, length, arith}
use pg_amqp.Events.{Bytes}
use pg_amqp.Bundled.Buffer.{sub64, be16, be32, be64}
use pg_amqp.Bundled.Encoder.Stored.{Holds-split}
use pg_amqp.Bundled.Reader.Gives.{get_bytes-Holds, d16-Holds, d32-Holds}
use pg_amqp.Bundled.Input.{
  Inbound, Decoder, decoded, consumed, method, properties, body, heartbeat, found_method,
  found_properties, d16, d32, decode_frame,
}
use pg_amqp.Bundled.Input.Collected.{Arrived}

module _ {M P : Type 0} (dec : Decoder M P) (i : Inbound) (channel : ℕ) where
  pub decode_frame-heartbeat :
      i.buffer 0 ≡ 8
      → d16 i.buffer 1 ≡ channel
      → decode_frame dec i ≡ consumed 0 (heartbeat channel)
  unfolding decode_frame
  decode_frame-heartbeat t c = ground arith

  pub decode_frame-body :
      (p : Bytes)
      → Arrived i 3 channel p
      → length p + 8 ≤ i.buffer_len
      → i.buffer_len < 2 ^ 64
      → decode_frame dec i ≡ consumed 0 (body channel p)
  unfolding decode_frame
  decode_frame-body p (t, c, held, marked, size) room small =
      let n : sub64 i.target_size 8 ≡ length p = omega arith in
      let bs = get_bytes-Holds i.buffer 7 p held in ground arith

  pub decode_frame-method :
      (id : ℕ) (bs : Bytes) (d : M)
      → Arrived i 1 channel (be32 id ++ bs)
      → id < 2 ^ 32
      → length bs + 12 ≤ i.buffer_len
      → i.buffer_len < 2 ^ 64
      → dec.decode_method id i.buffer 11 (length bs) ≡ decoded d
      → decode_frame dec i ≡ consumed 0 (method channel id d)
  unfolding decode_frame found_method
  decode_frame-method id bs d (t, c, held, marked, size) few room small h =
      let n : sub64 i.target_size 12 ≡ length bs = omega arith in
      let (front, rest) = Holds-split i.buffer 7 (be32 id) bs held in
      let number = d32-Holds i.buffer id 7 few front in ground arith

  pub decode_frame-properties :
      (class_id size : ℕ) (bs : Bytes) (d : P)
      → Arrived i 2 channel (be16 class_id ++ be16 0 ++ be64 size ++ bs)
      → class_id < 2 ^ 16
      → size < 2 ^ 64
      → length bs + 20 ≤ i.buffer_len
      → i.buffer_len < 2 ^ 64
      → dec.decode_properties class_id i.buffer 19 (length bs) ≡ decoded d
      → decode_frame dec i ≡ consumed 0 (properties channel class_id size d)
  unfolding decode_frame found_properties
  decode_frame-properties class_id size bs d (t, c, held, marked, total) few fits room small h =
      let n : sub64 i.target_size 20 ≡ length bs = omega arith in
      let (front, rest) = Holds-split i.buffer 7 (be16 class_id ++ be16 0 ++ be64 size) bs held in
      let (ids, sizes) = Holds-split i.buffer 7 (be16 class_id ++ be16 0) (be64 size) front in
      let (class_bytes, weight) = Holds-split i.buffer 7 (be16 class_id) (be16 0) ids in
      let (hi, lo) =
        Holds-split i.buffer 11 (be32 (size / 2 ^ 32 % 2 ^ 32)) (be32 (size % 2 ^ 32)) sizes in
      let number = d16-Holds i.buffer class_id 7 few class_bytes in
      let high = d32-Holds i.buffer (size / 2 ^ 32 % 2 ^ 32) 11 (omega arith) hi in
      let low = d32-Holds i.buffer (size % 2 ^ 32) 15 (omega arith) lo in
      let both : d32 i.buffer 11 * 2 ^ 32 + d32 i.buffer 15 ≡ size = omega arith in ground arith
