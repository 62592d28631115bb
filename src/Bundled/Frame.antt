-- ===== src/Bundled/Frame.antt =====
-- src/librabbitmq/amqp_connection.c, how a frame is put into the outbound buffer and written:
-- `inner_send_frame`, `amqp_send_frame` and `amqp_send_frame_to`. The encoders of methods and of
-- properties are generated code, hence parameters, and so is the function that takes the bytes.
pub mod Wire
pub mod Sent
use pg_amqp.Base.{
  ℕ, ◌+◌, ◌≤◌, ◌<◌, ◌≡◌, Bool, true, false, not, List, [], ◌∷◌, ltb, if◌then◌else◌, length,
}
use pg_amqp.Events.{Bytes}
use pg_amqp.Bundled.Buffer.{Memory, sub64, set, set_bytes, get_bytes, be16, be32, be64}

-- A C result: not negative, or `-e`.
pub data Result : Type 0 where
  ok : ℕ → Result
  fail : ℕ → Result

-- What an encoder comes to: the bytes it writes, or `-e`.
pub data Encoded : Type 0 where
  bytes : Bytes → Encoded
  refused : ℕ → Encoded

-- `amqp_encode_method` and `amqp_encode_properties`, by the method's or the class's number, what is
-- encoded, and the length of the buffer.
pub record Codec (M P : Type 0) : Type 1 where
  pub encode_method : ℕ → M → ℕ → Encoded
  pub encode_properties : ℕ → P → ℕ → Encoded

-- `amqp_frame_t`, with the union by the frame's type.
pub data Payload (M P : Type 0) : Type 0 where
  method : ℕ → M → Payload M P
  properties : ℕ → ℕ → P → Payload M P
  body : Bytes → Payload M P
  heartbeat : Payload M P
  other : ℕ → Payload M P

pub record Frame (M P : Type 0) : Type 0 where
  pub channel : ℕ
  pub payload : Payload M P

abbrev pub header_size : ℕ
header_size = 7

abbrev pub footer_size : ℕ
footer_size = 1

abbrev pub frame_end : ℕ
frame_end = 206

-- EFAULT and EINVAL
abbrev pub efault : ℕ
efault = 14

abbrev pub einval : ℕ
einval = 22

-- The bytes of one call of the function that writes, and all calls of it, the latest first.
abbrev pub Writes : Type 0
Writes = List Bytes

-- `amqp_ssl_write` or the function given to `amqp_send_frame_to`: what it returns, by the calls
-- before.
abbrev pub Writer : Type 0
Writer = Writes → Bytes → Result

-- `payload_len` is an int: the model is that of payloads below 2 ^ 31 bytes.
-- What `inner_send_frame` leaves: the buffer, `encoded`, `payload_len` and its result.
pub record Assembled : Type 0 where
  pub buffer : Memory
  pub encoded : Bytes
  pub payload_len : ℕ
  pub separate_body : Bool

pub data Assembly : Type 0 where
  assembled : Assembled → Assembly
  rejected : ℕ → Memory → Assembly

-- The store of the encoder's bytes behind what is at the front of the payload.
unfoldable pub store_encoded : Memory → ℕ → Encoded → Assembly
store_encoded m front (refused e) = rejected e m
store_encoded m front (bytes bs) = assembled (record {
  buffer = set_bytes m (header_size + front) bs;
  encoded = bs;
  payload_len = length bs + front;
  separate_body = false;
})

-- The length of the payload and, where it is in the buffer, the end marker.
unfoldable pub close_frame : ℕ → Assembly → Assembly
close_frame len (rejected e m) = rejected e m
close_frame len (assembled a) =
    let sized = set_bytes a.buffer 3 (be32 a.payload_len) in
    let at_end = a.payload_len + header_size in
    if ltb len 7
    then rejected efault a.buffer
    else (if a.separate_body
        then assembled (record a { buffer = sized })
        else (if ltb len (at_end + 1)
            then rejected efault sized
            else assembled (record a { buffer = set sized at_end frame_end })))

module _ {M P : Type 0} where
  abbrev pub frame_type : Payload M P → ℕ
  frame_type (method _ _) = 1
  frame_type (properties _ _ _) = 2
  frame_type (body _) = 3
  frame_type heartbeat = 8
  frame_type (other t) = t

  -- The `switch` of `inner_send_frame`, with a buffer of `len` bytes.
  unfoldable pub assemble : Codec M P → ℕ → Payload M P → Memory → Assembly
  unfolding store_encoded
  assemble cd len (method id d) m =
      if ltb len (header_size + 4)
      then rejected efault m
      else store_encoded (set_bytes m header_size (be32 id)) 4
          (cd.encode_method id d (sub64 len (header_size + 4 + footer_size)))
  assemble cd len (properties class_id size p) m =
      if ltb len (header_size + 12)
      then rejected efault m
      else store_encoded
          (set_bytes
            (set_bytes (set_bytes m header_size (be16 class_id)) (header_size + 2) (be16 0))
            (header_size + 4) (be64 size))
          12 (cd.encode_properties class_id p (sub64 len (header_size + 12 + footer_size)))
  assemble cd len (body bs) m =
      assembled (record { buffer = m; encoded = bs; payload_len = length bs; separate_body = true })
  assemble cd len heartbeat m =
      assembled (record { buffer = m; encoded = []; payload_len = 0; separate_body = false })
  assemble cd len (other t) m = rejected einval m

  -- `inner_send_frame`
  unfoldable pub inner_send_frame : Codec M P → ℕ → Memory → Frame M P → Assembly
  unfolding assemble close_frame
  inner_send_frame cd len m f =
      let typed = set m 0 (frame_type f.payload) in
      if ltb len 1
      then rejected efault m
      else (if ltb len 3
          then rejected efault typed
          else close_frame len (assemble cd len f.payload (set_bytes typed 1 (be16 f.channel))))

-- AMQP_CHECK_RESULT of a call that writes, then the rest.
unfoldable pub write : Writer → Bytes → (Writes → Result × Writes) → Writes → Result × Writes
write fn bs rest ws =
    let next = rest (bs ∷ ws) in elim (fn ws bs) [ fail e ↦ (fail e, bs ∷ ws) | ok _ ↦ next ]

abbrev pub written : Writes → Result × Writes
written ws = (ok 0, ws)

-- The outbound buffer and what was written.
pub record Out : Type 0 where
  pub buffer : Memory
  pub writes : Writes

abbrev pub with_buffer : Memory → Result × Writes → Result × Out
with_buffer m (r, ws) = (r, record { buffer = m; writes = ws })

-- The `switch` on the result of `inner_send_frame`.
unfoldable pub send_assembled : Writer → Assembly → Writes → Result × Out
unfolding write
send_assembled fn (rejected e m) ws = with_buffer m (fail e, ws)
send_assembled fn (assembled a) ws =
    let whole = get_bytes a.buffer 0 (a.payload_len + (header_size + footer_size)) in
    let footer = write fn (frame_end ∷ []) written in
    let sent =
      if a.separate_body
      then write fn (get_bytes a.buffer 0 header_size) (write fn a.encoded footer) ws
      else write fn whole written ws in
    with_buffer a.buffer sent

-- `amqp_send_frame` with `fn` for `amqp_ssl_write`, and `amqp_send_frame_to`, with an outbound buffer
-- of `len` bytes.
module _ {M P : Type 0} (cd : Codec M P) (fn : Writer) (len : ℕ) where
  unfoldable pub amqp_send_frame : Frame M P → Out → Result × Out
  unfolding inner_send_frame send_assembled
  amqp_send_frame f s = send_assembled fn (inner_send_frame cd len s.buffer f) s.writes
