-- ===== src/Bundled/Input.antt =====
-- src/librabbitmq/amqp_connection.c, `amqp_handle_input`: the bytes that arrive are collected into
-- frames by a state machine. The generated decoders are parameters.
pub mod Ready
pub mod Progress
pub mod Found
pub mod Collected
pub mod Payloads
pub mod Partial
pub mod Body
pub mod Pieces
use pg_amqp.Base.{
  ℕ, ◌+◌, ◌*◌, ◌-◌, ◌%◌, ◌^◌, Bool, true, false, ◌&&◌, List, [], ◌∷◌, ltb, leb, ◌==◌, if◌then◌else◌,
  length, take, drop,
}
use pg_amqp.Events.{Bytes}
use pg_amqp.Bundled.Buffer.{Memory, sub64, set_bytes, get_bytes}
use pg_amqp.Bundled.Frame.{header_size, footer_size, frame_end, efault, einval}

-- `amqp_connection_state_enum`
pub data Phase : Type 0 where
  idle waiting_for_header waiting_for_body waiting_for_protocol_header : Phase

-- The part of `struct amqp_connection_state_t_` that collects a frame.
pub record Inbound : Type 0 where
  pub phase : Phase
  pub buffer : Memory
  pub buffer_len : ℕ
  pub offset : ℕ
  pub target_size : ℕ

pub data Decoded (A : Type 0) : Type 0 where
  decoded : A → Decoded A
  undecodable : ℕ → Decoded A

-- `amqp_decode_method` and `amqp_decode_properties`, by the number, the buffer, and where in it the
-- encoded bytes are said to be.
pub record Decoder (M P : Type 0) : Type 1 where
  pub decode_method : ℕ → Memory → ℕ → ℕ → Decoded M
  pub decode_properties : ℕ → Memory → ℕ → ℕ → Decoded P

-- `decoded_frame`; `nothing` is the frame type 0.
pub data Received (M P : Type 0) : Type 0 where
  nothing : Received M P
  method : ℕ → ℕ → M → Received M P
  properties : ℕ → ℕ → ℕ → P → Received M P
  body : ℕ → Bytes → Received M P
  heartbeat : ℕ → Received M P
  protocol_header : ℕ → ℕ → ℕ → ℕ → Received M P

-- What a call comes to: the bytes consumed and the frame, `-e`, or an abort.
pub data Outcome (M P : Type 0) : Type 0 where
  consumed : ℕ → Received M P → Outcome M P
  failed : ℕ → Outcome M P
  aborted : Outcome M P

-- D_16 and D_32, where the limit is checked already.
abbrev pub d16 : Memory → ℕ → ℕ
d16 m o = m o * 256 + m (o + 1)

abbrev pub d32 : Memory → ℕ → ℕ
d32 m o = m o * 2 ^ 24 + m (o + 1) * 2 ^ 16 + m (o + 2) * 256 + m (o + 3)

-- `return_to_idle`
unfoldable pub return_to_idle : Inbound → Inbound
return_to_idle i = record i { phase = idle; offset = 0; target_size = header_size }

-- `bytes_consumed`, an `int` that is negative from 2 ^ 31 on and then compares as a `size_t`.
unfoldable pub bytes_consumed : Inbound → ℕ → ℕ
bytes_consumed i n =
    let missing = (i.target_size + 2 ^ 64 - i.offset) % 2 ^ 32 in
    if leb (2 ^ 31) missing then n else (if ltb n missing then n else missing)

-- The copy of the bytes into the buffer.
unfoldable pub absorb : ℕ → Bytes → Inbound → Inbound
absorb n bs i = record i { buffer = set_bytes i.buffer i.offset (take n bs); offset = i.offset + n }

-- CONNECTION_STATE_WAITING_FOR_HEADER with all bytes: the size of the frame, in 32 bits.
unfoldable pub size_frame : Inbound → Inbound
size_frame i =
    if i.buffer 0 == 65 && d16 i.buffer 1 == 77 * 256 + 81
    then record i { target_size = 8; phase = waiting_for_protocol_header }
    else record i {
      target_size = (d32 i.buffer 3 + (header_size + footer_size)) % 2 ^ 32;
      phase = waiting_for_body;
    }

module _ {M P : Type 0} where
  unfoldable pub found_method : ℕ → ℕ → Decoded M → Outcome M P
  found_method channel id (decoded d) = consumed 0 (method channel id d)
  found_method channel id (undecodable e) = failed e

  unfoldable pub found_properties : ℕ → ℕ → ℕ → Decoded P → Outcome M P
  found_properties channel class_id size (decoded d) =
      consumed 0 (properties channel class_id size d)
  found_properties channel class_id size (undecodable e) = failed e

  -- The return of a frame; an error leaves the state as it is.
  unfoldable pub return_frame : ℕ → Inbound → Outcome M P → Outcome M P × Inbound
  unfolding return_to_idle
  return_frame total i (consumed _ f) = (consumed total f, return_to_idle i)
  return_frame total i (failed e) = (failed e, i)
  return_frame total i aborted = (aborted, i)

  -- CONNECTION_STATE_WAITING_FOR_PROTOCOL_HEADER with all bytes: "AMQP" and four numbers.
  unfoldable pub finish_protocol_header : ℕ → Inbound → Outcome M P × Inbound
  unfolding return_to_idle
  finish_protocol_header total i =
      let m = i.buffer in
      if m 3 == 80
      then (consumed total (protocol_header (m 4) (m 5) (m 6) (m 7)), return_to_idle i)
      else (aborted, i)

  -- From the copy on: `rest` gets the bytes consumed so far and the other bytes where the target is
  -- reached.
  unfoldable pub collect :
      (ℕ → Bytes → Inbound → Outcome M P × Inbound) → ℕ → Bytes → Inbound → Outcome M P × Inbound
  unfolding bytes_consumed absorb
  collect rest total bs i =
      let n = bytes_consumed i (length bs) in
      let i' = absorb n bs i in
      let next = rest (total + n) (drop n bs) i' in
      if ltb i.buffer_len (i.offset + n)
      then (failed efault, i)
      else (if ltb i.target_size i'.offset
          then (aborted, i')
          else (if ltb i'.offset i.target_size then (consumed (total + n) nothing, i') else next))

module _ {M P : Type 0} (dec : Decoder M P) where
  -- The `switch` on the frame's type, with the bytes consumed left out.
  unfoldable pub decode_frame : Inbound → Outcome M P
  unfolding found_method found_properties
  decode_frame i =
      let m = i.buffer in
      let channel = d16 m 1 in
      let args = sub64 i.target_size (header_size + 4 + footer_size) in
      let props = sub64 i.target_size (header_size + 12 + footer_size) in
      let fragment = sub64 i.target_size (header_size + footer_size) in
      let id = d32 m header_size in
      let class_id = d16 m header_size in
      if m 0 == 1
      then (if ltb i.buffer_len ((header_size + 4 + args) % 2 ^ 64)
          then failed efault
          else (if ltb i.buffer_len (header_size + 4)
              then failed efault
              else found_method channel id (dec.decode_method id m (header_size + 4) args)))
      else (if m 0 == 2
          then (if ltb i.buffer_len ((header_size + 12 + props) % 2 ^ 64)
              then failed efault
              else (if ltb i.buffer_len (header_size + 12)
                  then failed efault
                  else found_properties channel class_id
                      (d32 m (header_size + 4) * 2 ^ 32 + d32 m (header_size + 8))
                      (dec.decode_properties class_id m (header_size + 12) props)))
          else (if m 0 == 3
              then (if ltb i.buffer_len ((header_size + fragment) % 2 ^ 64)
                  then failed efault
                  else consumed 0 (body channel (get_bytes m header_size fragment)))
              else (if m 0 == 8 then consumed 0 (heartbeat channel) else consumed 0 nothing)))

  -- CONNECTION_STATE_WAITING_FOR_BODY with all bytes.
  unfoldable pub finish_body : ℕ → Inbound → Outcome M P × Inbound
  unfolding decode_frame return_frame
  finish_body total i =
      if i.buffer (i.target_size - 1) == frame_end
      then return_frame total i (decode_frame i)
      else (failed einval, i)

  -- `read_more` behind a header.
  unfoldable pub read_rest : ℕ → Bytes → Inbound → Outcome M P × Inbound
  unfolding collect finish_body finish_protocol_header
  read_rest total [] i = (consumed total nothing, i)
  read_rest total (b ∷ bs) i = elim i.phase [
    | waiting_for_protocol_header ↦
        collect (λ t rest i'. finish_protocol_header t i') total (b ∷ bs) i
    | _ ↦ collect (λ t rest i'. finish_body t i') total (b ∷ bs) i
  ]

  unfoldable pub read_header : Bytes → Inbound → Outcome M P × Inbound
  unfolding collect size_frame read_rest
  read_header bs i = collect (λ t rest i'. read_rest t rest (size_frame i')) 0 bs i

  -- By the phase, where there is input.
  unfoldable pub read_phase : Memory → Phase → Bytes → Inbound → Outcome M P × Inbound
  unfolding read_header read_rest
  read_phase page idle bs i =
      read_header bs (record i { buffer = page; phase = waiting_for_header })
  read_phase page waiting_for_header bs i = read_header bs i
  read_phase page waiting_for_body bs i = read_rest 0 bs i
  read_phase page waiting_for_protocol_header bs i = read_rest 0 bs i

  -- `amqp_handle_input`, with what the page holds that the pool gives for a new frame.
  unfoldable pub amqp_handle_input : Memory → Bytes → Inbound → Outcome M P × Inbound
  unfolding read_phase
  amqp_handle_input page [] i = (consumed 0 nothing, i)
  amqp_handle_input page (b ∷ bs) i = read_phase page i.phase (b ∷ bs) i
