-- ===== src/Bundled/Publish.antt =====
-- src/librabbitmq/amqp_api.c, `amqp_basic_publish`, and `amqp_send_method` of amqp_socket.c: a message
-- as a method frame, a header frame and body frames no longer than the negotiated frame size.
pub mod Fragments
use pg_amqp.Base.{
  ℕ, zero, suc, ◌+◌, ◌%◌, ◌^◌, Bool, Option, none, some, leb, ◌==◌, if◌then◌else◌, or_else, length,
  take, drop,
}
use pg_amqp.Events.{Bytes}
use pg_amqp.Bundled.Buffer.{sub64}
use pg_amqp.Bundled.Frame.{
  Codec, Frame, method, properties, body, Result, ok, fail, Writer, Out, header_size, footer_size,
  amqp_send_frame,
}

-- `amqp_basic_publish_t`; the ticket is 0.
pub record BasicPublish : Type 0 where
  pub exchange : Bytes
  pub routing_key : Bytes
  pub mandatory : Bool
  pub immediate : Bool

-- How `amqp_basic_publish` ends: by a result, or in the `assert`.
pub data Ending : Type 0 where
  returned : Result → Ending
  aborted : Ending

-- AMQP_BASIC_PUBLISH_METHOD and AMQP_BASIC_CLASS
abbrev pub basic_publish_method : ℕ
basic_publish_method = 3932200

abbrev pub basic_class : ℕ
basic_class = 60

-- AMQP_CHECK_RESULT of a call that sends, then the rest.
unfoldable pub and_then : Result × Out → (Out → Option (Ending × Out)) → Option (Ending × Out)
and_then (r, s) rest =
    let next = rest s in elim r [ fail e ↦ some (returned (fail e), s) | ok _ ↦ next ]

-- Unsigned, so it wraps where the frame is shorter than its header and end.
abbrev pub usable_body_payload_size : ℕ → ℕ
usable_body_payload_size frame_max = sub64 frame_max (header_size + footer_size)

-- `remaining`, an `int`: 2 ^ 31 and more are negative.
abbrev pub remaining_of : Bytes → ℕ
remaining_of rest = length rest % 2 ^ 32

abbrev pub fragment_len : ℕ → ℕ → ℕ
fragment_len frame_max remaining =
    let usable = usable_body_payload_size frame_max in
    if leb usable remaining then usable else remaining

-- A connection whose frame size and outbound buffer are `frame_max` bytes, as
-- `amqp_tune_connection` sets both.
module _ {M P : Type 0} (cd : Codec M P) (fn : Writer) (frame_max : ℕ) where
  unfoldable pub amqp_send_method : ℕ → ℕ → M → Out → Result × Out
  amqp_send_method channel id decoded s =
      amqp_send_frame cd fn frame_max (record { channel = channel; payload = method id decoded }) s

  -- The loop, by what of the body is behind `body_offset`; none where the fuel ends.
  unfoldable pub send_body : ℕ → ℕ → Bytes → Out → Option (Ending × Out)
  unfolding and_then
  send_body channel zero rest s = none
  send_body channel (suc fuel) rest s =
      let n = fragment_len frame_max (remaining_of rest) in
      let f : Frame M P = record { channel = channel; payload = body (take n rest) } in
      let sent =
        and_then (amqp_send_frame cd fn frame_max f s) (send_body channel fuel (drop n rest)) in
      if leb (2 ^ 31) (remaining_of rest)
      then some (aborted, s)
      else (if remaining_of rest == 0 then some (returned (ok 0), s) else sent)

  -- `amqp_basic_publish`; the loop has fuel for one round for each byte and the last one.
  unfoldable pub amqp_basic_publish :
      (BasicPublish → M) → P → ℕ → BasicPublish → Option P → Bytes → Out → Option (Ending × Out)
  unfolding and_then amqp_send_method
  amqp_basic_publish request default_properties channel m props bs s =
      let header : Frame M P = record {
        channel = channel;
        payload = properties basic_class (length bs) (or_else props default_properties);
      } in
      let bodies = send_body channel (suc (length bs)) bs in
      and_then (amqp_send_method channel basic_publish_method (request m) s)
        (λ s'. and_then (amqp_send_frame cd fn frame_max header s') bodies)
