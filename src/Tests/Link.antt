-- ===== src/Tests/Link.antt =====
-- A message from one end of a connection to the other, at concrete inputs.
use pg_amqp.Base.{
  length, suc, true, false, Option, none, ◌≡◌, refl, [], ◌∷◌, List, take, drop, map, All, arith,
}
use pg_amqp.Events.{Bytes}
use pg_amqp.Bundled.Frame.{Out, heartbeat, Frame, method, properties, body, ok}
use pg_amqp.Bundled.Frame.Wire.{layout, joined}
use pg_amqp.Bundled.Publish.{
  BasicPublish, Ending, amqp_basic_publish, send_body, and_then, amqp_send_method,
}
use pg_amqp.Bundled.Publish.Fragments.{Fragments}
use pg_amqp.Bundled.Frame.{amqp_send_frame}
use pg_amqp.Bundled.Input
use pg_amqp.Bundled.Input.{idle}
use pg_amqp.Bundled.Input.Collected.{Idle}
use pg_amqp.Bundled.Receive.{Receiver, arrived, found, is_reply}
use pg_amqp.Bundled.Receive.Delivered.{coming}
use pg_amqp.Bundled.Fields.{case_of}
use pg_amqp.Bundled.Methods.{StructOf, encode_layouts, amqp_encode_method}
use pg_amqp.Bundled.Properties.{amqp_encode_properties}
use pg_amqp.Bundled.Encoder.{emit}
use pg_amqp.Bundled.Buffer.{get_bytes}
use pg_amqp.Bundled.Properties.Encode.{encode_properties_layouts}
use pg_amqp.Bundled.Table.{no_entries}
use pg_amqp.Bundled.Table.ReadBack.{InRange}
use pg_amqp.Bundled.Table.Wire.{known_entries, wire_entries}
use pg_amqp.Bundled.Calls.{amqp_queue_declare}
use pg_amqp.Bundled.Calls.Replies.{Served, simple_rpc-Served}
use pg_amqp.Bundled.Link.{Struct, PropertyStruct, codec, decoder}
use pg_amqp.Bundled.Link.Decoding.{Sound}
use pg_amqp.Bundled.Link.Properties.{SoundClass}
use pg_amqp.Bundled.Link.Payloads.{received, wire_payload}
use pg_amqp.Bundled.Link.Stream.{
  Fit, wire_frames, send_frames, wait_frames, send_frames-joined, wait_frames-send_frames,
}
use pg_amqp.Bundled.Link.Delivery.{publish_struct, left_by, amqp_basic_publish-Delivered}
use pg_amqp.Tests.Codec.{blank, heap, plenty, published}
use pg_amqp.Tests.Properties.{modulo, persistent}
use pg_amqp.Tests.Receive.{takes_all, nothing_sent}

-- basic.publish, the content header and the body of a message of three bytes.
abbrev message : List (Frame Struct PropertyStruct)
message =
    record { channel = 2; payload = method 3932200 (3932200, published) }
    ∷ record { channel = 2; payload = properties 60 3 (60, 36864, persistent) }
    ∷ record { channel = 2; payload = body (7 ∷ 8 ∷ 9 ∷ []) }
    ∷ []

method_fits : Sound (case_of 3932200 encode_layouts) published
method_fits = ((omega arith, (omega arith, (omega arith, (omega arith, tt)))), refl)

properties_fit : SoundClass 36864 (case_of 60 encode_properties_layouts) persistent
properties_fit = (
  omega arith,
  refl,
  (
    omega arith,
    (tt, (tt, (omega arith, (tt, (tt, (tt, (tt, (tt, (tt, (tt, (tt, (tt, (tt, tt))))))))))))),
  ),
  refl,
)

message-Fit : All (Fit 4096) message
message-Fit = (
  ((refl, omega arith, method_fits, omega arith), omega arith),
  (
    ((refl, omega arith, omega arith, properties_fit, omega arith), omega arith),
    ((omega arith, omega arith), tt),
  ),
)

-- The bytes come in three pieces.
abbrev listening : Receiver Struct PropertyStruct
listening = record {
  inbound = record { phase = idle; buffer = blank; buffer_len = 4096; offset = 0; target_size = 7 };
  pending = take 3 (wire_frames message);
  queue = [];
  arrivals =
      arrived (take 20 (drop 3 (wire_frames message)))
      ∷ arrived (drop 20 (drop 3 (wire_frames message)))
      ∷ [];
}

wait_frames-send_frames_example :
    let q = wait_frames (decoder modulo plenty (λ n. 48) (λ n. 48) heap) (λ r. blank) 3 listening in
    ((send_frames (codec blank) takes_all 4096 message nothing_sent).0 ≡ map (λ _. ok 0) message)
    × (q.0 ≡ map (λ f. found (received f)) message)
    × (coming q.1 ≡ [])
    × Idle q.1.inbound
wait_frames-send_frames_example =
    wait_frames-send_frames modulo plenty (λ n. 48) (λ n. 48) heap blank takes_all (λ r. blank) 4096
      4096 message nothing_sent listening (λ cs n. refl) (λ n. omega arith) (λ n. omega arith)
      (λ ws bs. refl) (omega arith) (omega arith) (omega arith) message-Fit (refl, refl, refl) refl
      refl tt
      (send_frames-joined blank takes_all 4096 (λ ws bs. refl) (omega arith) (omega arith) message
        nothing_sent message-Fit).1

-- To an exchange of one byte and a routing key of two, mandatory; with frames of 32 bytes the body takes
-- two.
abbrev to_publish : BasicPublish
to_publish = record {
  exchange = 1 ∷ [];
  routing_key = 2 ∷ 3 ∷ [];
  mandatory = true;
  immediate = false;
}

abbrev content : Bytes
content = take 30 (wire_frames message)

abbrev publication : Option (Ending × Out)
publication =
    amqp_basic_publish (codec blank) takes_all 32 publish_struct (60, 36864, persistent) 2
      to_publish none content nothing_sent

abbrev on_the_wire : Bytes
on_the_wire = joined (left_by nothing_sent publication).writes

abbrev waiting : Receiver Struct PropertyStruct
waiting = record listening {
  pending = [];
  arrivals = arrived (take 50 on_the_wire) ∷ arrived (drop 50 on_the_wire) ∷ [];
}

amqp_basic_publish-Delivered_example :
    (fs : List Bytes) × Fragments 32 content fs
    × (let q =
          wait_frames
            (decoder modulo plenty (λ n. 48) (λ n. 48) heap)
            (λ r. blank)
            (suc (suc (length fs)))
            waiting in
        (q.0
          ≡ found (Input.method 2 3932200 (publish_struct to_publish))
            ∷ found (Input.properties 2 60 30 (60, 36864, persistent))
            ∷ map (λ b. found (Input.body 2 b)) fs)
        × (coming q.1 ≡ [])
        × Idle q.1.inbound)
unfolding amqp_basic_publish send_body and_then amqp_send_method amqp_send_frame codec
    amqp_encode_method emit get_bytes amqp_encode_properties
amqp_basic_publish-Delivered_example =
    amqp_basic_publish-Delivered modulo plenty (λ n. 48) (λ n. 48) heap blank takes_all (λ r. blank)
      32 4096 2 to_publish (60, 36864, persistent) none content nothing_sent waiting (λ cs n. refl)
      (λ n. omega arith) (λ n. omega arith) (λ ws bs. refl) (omega arith) (omega arith)
      (omega arith) (omega arith) (omega arith) (omega arith) (omega arith)
      (refl, omega arith, omega arith, properties_fit, omega arith) (omega arith) (refl, refl, refl)
      refl refl tt refl

-- A queue of one byte is declared; a heartbeat comes first.
abbrev beat : Frame Struct PropertyStruct
beat = record { channel = 0; payload = heartbeat }

abbrev declared : StructOf (case_of 3276811 encode_layouts)
declared = (5 ∷ [], (0, (0, tt)))

abbrev declared_frames : Bytes
declared_frames =
    wire_frames (beat ∷ record { channel = 1; payload = method 3276811 (3276811, declared) } ∷ [])

abbrev declaring : Receiver Struct PropertyStruct
declaring = record listening {
  pending = [];
  arrivals = arrived (take 11 declared_frames) ∷ arrived (drop 11 declared_frames) ∷ [];
}

abbrev queue_request : Bytes → Struct
queue_request queue =
    (3276810, (0, (queue, ((false, (true, (false, (false, (false, tt))))), (no_entries, tt)))))

other_beat : is_reply 1 (3276811 ∷ []) (received beat) ≡ false
unfolding is_reply
other_beat = refl

simple_rpc-Served_example :
    Served
      (3276811, declared)
      (received beat ∷ [])
      (layout 1 1 (wire_payload (method 3276810 (queue_request (5 ∷ [])))))
      []
      nothing_sent
      (amqp_queue_declare
        (decoder modulo plenty (λ n. 48) (λ n. 48) heap)
        (λ r. blank)
        (codec blank)
        takes_all
        4096
        1
        (5 ∷ [])
        false
        true
        false
        false
        no_entries
        declaring
        nothing_sent)
unfolding amqp_queue_declare InRange known_entries wire_entries
simple_rpc-Served_example =
    simple_rpc-Served modulo plenty (λ n. 48) (λ n. 48) heap blank takes_all (λ r. blank) 4096 4096
      1 3276811 (queue_request (5 ∷ [])) declared (beat ∷ []) [] declaring nothing_sent
      (λ cs n. refl) (λ n. omega arith) (λ n. omega arith) (λ ws bs. refl) (omega arith)
      (omega arith) (omega arith) (omega arith)
      (
        refl,
        omega arith,
        ((omega arith, (omega arith, (omega arith, (tt, tt)))), refl),
        omega arith,
      )
      (refl, omega arith, ((omega arith, (omega arith, (omega arith, tt))), refl), omega arith)
      ((tt, omega arith), tt) (other_beat, tt) (refl, refl, refl) refl refl tt
