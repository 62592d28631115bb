-- ===== src/Tests/Receive.antt =====
-- The exchange of a request for its reply, at concrete bytes.
use pg_amqp.Base.{◌≡◌, refl, [], ◌∷◌, ◌++◌, length}
use pg_amqp.Events.{Bytes}
use pg_amqp.Bundled.Buffer.{Memory, set_bytes}
use pg_amqp.Bundled.Frame.{Codec, bytes, Writer, Out, ok, amqp_send_frame}
use pg_amqp.Bundled.Input.{Decoder, decoded, idle, heartbeat, amqp_handle_input}
use pg_amqp.Bundled.Receive.{Receiver, arrived, normal, amqp_simple_rpc}
use pg_amqp.Bundled.Publish.{amqp_send_method}
use pg_amqp.Bundled.Receive.Rpc.{Answered, amqp_simple_rpc-Answered}

-- Methods that are their own encoding.
abbrev pub plain : Codec Bytes Bytes
plain = record { encode_method = λ id d cap. bytes d; encode_properties = λ id d cap. bytes d }

abbrev lenient : Decoder Bytes Bytes
lenient = record {
  decode_method = λ id m o n. decoded [];
  decode_properties = λ id m o n. decoded [];
}

abbrev pub takes_all : Writer
takes_all = λ ws bs. ok (length bs)

abbrev pub nothing_sent : Out
nothing_sent = record { buffer = λ i. 0; writes = [] }

abbrev pub blank : Receiver Bytes Bytes → Memory
blank r = λ i. 0

-- A heartbeat, and tx.commit-ok on channel 2 that is cut in two.
abbrev beat : Bytes
beat = 8 ∷ 0 ∷ 0 ∷ 0 ∷ 0 ∷ 0 ∷ 0 ∷ 206 ∷ []

abbrev answering : Receiver Bytes Bytes
answering = record {
  inbound = record {
    phase = idle;
    buffer = λ i. 0;
    buffer_len = 4096;
    offset = 0;
    target_size = 7;
  };
  pending = [];
  queue = [];
  arrivals =
      arrived (beat ++ (1 ∷ 0 ∷ 2 ∷ 0 ∷ []))
      ∷ arrived (0 ∷ 0 ∷ 4 ∷ 0 ∷ 90 ∷ 0 ∷ 21 ∷ 206 ∷ [])
      ∷ [];
}

-- The wire's reply is the one expected, and the heartbeat is kept.
commit_ok :
    let a =
      amqp_simple_rpc lenient blank 2
        (5898261 ∷ [])
        plain
        takes_all
        4096
        5898260
        []
        answering
        nothing_sent in
    (a.0 ≡ normal 5898261 []) × (a.1.queue ≡ heartbeat 0 ∷ [])
unfolding amqp_simple_rpc amqp_send_frame amqp_handle_input set_bytes
commit_ok = (refl, refl)

amqp_simple_rpc-Answered_example :
    let a =
      amqp_simple_rpc lenient blank 2
        (5898261 ∷ [])
        plain
        takes_all
        4096
        5898260
        []
        answering
        nothing_sent in
    let sent = amqp_send_method plain takes_all 4096 2 5898260 [] nothing_sent in
    Answered lenient blank 2 (5898261 ∷ []) sent.0 answering a.0 a.1
amqp_simple_rpc-Answered_example =
    amqp_simple_rpc-Answered lenient blank 2 (5898261 ∷ []) plain takes_all 4096 5898260 []
      answering nothing_sent (refl, refl)
