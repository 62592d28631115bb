-- ===== src/Tests/Bundled.antt =====
-- The bundled library at concrete inputs.
use pg_amqp.Base.{
  Bool, negsuc, All, ℕ, ◌+◌, ◌==◌, if◌then◌else◌, ◌≡◌, ◌≢◌, refl, true, false, none, some, List, [],
  ◌∷◌, ◌++◌, length, arith,
}
use pg_amqp.Events.{Bytes}
use pg_amqp.Bundled.Frame.{Codec, Frame, method, bytes, Writer, Out, ok, amqp_send_frame}
use pg_amqp.Bundled.Frame.Wire.{layout, Appends}
use pg_amqp.Bundled.Frame.Sent.{Carries, amqp_send_frame-Appends}
use pg_amqp.Bundled.Publish.{BasicPublish, amqp_basic_publish}
use pg_amqp.Bundled.Publish.Fragments.{
  Fragments, Published, body_frames, amqp_basic_publish-Published,
}
use pg_amqp.Bundled.Pool.{Memory, set_pool, amqp_pool_alloc, recycle_amqp_pool, init_amqp_pool}
use pg_amqp.Bundled.Pool.History.{
  Request, allocate, recycle, serve, AllClear, Enough, Placed, regions, serve-Placed,
}
use pg_amqp.Bundled.Tls.{Ssl, TlsArgs, amqp_ssl_handshake}
use pg_amqp.Bundled.Tls.Secured.{Secured}
use pg_amqp.Bundled.Buffer.{set_bytes}
use pg_amqp.Bundled.Input.{Decoder, decoded, Inbound, idle, consumed, heartbeat, amqp_handle_input}
use pg_amqp.Bundled.Input.Ready.{Progress}
use pg_amqp.Bundled.Input.Progress.{amqp_handle_input-Progress}
use pg_amqp.Bundled.Lifecycle.{ConnectionState, amqp_tune_connection}
use pg_amqp.Bundled.Lifecycle.Buffers.{Tuned, amqp_tune_connection-Tuned}
use pg_amqp.Bundled.Lifecycle.Creation.{
  Block, connection, outbound_buffer, sock_inbound_buffer, BlockCalls, claimed, amqp_new_connection,
}
use pg_amqp.Bundled.Lifecycle.Creation.Blocks.{Created, amqp_new_connection-Created}
use pg_amqp.Bundled.OpenSocket.{Sys, amqp_open_socket}
use pg_amqp.Bundled.OpenSocket.Ends.{Socket}
use pg_amqp.Bundled.OpenSocket.Descriptors.{amqp_open_socket-Socket}

-- Methods and properties that are their own encoding.
abbrev plain : Codec Bytes Bytes
plain = record { encode_method = λ id d cap. bytes d; encode_properties = λ id d cap. bytes d }

abbrev takes_all : Writer
takes_all = λ ws bs. ok (length bs)

abbrev nothing_sent : Out
nothing_sent = record { buffer = λ i. 0; writes = [] }

abbrev request : BasicPublish → Bytes
request m = m.exchange ++ m.routing_key

abbrev to_queue : BasicPublish
to_queue = record { exchange = 1 ∷ []; routing_key = 2 ∷ []; mandatory = false; immediate = false }

abbrev hello : Bytes
hello = 104 ∷ 101 ∷ 108 ∷ 108 ∷ 111 ∷ []

abbrev asked : Frame Bytes Bytes
asked = record { channel = 1; payload = method 3932200 (7 ∷ 8 ∷ []) }

amqp_send_frame-Appends_example :
    Appends []
      (layout 1 1 (0 ∷ 60 ∷ 0 ∷ 40 ∷ 7 ∷ 8 ∷ []))
      (amqp_send_frame plain takes_all 4096 asked nothing_sent)
unfolding Carries
amqp_send_frame-Appends_example =
    amqp_send_frame-Appends plain 4096 takes_all (λ ws bs. refl) asked nothing_sent
      (0 ∷ 60 ∷ 0 ∷ 40 ∷ 7 ∷ 8 ∷ []) (7 ∷ 8 ∷ [], refl, omega arith, refl) (omega arith)
      (omega arith) (omega arith)

amqp_basic_publish-Published_example :
    (fs : List Bytes) × Fragments 22 hello fs
    × Published []
        (layout 1 1 (0 ∷ 60 ∷ 0 ∷ 40 ∷ 1 ∷ 2 ∷ [])
          ++ (layout 2 1 (0 ∷ 60 ∷ 0 ∷ 0 ∷ 0 ∷ 0 ∷ 0 ∷ 0 ∷ 0 ∷ 0 ∷ 0 ∷ 5 ∷ 0 ∷ 0 ∷ [])
              ++ body_frames 1 fs))
        (amqp_basic_publish plain takes_all 22 request
          (0 ∷ 0 ∷ [])
          1
          to_queue
          none
          hello
          nothing_sent)
unfolding Carries
amqp_basic_publish-Published_example =
    amqp_basic_publish-Published plain takes_all 22 (λ ws bs. refl) request (0 ∷ 0 ∷ []) 1 to_queue
      none hello nothing_sent (0 ∷ 60 ∷ 0 ∷ 40 ∷ 1 ∷ 2 ∷ [])
      (0 ∷ 60 ∷ 0 ∷ 0 ∷ 0 ∷ 0 ∷ 0 ∷ 0 ∷ 0 ∷ 0 ∷ 0 ∷ 5 ∷ 0 ∷ 0 ∷ [])
      (1 ∷ 2 ∷ [], refl, omega arith, refl) (0 ∷ 0 ∷ [], refl, omega arith, refl) (omega arith)
      (omega arith) (omega arith)

-- A host with two addresses, of which the first refuses.
abbrev two_addresses : Sys
two_addresses = record {
  resolve = λ cs. some (1 ∷ 2 ∷ []);
  socket = λ cs a. ok (a + 10);
  get_flags = λ cs fd. ok 2;
  set_flags = λ cs fd flags b. ok 0;
  connect = λ cs fd a. if a == 1 then some 111 else some 115;
  poll = λ cs fd ms. true;
  get_error = λ cs fd. some 0;
}

second_address : (amqp_open_socket two_addresses none []).0 ≡ ok 12
unfolding amqp_open_socket
second_address = refl

some_two : (n : ℕ) → some (n ∷ 2 ∷ []) ≢ some []
some_two n h = ground arith

amqp_open_socket-Socket_example : Socket [] (amqp_open_socket two_addresses none [])
amqp_open_socket-Socket_example = amqp_open_socket-Socket two_addresses none (λ cs. some_two 1) []

-- A page of 64 bytes and plenty of memory.
abbrev plenty : Memory
plenty = λ cs n. true

abbrev requests : List Request
requests =
    allocate 5 ∷ allocate 100 ∷ allocate 40 ∷ allocate 20 ∷ recycle ∷ allocate 30 ∷ allocate 64 ∷ []

reused :
    (serve plenty requests ([], set_pool (init_amqp_pool 64) [])).0
    ≡ (64, record { block = 2; offset = 0; size = 64 })
      ∷ (30, record { block = 0; offset = 0; size = 32 })
      ∷ []
unfolding serve amqp_pool_alloc recycle_amqp_pool init_amqp_pool
reused = refl

serve-Placed_example :
    let h = serve plenty requests ([], set_pool (init_amqp_pool 64) []) in
    All Enough h.0 × All (Placed h.1) (regions h.0) × AllClear (regions h.0)
serve-Placed_example = serve-Placed plenty 64 requests (
  omega arith,
  (omega arith, (omega arith, (omega arith, (tt, (omega arith, (omega arith, tt)))))),
)

-- Every call succeeds, and the server's certificate is checked.
abbrev willing : Ssl
willing = λ cs c. true

abbrev checked : TlsArgs
checked = record {
  sockfd = 12;
  hostname = hello;
  verify_peer = true;
  cacert = none;
  client_cert = none;
  client_key = none;
}

accepted : (amqp_ssl_handshake willing checked []).0 ≡ true
unfolding amqp_ssl_handshake
accepted = refl

-- Decoders that take any bytes.
abbrev lenient : Decoder Bytes Bytes
lenient = record {
  decode_method = λ id m o n. decoded [];
  decode_properties = λ id m o n. decoded [];
}

-- A connection before its first byte, with a buffer of 4096.
abbrev listening : Inbound
listening = record { phase = idle; buffer = λ i. 0; buffer_len = 4096; offset = 0; target_size = 7 }

-- A heartbeat frame, and the first byte of the next frame.
abbrev beat : Bytes
beat = 8 ∷ 0 ∷ 0 ∷ 0 ∷ 0 ∷ 0 ∷ 0 ∷ 206 ∷ 1 ∷ []

heard : (amqp_handle_input lenient (λ i. 0) beat listening).0 ≡ consumed 8 (heartbeat 0)
unfolding amqp_handle_input set_bytes
heard = refl

amqp_handle_input-Progress_example : Progress 9 (amqp_handle_input lenient (λ i. 0) beat listening)
amqp_handle_input-Progress_example =
    amqp_handle_input-Progress lenient (λ i. 0) beat listening (omega arith) (refl, refl)

-- A new connection.
abbrev fresh : ConnectionState
fresh = record {
  frame_pool = init_amqp_pool 65536;
  decoding_pool = init_amqp_pool 131072;
  calls = [];
  inbound = listening;
  outbound_len = 0;
  channel_max = 0;
  frame_max = 0;
  heartbeat = 0;
  sockfd = negsuc 0;
  frames_queued = false;
}

amqp_tune_connection-Tuned_example : Tuned fresh 4096 (amqp_tune_connection plenty 0 4096 60 fresh)
amqp_tune_connection-Tuned_example = amqp_tune_connection-Tuned plenty 0 4096 60 fresh (omega arith)

-- No memory for the outbound buffer: the struct is freed twice.
abbrev no_buffer : BlockCalls → Block → Bool
no_buffer cs connection = true
no_buffer cs outbound_buffer = false
no_buffer cs sock_inbound_buffer = true

amqp_new_connection-Created_example :
    Created
      (no_buffer [] connection)
      (no_buffer (claimed connection ∷ []) outbound_buffer)
      (amqp_new_connection no_buffer [])
amqp_new_connection-Created_example = amqp_new_connection-Created no_buffer
