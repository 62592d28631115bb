-- ===== src/Tests/Login.antt =====
-- The login at a server that speaks 8-0.
use pg_amqp.Base.{ℕ, ◌≡◌, refl, false, [], ◌∷◌, negsuc, true, suc, zero}
use pg_amqp.Events.{Bytes}
use pg_amqp.Bundled.Buffer.{get_bytes, set_bytes}
use pg_amqp.Bundled.Pool.{Memory, init_amqp_pool}
use pg_amqp.Bundled.Frame.{amqp_send_frame}
use pg_amqp.Bundled.Input.{Decoder, decoded, idle, amqp_handle_input}
use pg_amqp.Bundled.Lifecycle.{amqp_tune_connection, amqp_release_buffers}
use pg_amqp.Bundled.Publish.{amqp_send_method}
use pg_amqp.Bundled.Receive.{arrived, amqp_simple_wait_frame, amqp_frames_enqueued}
use pg_amqp.Bundled.Login.{Methods, Peer, Stage, passed, amqp_login_inner}
use pg_amqp.Tests.Receive.{plain, takes_all, nothing_sent, blank}

-- Methods that are their own encoding, with numbers of one byte.
abbrev own : Decoder Bytes Bytes
own = record {
  decode_method = λ id m o n. decoded (get_bytes m o n);
  decode_properties = λ id m o n. decoded [];
}

abbrev byte : ℕ → Bytes → ℕ
byte n [] = 0
byte zero (b ∷ bs) = b
byte (suc n) (b ∷ bs) = byte n bs

abbrev small : Methods Bytes
small = record {
  version = λ bs. (byte 0 bs, byte 1 bs);
  tuning = λ bs. (byte 0 bs, byte 1 bs, byte 2 bs);
  start_ok = λ bs. bs;
  tune_ok = λ a b c. a ∷ b ∷ c ∷ [];
  connection_open = λ bs. bs;
}

-- A server that says 8-0 and then allows 9 channels and frames of 200 bytes.
abbrev talking : Peer Bytes Bytes
talking = record {
  state = record {
    frame_pool = init_amqp_pool 255;
    decoding_pool = init_amqp_pool 131072;
    calls = [];
    inbound = record {
      phase = idle;
      buffer = λ i. 0;
      buffer_len = 255;
      offset = 0;
      target_size = 7;
    };
    outbound_len = 255;
    channel_max = 0;
    frame_max = 255;
    heartbeat = 0;
    sockfd = negsuc 0;
    frames_queued = false;
  };
  receiver = record {
    inbound = record {
      phase = idle;
      buffer = λ i. 0;
      buffer_len = 255;
      offset = 0;
      target_size = 7;
    };
    pending = [];
    queue = [];
    arrivals =
        arrived (1 ∷ 0 ∷ 0 ∷ 0 ∷ 0 ∷ 0 ∷ 6 ∷ 0 ∷ 10 ∷ 0 ∷ 10 ∷ 8 ∷ 0 ∷ 206 ∷ [])
        ∷ arrived (1 ∷ 0 ∷ 0 ∷ 0 ∷ 0 ∷ 0 ∷ 7 ∷ 0 ∷ 10 ∷ 0 ∷ 30 ∷ 9 ∷ 200 ∷ 0 ∷ 206 ∷ [])
        ∷ [];
  };
  out = nothing_sent;
  timeouts = [];
}

abbrev plenty : Memory
plenty = λ cs n. true

abbrev login_made : Stage (Unit {0}) × Peer Bytes Bytes
login_made =
    amqp_login_inner small plenty own blank plain takes_all 0 255 0 (103 ∷ []) (104 ∷ []) talking

frames_of_200 : (login_made.0 ≡ passed tt) × (login_made.1.state.frame_max ≡ 200)
unfolding amqp_login_inner amqp_simple_wait_frame amqp_handle_input amqp_send_frame set_bytes
    get_bytes amqp_tune_connection amqp_release_buffers amqp_send_method amqp_frames_enqueued
frames_of_200 = (refl, refl)
