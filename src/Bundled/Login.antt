-- ===== src/Bundled/Login.antt =====
-- src/librabbitmq/amqp_socket.c, the login: `amqp_send_header`, `sasl_response`,
-- `amqp_simple_wait_method`, `amqp_login_inner` and `amqp_login`, with the method PLAIN. The structs of
-- the methods are parameters by what is read from them and how they are made. The pool is taken to have
-- room for the response.
pub mod Negotiation
pub mod Ends
use pg_amqp.Base.{
  ℕ, zero, suc, ◌+◌, ◌*◌, Bool, true, false, not, ◌&&◌, ◌||◌, List, [], ◌∷◌, ◌++◌, ltb, ◌==◌,
  if◌then◌else◌,
}
use pg_amqp.Events.{Bytes}
use pg_amqp.Bundled.Buffer.{Memory}
use pg_amqp.Bundled.Pool
use pg_amqp.Bundled.Frame.{Result, ok, fail, Codec, Writer, Out}
use pg_amqp.Bundled.Publish.{amqp_send_method}
use pg_amqp.Bundled.Input.{Decoder, Received, method}
use pg_amqp.Bundled.Receive.{
  Receiver, Waited, found, error, closed, crashed, blocked, starving, amqp_simple_wait_frame,
  amqp_frames_enqueued, RpcReply, normal, amqp_simple_rpc, rpc_crashed, rpc_blocked, rpc_starved,
}
use pg_amqp.Bundled.Lifecycle.{
  ConnectionState, Ending, done, no_memory, aborted, amqp_tune_connection, amqp_release_buffers,
  amqp_maybe_release_buffers,
}

-- What the login reads of `connection.start` and `connection.tune`, and the structs it sends.
pub record Methods (M : Type 0) : Type 0 where
  pub version : M → ℕ × ℕ
  pub tuning : M → ℕ × ℕ × ℕ
  pub start_ok : Bytes → M
  pub tune_ok : ℕ → ℕ → ℕ → M
  pub connection_open : Bytes → M

-- The connection with its socket, and the timeouts in seconds that were set on it, the latest first.
pub record Peer (M P : Type 0) : Type 0 where
  pub state : ConnectionState
  pub receiver : Receiver M P
  pub out : Out
  pub timeouts : List ℕ

-- How a stage ends the login early: `-e`, the 0 at the end of the stream, an abort, a destroyed
-- connection, or a wait without end; `unfinished`, without fuel, has no counterpart in the code.
pub data Stop : Type 0 where
  stopped : ℕ → Stop
  at_end fatal destroyed waiting unfinished : Stop

pub data Stage (A : Type 0) : Type 0 where
  passed : A → Stage A
  ended : Stop → Stage A

-- What `amqp_login` returns: a reply of its own that says NORMAL, or how the exchange ended.
pub data LoginReply (M : Type 0) : Type 0 where
  logged_in : LoginReply M
  replied : RpcReply M → LoginReply M

-- EPROTOTYPE
abbrev pub eprototype : ℕ
eprototype = 91

abbrev pub header : Bytes
header = 65 ∷ 77 ∷ 81 ∷ 80 ∷ 1 ∷ 1 ∷ 8 ∷ 0 ∷ []

-- `sasl_response` for AMQP_SASL_METHOD_PLAIN.
abbrev pub sasl_response : Bytes → Bytes → Bytes
sasl_response username password = (0 ∷ username) ++ (0 ∷ password)

-- The values that both sides keep to: channels, frame size and heartbeat.
unfoldable pub negotiate : ℕ × ℕ × ℕ → ℕ × ℕ × ℕ → ℕ × ℕ × ℕ
negotiate (server_channels, server_frame, server_beat) (channel_max, frame_max, heartbeat) = (
  if not (server_channels == 0) && (ltb server_channels channel_max || channel_max == 0)
      then server_channels
      else channel_max,
  if not (server_frame == 0) && ltb server_frame frame_max then server_frame else frame_max,
  if not (server_beat == 0) && ltb server_beat heartbeat then server_beat else heartbeat,
)

abbrev pub Login : Type 0 → Type 0 → Type 0 → Type 0
Login M P A = Peer M P → Stage A × Peer M P

module _ {M P : Type 0} where
  abbrev pub bind : {A B : Type 0} → Stage A × Peer M P → (A → Login M P B) → Stage B × Peer M P
  bind (passed a, p) g = g a p
  bind (ended s, p) g = (ended s, p)

  infixl 1 ◌>>=◌
  abbrev pub ◌>>=◌ : {A B : Type 0} → Login M P A → (A → Login M P B) → Login M P B
  (f >>= g) p = bind (f p) g

  -- AMQP_CHECK_EOF_RESULT and the assertions on the frame.
  unfoldable pub expect : ℕ → ℕ → Waited M P → Stage M
  expect channel id (found (method c n d)) =
      if c == channel && n == id then passed d else ended fatal
  expect channel id (found _) = ended fatal
  expect channel id (error e) = ended (stopped e)
  expect channel id closed = ended at_end
  expect channel id crashed = ended fatal
  expect channel id blocked = ended waiting
  expect channel id starving = ended unfinished

  -- The reply of `amqp_login` after the exchange, by the connection as it is and with its pools released.
  unfoldable pub after_open : RpcReply M → Peer M P → Peer M P → LoginReply M × Peer M P
  after_open (normal _ _) p released = (logged_in, released)
  after_open a p released = (replied a, p)

  abbrev pub with_state : ConnectionState → Peer M P → Peer M P
  with_state s p = record p { state = s; receiver = record (p.receiver) { inbound = s.inbound } }

  unfoldable pub land : Peer M P → Ending × ConnectionState → Stage (Unit {0}) × Peer M P
  land p (done, s) = (passed tt, with_state s p)
  land p (no_memory, s) = (ended destroyed, with_state s p)
  land p (aborted, s) = (ended fatal, with_state s p)

  -- `amqp_tune_connection` and the releases, on the connection that the receiver is a part of.
  unfoldable pub on_state :
      (ConnectionState → Ending × ConnectionState) → Peer M P → Stage (Unit {0}) × Peer M P
  unfolding land
  on_state f p =
      let r = p.receiver in
      land p (f (record (p.state) { inbound = r.inbound; frames_queued = amqp_frames_enqueued r }))

  abbrev pub with_out : Peer M P → Result × Out → Stage (Unit {0}) × Peer M P
  with_out p (ok _, o) = (passed tt, record p { out = o })
  with_out p (fail e, o) = (ended (stopped e), record p { out = o })

  -- The two calls of `setsockopt` where there is a heartbeat.
  unfoldable pub set_heartbeat : ℕ → Login M P (Unit {0})
  set_heartbeat heartbeat p =
      if heartbeat == 0
      then (passed tt, p)
      else (passed tt, record p { timeouts = 2 * heartbeat ∷ p.timeouts })

  -- `amqp_send_header`, whose result the login does not look at.
  unfoldable pub amqp_send_header : Login M P (Unit {0})
  amqp_send_header p =
      (passed tt, record p { out = record (p.out) { writes = header ∷ p.out.writes } })

module _ {M P : Type 0} (ms : Methods M) (mem : Pool.Memory) (dec : Decoder M P)
    (page : Receiver M P → Memory) (cd : Codec M P) (fn : Writer) where
  unfoldable pub amqp_simple_wait_method : ℕ → ℕ → Login M P M
  unfolding expect
  amqp_simple_wait_method channel id p =
      let (w, r) = amqp_simple_wait_frame dec page p.receiver in
      (expect channel id w, record p { receiver = r })

  -- `amqp_send_method` on channel 0 and AMQP_CHECK_RESULT.
  unfoldable pub send_checked : ℕ → M → Login M P (Unit {0})
  send_checked id m p = with_out p (amqp_send_method cd fn p.state.frame_max 0 id m p.out)

  unfoldable pub check_version : M → Login M P (Unit {0})
  check_version m p =
      let (major, minor) = ms.version m in
      if major == 8 && minor == 0 then (passed tt, p) else (ended (stopped eprototype), p)

  -- From the reply to `connection.tune` on.
  unfoldable pub tune : ℕ × ℕ × ℕ → Login M P (Unit {0})
  unfolding set_heartbeat on_state send_checked
  tune (channel_max, frame_max, heartbeat) = set_heartbeat heartbeat >>= λ _.
      on_state (amqp_tune_connection mem channel_max frame_max heartbeat) >>= λ _.
      send_checked 655391 (ms.tune_ok channel_max frame_max heartbeat) >>= λ _.
      on_state amqp_release_buffers

  unfoldable pub amqp_login_inner : ℕ → ℕ → ℕ → Bytes → Bytes → Login M P (Unit {0})
  unfolding set_heartbeat amqp_send_header amqp_simple_wait_method check_version send_checked
      on_state negotiate tune
  amqp_login_inner channel_max frame_max heartbeat username password =
      set_heartbeat heartbeat >>= λ _. amqp_send_header >>= λ _.
      amqp_simple_wait_method 0 655370 >>= λ start. check_version start >>= λ _.
      send_checked 655371 (ms.start_ok (sasl_response username password)) >>= λ _.
      on_state amqp_release_buffers >>= λ _. amqp_simple_wait_method 0 655390 >>= λ tuned.
      tune (negotiate (ms.tuning tuned) (channel_max, frame_max, heartbeat))

  -- The exchange that opens the virtual host, and the release of the pools.
  unfoldable pub open_vhost : Bytes → Peer M P → LoginReply M × Peer M P
  unfolding on_state after_open
  open_vhost vhost p =
      let (a, r, o) =
        amqp_simple_rpc dec page 0 (655401 ∷ []) cd fn p.state.frame_max 655400
          (ms.connection_open vhost) p.receiver p.out in
      let p' = record p { receiver = r; out = o } in
      let (_, released) = on_state amqp_maybe_release_buffers p' in after_open a p' released

  -- `amqp_login`, which does not look at the result of `amqp_login_inner`: only where that does not
  -- return, or has freed the connection, there is no exchange.
  unfoldable pub amqp_login : ℕ → ℕ → ℕ → Bytes → Bytes → Bytes → Peer M P → LoginReply M × Peer M P
  unfolding amqp_login_inner open_vhost
  amqp_login channel_max frame_max heartbeat vhost username password p =
      let (s, p') = amqp_login_inner channel_max frame_max heartbeat username password p in
      elim s [
        | passed _ ↦ open_vhost vhost p'
        | ended (stopped _) ↦ open_vhost vhost p'
        | ended at_end ↦ open_vhost vhost p'
        | ended fatal ↦ (replied rpc_crashed, p')
        | ended destroyed ↦ (replied rpc_crashed, p')
        | ended waiting ↦ (replied rpc_blocked, p')
        | ended unfinished ↦ (replied rpc_starved, p')
      ]
