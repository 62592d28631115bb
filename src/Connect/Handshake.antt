-- ===== src/Connect/Handshake.antt =====
-- src/pg_amqp.c, one host from the socket to the transactional channel: `local_amqp_open_socket`,
-- `local_amqp_set_keepalive`, `local_amqp_login`, and the calls of `local_amqp_get_bs` up to
-- `amqp_tx_select`. The descriptors are those of a system with TCP_KEEPIDLE, such as Linux.
use pg_amqp.Base.{ℕ, Bool, true, false, Option, none, some, [], ◌∷◌, if◌then◌else◌}
use pg_amqp.Events.{
  Conn, Status, Reply, ReplyType, Event, Warning, Login, keepalive, nodelay, keepidle, keepintvl,
  keepcnt, no_tls_socket, no_tcp_socket, connect_failed, login_failed, channel_open_failed,
  tx_select_failed, tcp_socket_new, ssl_socket_new, ssl_set_versions, ssl_set_verify_peer,
  ssl_set_verify_hostname, ssl_set_cacert, ssl_set_key, socket_open_noblock, get_sockfd, setsockopt,
  login, channel_open, tx_select, get_rpc_reply,
}
use pg_amqp.World.{World}
use pg_amqp.Broker.{Host, Settings, Ctx, emit, elog}
use pg_amqp.Connection.{time_val, set_timeout}

abbrev pub Step : Type 0
Step = Ctx → Bool × Ctx

-- The next step, unless this one failed: `goto next_host`.
infixr 6 ◌and_then◌
abbrev pub ◌and_then◌ : Step → Step → Step
◌and_then◌ f g c =
    let (passed, c') = f c in let (r, c'') = g c' in if passed then (r, c'') else (false, c')

abbrev pub is_normal : Reply → Bool
is_normal r = elim r.reply_type [ ReplyType.normal ↦ true | _ ↦ false ]

abbrev pub is_ok : Status → Bool
is_ok s = elim s [ Status.ok ↦ true | _ ↦ false ]

unfoldable pub set_cacert : Conn → Host → Ctx → Ctx
set_cacert k h c = elim h.ssl_cacert [ none ↦ c | some ca ↦ emit (ssl_set_cacert k ca) c ]

unfoldable pub set_key : Conn → Host → Ctx → Ctx
set_key k h c = elim h.ssl_cert [
  | none ↦ c
  | some cert ↦ elim h.ssl_key [ none ↦ c | some key ↦ emit (ssl_set_key k cert key) c ]
]

unfoldable pub configure_tls : Conn → Host → Ctx → Ctx
unfolding set_cacert set_key
configure_tls k h c = set_key k h (
    set_cacert k h (
      emit (ssl_set_verify_hostname k h.ssl_verify)
        (emit (ssl_set_verify_peer k h.ssl_verify) (emit (ssl_set_versions k) c))))

-- `local_amqp_set_keepalive`
unfoldable pub set_keepalive : Option ℕ → Ctx → Ctx
set_keepalive none c = c
set_keepalive (some fd) c = emit (setsockopt fd (keepcnt 3)) (
    emit (setsockopt fd (keepintvl 10)) (
      emit (setsockopt fd (keepidle 30))
        (emit (setsockopt fd (nodelay 1)) (emit (setsockopt fd (keepalive 1)) c))))

-- The arguments that `local_amqp_login` passes.
unfoldable pub login_of : Host → Login
login_of h = record {
  vhost = h.vhost;
  channel_max = 0;
  frame_max = 131072;
  heartbeat = 0;
  capabilities = ("connection.blocked", true) ∷ [];
  user = h.user;
  pass = h.pass;
}

module _ (w : World) (cfg : Settings) (k : Conn) (h : Host) where
  unfoldable pub new_socket : Step
  unfolding configure_tls
  new_socket c =
      if h.use_ssl
      then (let got = w.ssl_socket_new k c.trace in
          let c' = emit (ssl_socket_new k got) c in
          if got
          then (true, configure_tls k h c')
          else (false, elog (no_tls_socket c.bs.broker_id h.host h.port) c'))
      else (let got = w.tcp_socket_new k c.trace in
          let c' = emit (tcp_socket_new k got) c in
          if got then (true, c') else (false, elog (no_tcp_socket c.bs.broker_id h.host h.port) c'))

  unfoldable pub dial : Step
  dial c =
      let s = w.socket_open_noblock k c.trace in
      let c' = emit (socket_open_noblock k h.host h.port (time_val cfg.connect_timeout_ms) s) c in
      if is_ok s then (true, c') else (false, elog (connect_failed c.bs.broker_id h.host h.port) c')

  -- `local_amqp_open_socket`
  unfoldable pub open_socket : Step
  unfolding new_socket dial
  open_socket = new_socket and_then dial

  -- The socket's options and the short timeout of the handshake.
  unfoldable pub tune : Step
  unfolding set_keepalive
  tune c =
      let fd = w.get_sockfd k c.trace in
      let c' = emit (get_sockfd k fd) (record c { bs = record (c.bs) { sockfd = fd } }) in
      (true, set_timeout cfg.handshake_timeout_ms (set_keepalive fd c'))

  unfoldable pub log_in : Step
  unfolding login_of
  log_in c =
      let r = w.login k c.trace in
      let c' = emit (login k (login_of h) r) c in
      if is_normal r
      then (true, c')
      else (false, elog (login_failed c.bs.broker_id h.host h.port) c')

  -- A call whose outcome `amqp_get_rpc_reply` tells, and the WARNING where it is not normal.
  unfoldable pub rpc : Event → Warning → Step
  rpc call complaint c =
      let called = emit call c in
      let r = w.get_rpc_reply k called.trace in
      let c' = emit (get_rpc_reply k r) called in
      if is_normal r then (true, c') else (false, elog complaint c')

  unfoldable pub open_channel : ℕ → Step
  unfolding rpc
  open_channel n c = rpc (channel_open k n) (channel_open_failed c.bs.broker_id h.host h.port) c

  unfoldable pub select_tx : Step
  unfolding rpc
  select_tx c = rpc (tx_select k 2) (tx_select_failed c.bs.broker_id h.host h.port) c

  unfoldable pub handshake : Step
  unfolding open_socket tune log_in open_channel select_tx
  handshake =
      open_socket
      and_then tune
      and_then log_in
      and_then open_channel 1
      and_then open_channel 2
      and_then select_tx
