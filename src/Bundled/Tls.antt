-- ===== src/Bundled/Tls.antt =====
-- src/librabbitmq/amqp_socket.c, `amqp_ssl_handshake` and `amqp_ssl_shutdown`, which the repository
-- added to the bundled library. OpenSSL is a parameter: whether each call succeeds, by the calls
-- before.
pub mod Secured
use pg_amqp.Base.{ℕ, Bool, true, false, Option, none, some, List, [], ◌∷◌, if◌then◌else◌}
use pg_amqp.Events.{Bytes}

-- The calls of OpenSSL.
pub data TlsCall : Type 0 where
  ctx_new set_min_tls12 default_verify_paths check_private_key ctx_free : TlsCall
  set_verify : Bool → TlsCall
  load_verify_locations use_certificate use_private_key : Bytes → TlsCall
  ssl_new set_no_partial_wildcards connect ssl_free shutdown : TlsCall
  set_fd : ℕ → TlsCall
  set_host_name set_host : Bytes → TlsCall

-- The calls and whether they succeeded, the latest first.
abbrev pub TlsCalls : Type 0
TlsCalls = List (TlsCall × Bool)

abbrev pub Ssl : Type 0
Ssl = TlsCalls → TlsCall → Bool

-- The arguments, and the connection's socket.
pub record TlsArgs : Type 0 where
  pub sockfd : ℕ
  pub hostname : Bytes
  pub verify_peer : Bool
  pub cacert : Option Bytes
  pub client_cert : Option Bytes
  pub client_key : Option Bytes

-- A call without a result.
abbrev pub tell : TlsCall → TlsCalls → TlsCalls
tell c cs = (c, true) ∷ cs

-- A call whose result the code ignores; the log keeps it.
abbrev pub try : Ssl → TlsCall → TlsCalls → TlsCalls
try ssl c cs = (c, ssl cs c) ∷ cs

-- `SSL_CTX_free(ctx); return -1;` and `SSL_free(ssl); return -1;` where the step before failed.
abbrev pub free_failed : TlsCall → Bool × TlsCalls → Bool × TlsCalls
free_failed c (true, cs) = (true, cs)
free_failed c (false, cs) = (false, tell c cs)

-- A step that is only taken where the one before it succeeded.
unfoldable pub and_then : Bool × TlsCalls → (TlsCalls → Bool × TlsCalls) → Bool × TlsCalls
and_then (ok, cs) next = let r = next cs in if ok then r else (false, cs)

module _ (ssl : Ssl) where
  -- A call whose result is tested.
  abbrev pub ask : TlsCall → TlsCalls → Bool × TlsCalls
  ask c cs = let ok = ssl cs c in (ok, (c, ok) ∷ cs)

  -- By `cacert`.
  unfoldable pub trust : Option Bytes → TlsCalls → Bool × TlsCalls
  trust none cs = (true, try ssl default_verify_paths cs)
  trust (some path) cs = ask (load_verify_locations path) cs

  -- "Server certificate verification"
  unfoldable pub verify_server : Bool → Option Bytes → TlsCalls → Bool × TlsCalls
  unfolding trust
  verify_server verify_peer cacert cs =
      let trusted = trust cacert (tell (set_verify true) cs) in
      if verify_peer then trusted else (true, tell (set_verify false) cs)

  -- "Optional mutual TLS (client certificate)"
  unfoldable pub identify : Option Bytes → Option Bytes → TlsCalls → Bool × TlsCalls
  unfolding and_then
  identify (some cert) (some key) cs =
      and_then (and_then (ask (use_certificate cert) cs) (ask (use_private_key key)))
        (ask check_private_key)
  identify (some cert) none cs = (true, cs)
  identify none key cs = (true, cs)

  -- "Enable automatic hostname verification when verifying peer"
  unfoldable pub verify_host : Bool → Bytes → TlsCalls → Bool × TlsCalls
  verify_host verify_peer hostname cs =
      let named = ask (set_host hostname) (tell set_no_partial_wildcards cs) in
      if verify_peer then named else (true, cs)

  -- From `SSL_new` on, with the SSL object.
  unfoldable pub greet_server : TlsArgs → TlsCalls → Bool × TlsCalls
  unfolding verify_host and_then
  greet_server a cs =
      let ready = try ssl (set_host_name a.hostname) (try ssl (set_fd a.sockfd) cs) in
      free_failed ssl_free (and_then (verify_host a.verify_peer a.hostname ready) (ask connect))

  -- From the two checks on the context to its release.
  unfoldable pub configure : TlsArgs → TlsCalls → Bool × TlsCalls
  unfolding verify_server identify and_then
  configure a cs = free_failed ctx_free (
      and_then (verify_server a.verify_peer a.cacert (try ssl set_min_tls12 cs))
        (identify a.client_cert a.client_key))

  -- `SSL_new`, and the release of the context.
  unfoldable pub new_ssl : TlsCalls → Bool × TlsCalls
  new_ssl cs = let (ok, cs') = ask ssl_new cs in (ok, tell ctx_free cs')

  -- `amqp_ssl_handshake`: whether it returns 0, which is when the connection gets the SSL object.
  unfoldable pub amqp_ssl_handshake : TlsArgs → TlsCalls → Bool × TlsCalls
  unfolding configure new_ssl greet_server and_then
  amqp_ssl_handshake a cs =
      and_then (and_then (and_then (ask ctx_new cs) (configure a)) new_ssl) (greet_server a)

-- `amqp_ssl_shutdown`, where there is a connection, by whether it has an SSL object.
unfoldable pub amqp_ssl_shutdown : Bool → TlsCalls → TlsCalls
amqp_ssl_shutdown true cs = tell shutdown cs
amqp_ssl_shutdown false cs = cs
