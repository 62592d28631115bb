-- ===== src/Hosts.antt =====
-- src/pg_amqp.c, the cached rows of amqp.broker: `local_amqp_load_hosts` and
-- `local_amqp_free_hosts`.
pub mod Cache
use pg_amqp.Base.{
  ℕ, ◌%◌, true, false, not, ◌&&◌, Option, none, some, List, [], ◌∷◌, ℤ, pos, if◌then◌else◌, or_else,
  in_range, length,
}
use pg_amqp.Events.{
  Row, invalid_port, not_verified, unknown_broker, lookup_failed, spi_connect, spi_execute,
  spi_finish,
}
use pg_amqp.World.{World}
use pg_amqp.Broker.{Host, Ctx, emit, elog}

abbrev pub default_port : ℤ
default_port = pos 5672

-- The port of a row, 5672 where it is NULL or no port number.
unfoldable pub port_of : Option ℤ → ℤ
port_of p =
    let port = or_else p default_port in if in_range 1 65535 port then port else default_port

unfoldable pub host_of : Row → Host
unfolding port_of
host_of r = record {
  host = or_else r.host "localhost";
  port = port_of r.port;
  vhost = or_else r.vhost "/";
  user = or_else r.user "guest";
  pass = or_else r.pass "guest";
  use_ssl = or_else r.ssl false;
  ssl_verify = or_else r.ssl_verify true;
  ssl_cacert = r.ssl_cacert;
  ssl_cert = r.ssl_cert;
  ssl_key = r.ssl_key;
}

unfoldable pub warn_port : ℕ → Row → Ctx → Ctx
warn_port id r c =
    let port = or_else r.port default_port in
    if in_range 1 65535 port then c else elog (invalid_port id (or_else r.host "localhost") port) c

unfoldable pub warn_verify : ℕ → Host → Ctx → Ctx
warn_verify id h c = if h.use_ssl && not h.ssl_verify then elog (not_verified id h.host) c else c

-- The loop over SPI_tuptable.
unfoldable pub load_rows : ℕ → List Row → Ctx → List Host × Ctx
unfolding host_of warn_port warn_verify
load_rows id [] c = ([], c)
load_rows id (r ∷ rs) c =
    let (hs, c') = load_rows id rs (warn_verify id (host_of r) (warn_port id r c)) in
    (host_of r ∷ hs, c')

-- What is done with a result of SPI_execute, up to SPI_finish.
unfoldable pub load_result : ℕ → Option (List Row) → Ctx → Ctx
unfolding load_rows
load_result pid none c = elog lookup_failed c
load_result pid (some []) c = elog (unknown_broker c.bs.broker_id) c
load_result pid (some (r ∷ rs)) c =
    let (hs, c') = load_rows c.bs.broker_id (r ∷ rs) c in
    let n = length (r ∷ rs) in
    record c' { bs = record (c'.bs) { hosts = some hs; nhosts = n; idx = pid % n } }

module _ (w : World) where
  unfoldable pub load_query : Ctx → Ctx
  unfolding load_result
  load_query c =
      let rows = w.spi_execute c.bs.broker_id c.trace in
      emit spi_finish (load_result w.pid rows (emit (spi_execute c.bs.broker_id rows) c))

  -- `local_amqp_load_hosts`; `none` is the result -1.
  unfoldable pub load_hosts : Ctx → Option ℕ × Ctx
  unfolding load_query
  load_hosts c = elim c.bs.hosts [
    | some _ ↦ (some c.bs.nhosts, c)
    | none ↦
        let connected = w.spi_connect c.trace in
        let opened = emit (spi_connect connected) c in
        let loaded = load_query opened in
        if connected then (some loaded.bs.nhosts, loaded) else (none, opened)
  ]

-- `local_amqp_free_hosts`; the memory of the strings is not modelled.
unfoldable pub free_hosts : Ctx → Ctx
free_hosts c = elim c.bs.hosts [
  | none ↦ c
  | some _ ↦ record c { bs = record (c.bs) { hosts = none; nhosts = 0 } }
]
