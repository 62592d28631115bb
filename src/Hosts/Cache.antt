-- ===== src/Hosts/Cache.antt =====
-- The cache of amqp.broker rows: what `local_amqp_load_hosts` and `local_amqp_free_hosts` make of it.
use pg_amqp.Base.{
  ◌%◌, false, or_else, pos, Bool-cases, inl, inr, ℕ, ◌<◌, ◌≡◌, ◌⊎◌, refl, true, Option, none, some,
  List, [], ◌∷◌, arith, length, All, ℤ, in_range,
}
use pg_amqp.Events.{Row, spi_connect, spi_execute}
use pg_amqp.World.{World}
use pg_amqp.Broker.{Host, BrokerState, Ctx, emit}
use pg_amqp.Readings.{Quiet}
use pg_amqp.Hosts.{
  port_of, host_of, warn_port, warn_verify, load_rows, load_result, load_query, load_hosts,
  free_hosts,
}

abbrev pub IsPort : ℤ → Type 0
IsPort p = in_range 1 65535 p ≡ true

-- A cached list fits its count, its index and the range of ports; with no list the count is 0.
abbrev pub HostsFit : Option (List Host) → ℕ → ℕ → Type 0
HostsFit none n i = n ≡ 0
HostsFit (some hs) n i = (n ≡ length hs) × (i < n) × All (λ h. IsPort h.port) hs

abbrev pub IsCached : BrokerState → Type 0
IsCached bs = HostsFit bs.hosts bs.nhosts bs.idx

-- The fields that loading and dropping the list leave alone, and the counts.
pub record KeepsConn (id channel : ℕ) (c c' : Ctx) : Type 0 where
  pub same_id : c'.bs.broker_id ≡ c.bs.broker_id
  pub same_conn : c'.bs.conn ≡ c.bs.conn
  pub same_sockfd : c'.bs.sockfd ≡ c.bs.sockfd
  pub same_uncommitted : c'.bs.uncommitted ≡ c.bs.uncommitted
  pub same_inerror : c'.bs.inerror ≡ c.bs.inerror
  pub same_blocked : c'.bs.blocked ≡ c.bs.blocked
  pub same_failures : c'.bs.consecutive_failures ≡ c.bs.consecutive_failures
  pub same_last : c'.bs.last_failed_connect ≡ c.bs.last_failed_connect
  pub quiet : Quiet id channel c.trace c'.trace

port_of-IsPort : (p : Option ℤ) → IsPort (port_of p)
unfolding port_of
port_of-IsPort p = ground arith

module _ (id channel : ℕ) where
  KeepsConn-refl : (c : Ctx) → KeepsConn id channel c c
  KeepsConn-refl c = ground arith

  -- The rows' warnings change the log alone.
  record OnlyWarns (c c' : Ctx) : Type 0 where
    same_bs : c'.bs ≡ c.bs
    quiet : Quiet id channel c.trace c'.trace

  warn_row-OnlyWarns :
      (j : ℕ) (r : Row) (c : Ctx) → OnlyWarns c (warn_verify j (host_of r) (warn_port j r c))
  unfolding warn_verify warn_port
  warn_row-OnlyWarns j r c = ground arith

  load_rows-OnlyWarns : (j : ℕ) (rs : List Row) (c : Ctx) → OnlyWarns c (load_rows j rs c).1
  unfolding load_rows
  load_rows-OnlyWarns j [] c = ground arith
  load_rows-OnlyWarns j (r ∷ rs) c =
      let warned = warn_verify j (host_of r) (warn_port j r c) in
      ground (arith, warn_row-OnlyWarns j r c, load_rows-OnlyWarns j rs warned)

  load_result-KeepsConn :
      (pid : ℕ) (o : Option (List Row)) (c : Ctx) → KeepsConn id channel c (load_result pid o c)
  unfolding load_result
  load_result-KeepsConn pid none c = ground arith
  load_result-KeepsConn pid (some []) c = ground arith
  load_result-KeepsConn pid (some (r ∷ rs)) c =
      ground (arith, load_rows-OnlyWarns c.bs.broker_id (r ∷ rs) c)

length-load_rows : (j : ℕ) (rs : List Row) (c : Ctx) → length (load_rows j rs c).0 ≡ length rs
unfolding load_rows
length-load_rows j [] c = refl
length-load_rows j (r ∷ rs) c =
    omega (arith, length-load_rows j rs (warn_verify j (host_of r) (warn_port j r c)))

load_rows-ports : (j : ℕ) (rs : List Row) (c : Ctx) → All (λ h. IsPort h.port) (load_rows j rs c).0
unfolding load_rows
load_rows-ports j [] c = tt
load_rows-ports j (r ∷ rs) c =
    (port_of-IsPort r.port, load_rows-ports j rs (warn_verify j (host_of r) (warn_port j r c)))

load_result-IsCached :
    (pid : ℕ) (o : Option (List Row)) (c : Ctx)
    → c.bs.hosts ≡ none
    → c.bs.nhosts ≡ 0
    → IsCached (load_result pid o c).bs
unfolding load_result
load_result-IsCached pid none c h n = ground arith
load_result-IsCached pid (some []) c h n = ground arith
load_result-IsCached pid (some (r ∷ rs)) c h n = (
  omega (arith, length-load_rows c.bs.broker_id (r ∷ rs) c),
  omega arith,
  load_rows-ports c.bs.broker_id (r ∷ rs) c,
)

-- The rows that `load_hosts` gets, and the context in which it gets them.
abbrev pub queried : World → Ctx → Option (List Row) × Ctx
queried w c =
    let opened = emit (spi_connect (w.spi_connect c.trace)) c in
    let rows = w.spi_execute c.bs.broker_id opened.trace in
    (rows, emit (spi_execute c.bs.broker_id rows) opened)

module _ (w : World) where
  pub load_hosts-KeepsConn : (id channel : ℕ) (c : Ctx) → KeepsConn id channel c (load_hosts w c).1
  unfolding load_hosts load_query
  load_hosts-KeepsConn id channel c =
      ground (arith, load_result-KeepsConn id channel w.pid (queried w c).0 (queried w c).1)

  -- Loading keeps a cache that fits, or makes one.
  pub load_hosts-IsCached : (c : Ctx) → IsCached c.bs → IsCached (load_hosts w c).1.bs
  unfolding load_hosts load_query
  load_hosts-IsCached c v =
      ground (arith, load_result-IsCached w.pid (queried w c).0 (queried w c).1)

  pub load_hosts-count :
      (c : Ctx)
      → ((load_hosts w c).0 ≡ none) ⊎ ((load_hosts w c).0 ≡ some (load_hosts w c).1.bs.nhosts)
  unfolding load_hosts
  load_hosts-count c = ground arith

pub free_hosts-IsCached : (c : Ctx) → IsCached c.bs → IsCached (free_hosts c).bs
unfolding free_hosts
free_hosts-IsCached c v = ground arith

-- A column: its value where there is one, and the default where it is NULL.
abbrev pub Column : {A : Type 0} → Option A → A → A → Type 0
Column o d a = ((o ≡ none) × (a ≡ d)) ⊎ (o ≡ some a)

-- What a host has to be, by its row, column by column. A port that is no port number is 5672 as well.
pub record Describes (r : Row) (h : Host) : Type 0 where
  pub host : Column r.host "localhost" h.host
  pub port :
      ((r.port ≡ some h.port) × (in_range 1 65535 h.port ≡ true))
      ⊎ ((h.port ≡ pos 5672)
          × ((r.port ≡ none) ⊎ ((p : ℤ) × (r.port ≡ some p) × (in_range 1 65535 p ≡ false))))
  pub vhost : Column r.vhost "/" h.vhost
  pub user : Column r.user "guest" h.user
  pub pass : Column r.pass "guest" h.pass
  pub use_ssl : Column r.ssl false h.use_ssl
  pub ssl_verify : Column r.ssl_verify true h.ssl_verify
  pub ssl_cacert : h.ssl_cacert ≡ r.ssl_cacert
  pub ssl_cert : h.ssl_cert ≡ r.ssl_cert
  pub ssl_key : h.ssl_key ≡ r.ssl_key

or_else-Column : {A : Type 0} (o : Option A) (d : A) → Column o d (or_else o d)
or_else-Column none d = inl (refl, refl)
or_else-Column (some a) d = inr refl

port_of-port :
    (o : Option ℤ)
    → ((o ≡ some (port_of o)) × (in_range 1 65535 (port_of o) ≡ true))
      ⊎ ((port_of o ≡ pos 5672)
          × ((o ≡ none) ⊎ ((p : ℤ) × (o ≡ some p) × (in_range 1 65535 p ≡ false))))
unfolding port_of
port_of-port none = inr (refl, inl refl)
port_of-port (some p) = elim (Bool-cases (in_range 1 65535 p)) [
  | inl ok ↦ inl (ground arith)
  | inr bad ↦ inr (ground arith, inr (p, refl, bad))
]

host_of-Describes : (r : Row) → Describes r (host_of r)
unfolding host_of
host_of-Describes r = record {
  host = or_else-Column r.host "localhost";
  port = port_of-port r.port;
  vhost = or_else-Column r.vhost "/";
  user = or_else-Column r.user "guest";
  pass = or_else-Column r.pass "guest";
  use_ssl = or_else-Column r.ssl false;
  ssl_verify = or_else-Column r.ssl_verify true;
  ssl_cacert = refl;
  ssl_cert = refl;
  ssl_key = refl;
}

-- A host for each row, in the same order.
abbrev pub Describe : List Row → List Host → Type 0
Describe [] [] = Unit
Describe (r ∷ rs) (h ∷ hs) = Describes r h × Describe rs hs
Describe _ _ = ⊥

load_rows-Describe : (j : ℕ) (rs : List Row) (c : Ctx) → Describe rs (load_rows j rs c).0
unfolding load_rows
load_rows-Describe j [] c = tt
load_rows-Describe j (r ∷ rs) c = (host_of-Describes r, load_rows-Describe j rs _)

module _ (w : World) where
  -- With an empty cache and a query that finds rows, the cache holds a host for every row, in the
  -- order of the query: with the row's columns, and where one is NULL with localhost, port 5672 (also
  -- for a number that is no port), the vhost /, guest and guest, without TLS, and with verification.
  -- Its count is that of the rows, and it starts at an index that the process id picks.
  pub load_hosts-caches :
      (c : Ctx) (r : Row) (rs : List Row)
      → c.bs.hosts ≡ none
      → w.spi_connect c.trace ≡ true
      → w.spi_execute c.bs.broker_id (spi_connect true ∷ c.trace) ≡ some (r ∷ rs)
      → let (n, c') = load_hosts w c in
        (hs : List Host) × (n ≡ some (length (r ∷ rs)))
        × (c'.bs.hosts ≡ some hs)
        × Describe (r ∷ rs) hs
        × (c'.bs.nhosts ≡ length (r ∷ rs))
        × (c'.bs.idx ≡ w.pid % length (r ∷ rs))
  unfolding load_hosts load_query load_result
  load_hosts-caches c r rs empty connected found =
      let opened = emit (spi_connect true) c in
      let asked = emit (spi_execute c.bs.broker_id (some (r ∷ rs))) opened in
      let id = c.bs.broker_id in
      (
        (load_rows id (r ∷ rs) asked).0,
        ground arith,
        ground arith,
        load_rows-Describe id (r ∷ rs) asked,
        ground arith,
        ground arith,
      )
