-- ===== src/Broker.antt =====
-- The data of src/pg_amqp.c: the cached hosts of a broker, the state of its connection, the settings
-- (GUCs), and the context in which a function works on one broker. Counters are naturals: the
-- overflow of a C `int`, undefined there, is not modelled.
pub mod Invariant
use pg_amqp.Base.{ℕ, String, Bool, false, Option, none, List, ◌∷◌, ℤ}
use pg_amqp.Events.{Conn, Event, Trace, warn, Warning}

-- `struct broker_host`
pub record Host : Type 0 where
  pub host : String
  pub port : ℤ
  pub vhost : String
  pub user : String
  pub pass : String
  pub use_ssl : Bool
  pub ssl_verify : Bool
  pub ssl_cacert : Option String
  pub ssl_cert : Option String
  pub ssl_key : Option String

-- `struct brokerstate`. `none` is NULL for `conn` and `hosts`, and a negative number for `sockfd`.
pub record BrokerState : Type 0 where
  pub broker_id : ℕ
  pub conn : Option Conn
  pub sockfd : Option ℕ
  pub uncommitted : ℕ
  pub inerror : Bool
  pub blocked : Bool
  pub idx : ℕ
  pub consecutive_failures : ℕ
  pub last_failed_connect : ℕ
  pub hosts : Option (List Host)
  pub nhosts : ℕ

-- A state as `local_amqp_get_a_bs` allocates it: zeroed, but for the id and the descriptor.
abbrev pub new_state : ℕ → BrokerState
new_state broker_id = record {
  broker_id = broker_id;
  conn = none;
  sockfd = none;
  uncommitted = 0;
  inerror = false;
  blocked = false;
  idx = 0;
  consecutive_failures = 0;
  last_failed_connect = 0;
  hosts = none;
  nhosts = 0;
}

-- The variables behind the `pg_amqp.*` settings.
pub record Settings : Type 0 where
  pub connect_timeout_ms : ℕ
  pub handshake_timeout_ms : ℕ
  pub operation_timeout_ms : ℕ
  pub commit_timeout_ms : ℕ
  pub max_body_bytes : ℕ
  pub connect_budget_ms : ℕ

-- The values that the settings have before anybody sets them.
abbrev pub defaults : Settings
defaults = record {
  connect_timeout_ms = 2000;
  handshake_timeout_ms = 2000;
  operation_timeout_ms = 30000;
  commit_timeout_ms = 2000;
  max_body_bytes = 0;
  connect_budget_ms = 0;
}

-- What a function that is handed a `struct brokerstate *` reads and writes.
pub record Ctx : Type 0 where
  pub bs : BrokerState
  pub trace : Trace

abbrev pub emit : Event → Ctx → Ctx
emit e c = record c { trace = e ∷ c.trace }

abbrev pub elog : Warning → Ctx → Ctx
elog w = emit (warn w)

abbrev pub set_inerror : Bool → Ctx → Ctx
set_inerror b c = record c { bs = record (c.bs) { inerror = b } }

abbrev pub set_uncommitted : ℕ → Ctx → Ctx
set_uncommitted n c = record c { bs = record (c.bs) { uncommitted = n } }

abbrev pub set_blocked : Bool → Ctx → Ctx
set_blocked b c = record c { bs = record (c.bs) { blocked = b } }
