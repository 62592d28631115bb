-- ===== src/Timeouts.antt =====
-- Which timeout src/pg_amqp.c gives a connection before each blocking call, read off the log:
-- `handshake_timeout_ms` for the login handshake, `commit_timeout_ms` for the end of a transaction,
-- AMQP_GRACEFUL_CLOSE_MS for a graceful close.
pub mod Calls
pub mod Handshake
pub mod Connect
pub mod Publish
pub mod Transactions
pub mod Backend
use pg_amqp.Base.{ℕ, ◌*◌, ◌≡◌, Option, none, some, [], ◌∷◌, ◌==◌, if◌then◌else◌}
use pg_amqp.Events.{
  Conn, Event, Trace, TimeVal, set_rpc_timeout, new_connection, login, channel_open, tx_select,
  tx_commit, tx_rollback, connection_close,
}
use pg_amqp.Broker.{Settings}
use pg_amqp.Connection.{time_val, graceful_close_ms}

-- The timeout that `amqp_set_rpc_timeout` gave a connection last; a new connection has none. That is a
-- reading of the log: which of the library's calls the timeout bounds is the library's own, and rabbitmq-c
-- bounds amqp_login by a handshake timeout of its own that the code does not set.
abbrev pub last_set : Conn → Trace → Option TimeVal
last_set k [] = none
last_set k (set_rpc_timeout j tv ∷ t) = if j == k then some tv else last_set k t
last_set k (new_connection (some j) ∷ t) = if j == k then none else last_set k t
last_set k (_ ∷ t) = last_set k t

module _ (cfg : Settings) where
  -- The timeout that has to be set last before a call.
  abbrev pub Needs : Event → Trace → Type 0
  Needs (login k _ _) t = last_set k t ≡ some (time_val cfg.handshake_timeout_ms)
  Needs (channel_open k _) t = last_set k t ≡ some (time_val cfg.handshake_timeout_ms)
  Needs (tx_select k _) t = last_set k t ≡ some (time_val cfg.handshake_timeout_ms)
  Needs (tx_commit k _) t = last_set k t ≡ some (time_val cfg.commit_timeout_ms)
  Needs (tx_rollback k _) t = last_set k t ≡ some (time_val cfg.commit_timeout_ms)
  Needs (connection_close k) t =
      last_set k t ≡ some (record { sec = 0; usec = graceful_close_ms * 1000 })
  Needs _ t = Unit

  -- Every call of the log was made with its timeout set last.
  abbrev pub AllTimed : Trace → Type 0
  AllTimed [] = Unit
  AllTimed (e ∷ t) = Needs e t × AllTimed t
