-- ===== src/Connect.antt =====
-- src/pg_amqp.c, how a broker is reached: the reconnect backoff, `local_amqp_open_socket`,
-- `local_amqp_login`, the handshake and the failover loop of `local_amqp_get_bs`.
unfoldable pub use Backoff.*
unfoldable pub use Handshake.*
pub mod Keeps
pub mod Wait
pub mod Round
pub mod Outcome
pub mod Failover
mod Backoff
mod Handshake
use pg_amqp.Base.{
  ℕ, zero, suc, ◌+◌, ◌-◌, ◌%◌, ◌^◌, ◌*◌, Bool, true, false, not, ◌&&◌, Option, none, some, List,
  ltb, leb, ◌==◌, if◌then◌else◌, get_elem?, present,
}
use pg_amqp.Events.{Conn, fault, now_ms, time, new_connection, budget_exhausted, trying_next_host}
use pg_amqp.World.{World}
use pg_amqp.Broker.{Host, Settings, Ctx, emit, elog}
use pg_amqp.Connection.{set_timeout, disconnect_bs}
use pg_amqp.Hosts.{load_hosts}

-- What one round of the failover loop came to: `return bs`, the `break` where there is no memory,
-- `next_host`, or an index outside the host list.
pub data Attempt : Type 0 where
  done no_memory invalid : Attempt
  host_failed : Host → Attempt

-- Not `local_amqp_load_hosts(bs) <= 0`
abbrev pub any_host : Option ℕ → Bool
any_host none = false
any_host (some n) = ltb 0 n

-- `&bs->hosts[bs->idx]`
unfoldable pub host_at : Option (List Host) → ℕ → Option Host
host_at none i = none
host_at (some hs) i = get_elem? hs i

module _ (w : World) (cfg : Settings) where
  -- "Every host failed: grow the backoff window."
  unfoldable pub give_up : Ctx → Ctx
  give_up c =
      let now = w.time c.trace in
      let c' = emit (time now) c in
      record c' {
        bs = record (c'.bs) {
          consecutive_failures = c'.bs.consecutive_failures + 1;
          last_failed_connect = now;
        };
      }

  -- "Connected: switch to the steady-state budget and clear failure state."
  unfoldable pub connected : Ctx → Ctx
  connected c =
      let c' = set_timeout cfg.operation_timeout_ms c in
      record c' {
        bs = record (c'.bs) { last_failed_connect = 0; consecutive_failures = 0; blocked = false };
      }

  -- The test of the deadline behind `next_host`.
  unfoldable pub over_deadline : ℕ → Ctx → Bool × Ctx
  over_deadline zero c = (false, c)
  over_deadline (suc d) c = let now = w.now_ms c.trace in (leb (suc d) now, emit (now_ms now) c)

  -- `bs->idx = (bs->idx + 1) % bs->nhosts`
  unfoldable pub advance : Ctx → Ctx
  advance c = record c { bs = record (c.bs) { idx = (c.bs.idx + 1) % c.bs.nhosts } }

  -- From the socket on: `return bs`, or `next_host`, where the connection is dropped.
  unfoldable pub greet : Conn → Host → Ctx → Attempt × Ctx
  unfolding connected
  greet k h c =
      let (greeted, c') = handshake w cfg k h c in
      if greeted then (done, connected c') else (host_failed h, disconnect_bs false c')

  -- `if(!bs->conn) break;` and what follows it.
  unfoldable pub try_with : Option Conn → Host → Ctx → Attempt × Ctx
  unfolding greet
  try_with none h c = (no_memory, c)
  try_with (some k) h c = greet k h c

  -- One round with the host at hand.
  unfoldable pub try_host : Host → Ctx → Attempt × Ctx
  unfolding try_with
  try_host h c =
      let k = w.new_connection c.trace in
      try_with k h (emit (new_connection k) (record c { bs = record (c.bs) { conn = k } }))

  unfoldable pub try_current : Option Host → Ctx → Attempt × Ctx
  unfolding try_host
  try_current none c = (invalid, emit fault c)
  try_current (some h) c = try_host h c

  -- One round of the loop.
  unfoldable pub attempt : Ctx → Attempt × Ctx
  unfolding advance host_at try_current
  attempt c = let c' = advance c in try_current (host_at c'.bs.hosts c'.bs.idx) c'

  unfoldable pub warn_next : ℕ → Host → Ctx → Ctx
  warn_next tries h c = if ltb 1 tries then elog (trying_next_host h.host h.port) c else c

  -- What follows a round: the end, or `rest` with the next host.
  unfoldable pub after_attempt : (Ctx → Ctx) → ℕ → ℕ → Attempt → Ctx → Ctx
  unfolding give_up over_deadline warn_next
  after_attempt rest deadline tries done c = c
  after_attempt rest deadline tries no_memory c = give_up c
  after_attempt rest deadline tries invalid c = give_up c
  after_attempt rest deadline tries (host_failed h) c =
      let (over, c') = over_deadline deadline c in
      if over
      then give_up (elog (budget_exhausted cfg.connect_budget_ms c'.bs.broker_id) c')
      else rest (warn_next tries h c')

  -- The loop over `tries`, and what follows it.
  unfoldable pub connect_loop : ℕ → ℕ → Ctx → Ctx
  unfolding attempt after_attempt
  connect_loop deadline zero c = give_up c
  connect_loop deadline (suc tries) c =
      let (a, c') = attempt c in
      after_attempt (connect_loop deadline tries) deadline (suc tries) a c'

  -- The deadline of this attempt in milliseconds, 0 for none.
  unfoldable pub start_clock : Ctx → ℕ × Ctx
  start_clock c =
      if ltb 0 cfg.connect_budget_ms
      then (let now = w.now_ms c.trace in (now + cfg.connect_budget_ms, emit (now_ms now) c))
      else (0, c)

  -- `local_amqp_get_bs` where the broker is neither connected nor in its backoff window.
  unfoldable pub reconnect : Ctx → Ctx
  unfolding connect_loop start_clock give_up
  reconnect c =
      let (n, c') = load_hosts w c in
      if any_host n
      then (let (deadline, c'') = start_clock c' in connect_loop deadline c''.bs.nhosts c'')
      else give_up c'

  -- `(time(NULL) - bs->last_failed_connect) < backoff`, signed.
  unfoldable pub in_backoff : Ctx → Bool × Ctx
  in_backoff c =
      if c.bs.last_failed_connect == 0
      then (false, c)
      else (let now = w.time c.trace in
          (
            ltb now (c.bs.last_failed_connect + backoff w.pid c.bs.consecutive_failures),
            emit (time now) c,
          ))

  -- `local_amqp_get_bs`, from the state that `local_amqp_get_a_bs` found.
  unfoldable pub get_bs : Ctx → Ctx
  unfolding reconnect in_backoff
  get_bs c =
      if present c.bs.conn
      then c
      else (let (waiting, c') = in_backoff c in if waiting then c' else reconnect c')
