-- ===== src/Timeouts/Connect.antt =====
-- `local_amqp_get_bs` sets the timeout of every blocking call before it.
use pg_amqp.Base.{ℕ, zero, suc, ◌≡◌, refl, false, Option, none, some, List, [], ◌∷◌, arith}
use pg_amqp.Events.{Conn, Row, new_connection, budget_exhausted}
use pg_amqp.World.{World}
use pg_amqp.Broker.{Host, Settings, Ctx, emit, elog}
use pg_amqp.Hosts.{host_of, warn_port, warn_verify, load_rows, load_result, load_query, load_hosts}
use pg_amqp.Hosts.Cache.{queried}
use pg_amqp.Connect.{
  handshake, give_up, connected, over_deadline, advance, host_at, Attempt, done, no_memory, invalid,
  host_failed, greet, try_with, try_host, try_current, attempt, warn_next, after_attempt,
  connect_loop, start_clock, reconnect, in_backoff, get_bs,
}
use pg_amqp.Timeouts.{AllTimed}
use pg_amqp.Timeouts.Handshake.{handshake-Timed}
use pg_amqp.Timeouts.Calls.{KeepsTimed, set_timeout-AllTimed, disconnect_bs-AllTimed}

module _ (cfg : Settings) where
  module _ (w : World) where
    give_up-Timed : KeepsTimed cfg (give_up w cfg)
    unfolding give_up
    give_up-Timed c h = ground arith

    greet-Timed :
        (k : Conn) (h : Host) (c : Ctx)
        → c.bs.conn ≡ some k
        → AllTimed cfg c.trace
        → AllTimed cfg (greet w cfg k h c).1.trace
    unfolding greet connected
    greet-Timed k h c e t =
        let greeted = (handshake w cfg k h c).1 in
        ground (
          arith,
          handshake-Timed cfg w k h c,
          set_timeout-AllTimed cfg cfg.operation_timeout_ms greeted,
          disconnect_bs-AllTimed cfg false greeted,
        )

    try_with-Timed :
        (o : Option Conn) (h : Host) (c : Ctx)
        → c.bs.conn ≡ o
        → AllTimed cfg c.trace
        → AllTimed cfg (try_with w cfg o h c).1.trace
    unfolding try_with
    try_with-Timed none h c e t = t
    try_with-Timed (some k) h c e t = greet-Timed k h c e t

    try_current-Timed : (o : Option Host) → KeepsTimed cfg (λ c. (try_current w cfg o c).1)
    unfolding try_current try_host
    try_current-Timed none c t = ground arith
    try_current-Timed (some h) c t =
        let k = w.new_connection c.trace in
        let made = emit (new_connection k) (record c { bs = record (c.bs) { conn = k } }) in
        ground (arith, try_with-Timed k h made refl)

    attempt-Timed : KeepsTimed cfg (λ c. (attempt w cfg c).1)
    unfolding attempt advance
    attempt-Timed c t =
        let next = advance w cfg c in
        ground (arith, try_current-Timed (host_at next.bs.hosts next.bs.idx) next)

    after_attempt-Timed :
        (rest : Ctx → Ctx) (deadline tries : ℕ) (a : Attempt)
        → KeepsTimed cfg rest
        → KeepsTimed cfg (after_attempt w cfg rest deadline tries a)
    unfolding after_attempt over_deadline warn_next
    after_attempt-Timed rest deadline tries done r c t = t
    after_attempt-Timed rest deadline tries no_memory r c t = give_up-Timed c t
    after_attempt-Timed rest deadline tries invalid r c t = give_up-Timed c t
    after_attempt-Timed rest deadline tries (host_failed h) r c t =
        let timed = (over_deadline w cfg deadline c).1 in
        let over = elog (budget_exhausted cfg.connect_budget_ms timed.bs.broker_id) timed in
        let next = warn_next w cfg tries h timed in ground (arith, give_up-Timed over, r next)

    connect_loop-Timed : (deadline tries : ℕ) → KeepsTimed cfg (connect_loop w cfg deadline tries)
    unfolding connect_loop
    connect_loop-Timed deadline zero c t = give_up-Timed c t
    connect_loop-Timed deadline (suc tries) c t =
        let (a, tried) = attempt w cfg c in
        after_attempt-Timed (connect_loop w cfg deadline tries) deadline (suc tries) a
          (connect_loop-Timed deadline tries) tried (attempt-Timed c t)

    warn_row-Timed :
        (j : ℕ) (r : Row) → KeepsTimed cfg (λ c. warn_verify j (host_of r) (warn_port j r c))
    unfolding warn_verify warn_port
    warn_row-Timed j r c t = ground arith

    load_rows-Timed : (j : ℕ) (rs : List Row) → KeepsTimed cfg (λ c. (load_rows j rs c).1)
    unfolding load_rows
    load_rows-Timed j [] c t = t
    load_rows-Timed j (r ∷ rs) c t = load_rows-Timed j rs _ (warn_row-Timed j r c t)

    load_result-Timed : (pid : ℕ) (o : Option (List Row)) → KeepsTimed cfg (load_result pid o)
    unfolding load_result
    load_result-Timed pid none c t = ground arith
    load_result-Timed pid (some []) c t = ground arith
    load_result-Timed pid (some (r ∷ rs)) c t = load_rows-Timed c.bs.broker_id (r ∷ rs) c t

    load_hosts-Timed : KeepsTimed cfg (λ c. (load_hosts w c).1)
    unfolding load_hosts load_query
    load_hosts-Timed c t = ground (arith, load_result-Timed w.pid (queried w c).0 (queried w c).1)

    reconnect-Timed : KeepsTimed cfg (reconnect w cfg)
    unfolding reconnect start_clock
    reconnect-Timed c t =
        let loaded = (load_hosts w c).1 in
        let (deadline, timed) = start_clock w cfg loaded in
        ground (
          arith,
          load_hosts-Timed c t,
          give_up-Timed loaded,
          connect_loop-Timed deadline timed.bs.nhosts timed,
        )

    pub get_bs-Timed : KeepsTimed cfg (get_bs w cfg)
    unfolding get_bs in_backoff
    get_bs-Timed c t = ground (arith, reconnect-Timed (in_backoff w cfg c).1)
