-- ===== src/Timeouts/Transactions.antt =====
-- The end of a transaction, for one broker: the timeout set last before tx.commit and
-- tx.rollback is `commit_timeout_ms`.
use pg_amqp.Base.{◌≡◌, refl, false, Option, none, some, arith}
use pg_amqp.Events.{
  commit_failed, rollback_failed, discarding, Conn, get_rpc_reply, tx_commit, tx_rollback,
}
use pg_amqp.World.{World}
use pg_amqp.Broker.{Settings, Ctx, emit, elog, set_inerror}
use pg_amqp.Connection.{set_timeout, disconnect_bs, drain_returns}
use pg_amqp.Xact.{flush, flush_with, commit_one, roll_back, roll_back_with, abort_one}
use pg_amqp.Timeouts.{AllTimed}
use pg_amqp.Timeouts.Calls.{
  KeepsTimed, drain_returns-Unhurried, set_timeout-last_set, set_timeout-AllTimed,
  disconnect_bs-AllTimed,
}

module _ (w : World) (cfg : Settings) where
  flush-Timed :
      (k : Conn) (c : Ctx)
      → c.bs.conn ≡ some k
      → AllTimed cfg c.trace
      → AllTimed cfg (flush w cfg k c).trace
  unfolding flush
  flush-Timed k c e t =
      let timed = set_timeout cfg.commit_timeout_ms c in
      let drained = (drain_returns w timed).1 in
      let called = emit (tx_commit k 2) drained in
      let r = w.get_rpc_reply k called.trace in
      let replied = emit (get_rpc_reply k r) called in
      let warned = elog (commit_failed replied.bs.broker_id replied.bs.uncommitted r) replied in
      ground (
        arith,
        set_timeout-last_set cfg cfg.commit_timeout_ms k c,
        set_timeout-AllTimed cfg cfg.commit_timeout_ms c,
        drain_returns-Unhurried cfg w k timed,
        set_timeout-AllTimed cfg cfg.operation_timeout_ms replied,
        disconnect_bs-AllTimed cfg false warned,
      )

  flush_with-Timed :
      (o : Option Conn) (c : Ctx)
      → c.bs.conn ≡ o
      → AllTimed cfg c.trace
      → AllTimed cfg (flush_with w cfg o c).trace
  unfolding flush_with
  flush_with-Timed none c e t = t
  flush_with-Timed (some k) c e t = flush-Timed k c e t

  pub commit_one-Timed : KeepsTimed cfg (commit_one w cfg)
  unfolding commit_one
  commit_one-Timed c t =
      let warned = elog (discarding c.bs.broker_id c.bs.uncommitted) c in
      ground (
        arith,
        disconnect_bs-AllTimed cfg false warned,
        disconnect_bs-AllTimed cfg false c,
        flush_with-Timed c.bs.conn c refl,
        flush_with-Timed (disconnect_bs false c).bs.conn (set_inerror false (disconnect_bs false c))
            refl,
      )

  roll_back-Timed :
      (k : Conn) (c : Ctx)
      → c.bs.conn ≡ some k
      → AllTimed cfg c.trace
      → AllTimed cfg (roll_back w cfg k c).trace
  unfolding roll_back
  roll_back-Timed k c e t =
      let timed = set_timeout cfg.commit_timeout_ms c in
      let called = emit (tx_rollback k 2) timed in
      let r = w.get_rpc_reply k called.trace in
      let replied = emit (get_rpc_reply k r) called in
      let warned = elog (rollback_failed replied.bs.broker_id replied.bs.uncommitted r) replied in
      ground (
        arith,
        set_timeout-last_set cfg cfg.commit_timeout_ms k c,
        set_timeout-AllTimed cfg cfg.commit_timeout_ms c,
        set_timeout-AllTimed cfg cfg.operation_timeout_ms replied,
        disconnect_bs-AllTimed cfg false warned,
      )

  roll_back_with-Timed :
      (o : Option Conn) (c : Ctx)
      → c.bs.conn ≡ o
      → AllTimed cfg c.trace
      → AllTimed cfg (roll_back_with w cfg o c).trace
  unfolding roll_back_with
  roll_back_with-Timed none c e t = t
  roll_back_with-Timed (some k) c e t = roll_back-Timed k c e t

  pub abort_one-Timed : KeepsTimed cfg (abort_one w cfg)
  unfolding abort_one
  abort_one-Timed c t =
      let kept = set_inerror false c in
      let dropped = set_inerror false (disconnect_bs false c) in
      ground (
        arith,
        disconnect_bs-AllTimed cfg false c,
        roll_back_with-Timed kept.bs.conn kept refl,
        roll_back_with-Timed dropped.bs.conn dropped refl,
      )
