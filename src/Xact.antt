-- ===== src/Xact.antt =====
-- src/pg_amqp.c, the callbacks on PostgreSQL's transaction events, broker by broker:
-- `amqp_local_phase2`, `amqp_local_subxact` and `amqp_atexit`.
pub mod Accounting
pub mod Prepare
pub mod SilentLoss
use pg_amqp.Base.{
  ℕ, true, false, not, ◌&&◌, ◌||◌, Option, none, some, List, [], ◌∷◌, ltb, ◌==◌, if◌then◌else◌,
  present,
}
use pg_amqp.Events.{
  Conn, Reply, Trace, Event, discarding, commit_failed, rollback_failed, savepoint_rolled_back,
  tx_commit, tx_rollback, get_rpc_reply,
}
use pg_amqp.World.{World}
use pg_amqp.Broker.{BrokerState, Settings, Ctx, emit, elog, set_inerror, set_uncommitted}
use pg_amqp.Connection.{set_timeout, disconnect_bs, drain_returns}
use pg_amqp.Connect.{is_normal}

-- `XactEvent`
pub data XactEvent : Type 0 where
  pre_prepare pre_commit parallel_pre_commit : XactEvent
  commit parallel_commit abort parallel_abort prepare : XactEvent

-- `for(bs = HEAD_BS; bs; bs = bs->next)` with a body that works on one broker.
unfoldable pub each : (Ctx → Ctx) → List BrokerState → Trace → List BrokerState × Trace
each f [] t = ([], t)
each f (b ∷ bs) t =
    let c = f (record { bs = b; trace = t }) in
    let (bs', t') = each f bs c.trace in (c.bs ∷ bs', t')

abbrev pub clear_error : Ctx → Ctx
clear_error c = if c.bs.inerror then set_inerror false (disconnect_bs false c) else c

module _ (w : World) (cfg : Settings) where
  -- The call on channel 2, and the reply to it.
  unfoldable pub finish_tx : Event → Conn → Ctx → Reply × Ctx
  finish_tx call k c =
      let called = emit call c in
      let r = w.get_rpc_reply k called.trace in (r, emit (get_rpc_reply k r) called)

  -- Within `if(bs->conn)` of the commit.
  unfoldable pub flush : Conn → Ctx → Ctx
  unfolding finish_tx
  flush k c =
      let (_, drained) = drain_returns w (set_timeout cfg.commit_timeout_ms c) in
      let (r, c') = finish_tx (tx_commit k 2) k drained in
      if is_normal r
      then set_timeout cfg.operation_timeout_ms c'
      else disconnect_bs false (elog (commit_failed c'.bs.broker_id c'.bs.uncommitted r) c')

  -- `if(bs->conn) { … }` of the commit.
  unfoldable pub flush_with : Option Conn → Ctx → Ctx
  unfolding flush
  flush_with none c = c
  flush_with (some k) c = flush k c

  -- The body of the loop for XACT_EVENT_COMMIT.
  unfoldable pub commit_one : Ctx → Ctx
  unfolding flush_with
  commit_one c =
      if ltb 0 c.bs.uncommitted && (c.bs.inerror || not (present c.bs.conn))
      then set_uncommitted 0 (
          set_inerror false
            (disconnect_bs false (elog (discarding c.bs.broker_id c.bs.uncommitted) c)))
      else (let c' = clear_error c in
          if c'.bs.uncommitted == 0 then c' else set_uncommitted 0 (flush_with c'.bs.conn c'))

  unfoldable pub roll_back : Conn → Ctx → Ctx
  unfolding finish_tx
  roll_back k c =
      let (r, c') = finish_tx (tx_rollback k 2) k (set_timeout cfg.commit_timeout_ms c) in
      if is_normal r
      then set_timeout cfg.operation_timeout_ms c'
      else disconnect_bs false (elog (rollback_failed c'.bs.broker_id c'.bs.uncommitted r) c')

  -- `if(bs->conn) { … }` of the abort.
  unfoldable pub roll_back_with : Option Conn → Ctx → Ctx
  unfolding roll_back
  roll_back_with none c = c
  roll_back_with (some k) c = roll_back k c

  -- The body of the loop for XACT_EVENT_ABORT.
  unfoldable pub abort_one : Ctx → Ctx
  unfolding roll_back_with
  abort_one c =
      let c' = set_inerror false (if c.bs.inerror then disconnect_bs false c else c) in
      if c'.bs.uncommitted == 0 then c' else set_uncommitted 0 (roll_back_with c'.bs.conn c')

-- The loop for XACT_EVENT_PRE_PREPARE: the count and the broker of the ERROR, or none.
unfoldable pub refuse_prepare : List BrokerState → Option (ℕ × ℕ)
refuse_prepare [] = none
refuse_prepare (b ∷ bs) =
    if ltb 0 b.uncommitted then some (b.uncommitted, b.broker_id) else refuse_prepare bs

-- The body of the loop of `amqp_local_subxact` for SUBXACT_EVENT_ABORT_SUB.
unfoldable pub abort_sub : Ctx → Ctx
abort_sub c =
    if ltb 0 c.bs.uncommitted && not c.bs.inerror
    then set_inerror true (elog (savepoint_rolled_back c.bs.broker_id c.bs.uncommitted) c)
    else c
