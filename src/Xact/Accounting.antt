-- ===== src/Xact/Accounting.antt =====
-- The end of a transaction, for one broker: the buffer is empty afterwards, and at commit each
-- buffered message is either under a tx.commit that the broker confirmed, or reported lost.
use pg_amqp.Base.{
  ℕ, ◌+◌, ◌<◌, ◌≡◌, refl, Bool, true, false, Option, none, some, ◌∷◌, arith, if◌then◌else◌, ltb,
  not, ◌&&◌, ◌||◌, ◌==◌, present,
}
use pg_amqp.Events.{Conn, Trace, tx_commit, tx_rollback, get_rpc_reply}
use pg_amqp.World.{World}
use pg_amqp.Broker.{Settings, Ctx, emit, set_inerror, set_uncommitted}
use pg_amqp.Broker.Invariant.{IsWf}
use pg_amqp.Readings.{faults, lost, commits, rollbacks}
use pg_amqp.Connection.{
  disconnect_bs, drain_returns, set_timeout, set_socket_timeouts, set_conn_timeout,
}
use pg_amqp.Connection.Keeps.{drain_returns-Keeps, set_timeout-Keeps}
use pg_amqp.Connect.{is_normal}
use pg_amqp.Xact.{flush, flush_with, commit_one, roll_back, roll_back_with, abort_one, abort_sub}

-- One where the test holds.
abbrev pub one_if : Bool → ℕ
one_if true = 1
one_if false = 0

module _ (w : World) (cfg : Settings) where
  -- The log in which `flush` asks for the reply to tx.commit.
  unfoldable pub flush_log : Conn → Ctx → Trace
  flush_log k c = tx_commit k 2 ∷ (drain_returns w (set_timeout cfg.commit_timeout_ms c)).1.trace

  -- Whether the broker confirms the tx.commit.
  unfoldable pub confirms : Conn → Ctx → Bool
  unfolding flush_log
  confirms k c = is_normal (w.get_rpc_reply k (flush_log k c))

  -- Whether the buffered messages are under a tx.commit that the broker confirmed.
  abbrev pub delivered : Option Conn → Ctx → Bool
  delivered none c = false
  delivered (some k) c = not c.bs.inerror && confirms k c

  record Flushed (k : Conn) (c c' : Ctx) : Type 0 where
    wf : IsWf c'.bs
    same_id : c'.bs.broker_id ≡ c.bs.broker_id
    same_inerror : c'.bs.inerror ≡ c.bs.inerror
    same_faults : faults c'.trace ≡ faults c.trace
    one_commit : commits c'.trace ≡ commits c.trace + 1
    reports :
        lost c.bs.broker_id c'.trace
        ≡ lost c.bs.broker_id c.trace + (if confirms k c then 0 else c.bs.uncommitted)

  flush-Flushed :
      (k : Conn) (c : Ctx) → c.bs.conn ≡ some k → IsWf c.bs → Flushed k c (flush w cfg k c)
  unfolding flush confirms disconnect_bs
  flush-Flushed k c e v =
      let timed = set_timeout cfg.commit_timeout_ms c in
      let drained = (drain_returns w timed).1 in
      let log = flush_log k c in
      let replied = record drained { trace = get_rpc_reply k (w.get_rpc_reply k log) ∷ log } in
      ground (
        arith,
        set_timeout-Keeps c.bs.broker_id 2 cfg.commit_timeout_ms c,
        drain_returns-Keeps c.bs.broker_id 2 w timed,
        set_timeout-Keeps c.bs.broker_id 2 cfg.operation_timeout_ms replied,
      )

  -- What a commit makes of a broker.
  pub record Committed (c c' : Ctx) : Type 0 where
    pub wf : IsWf c'.bs
    pub same_id : c'.bs.broker_id ≡ c.bs.broker_id
    pub emptied : c'.bs.uncommitted ≡ 0
    pub no_error : c'.bs.inerror ≡ false
    pub same_faults : faults c'.trace ≡ faults c.trace
    pub commits_once :
        commits c'.trace ≡ commits c.trace + one_if (ltb 0 c.bs.uncommitted && not c.bs.inerror)
    pub reports :
        lost c.bs.broker_id c'.trace
        ≡ lost c.bs.broker_id c.trace + (if delivered c.bs.conn c then 0 else c.bs.uncommitted)

  flush_with-Committed :
      (o : Option Conn) (c : Ctx)
      → c.bs.conn ≡ o
      → c.bs.inerror ≡ false
      → 0 < c.bs.uncommitted
      → IsWf c.bs
      → Committed c (set_uncommitted 0 (flush_with w cfg o c))
  unfolding flush_with
  flush_with-Committed none c e ok busy v = ground arith
  flush_with-Committed (some k) c e ok busy v = ground (arith, flush-Flushed k c)

  -- Each message that was buffered is under a tx.commit which the broker confirmed, or is counted in
  -- a WARNING; tx.commit is called once where something is buffered and no error is pending, and
  -- never otherwise. Nothing is buffered and no error is pending afterwards.
  pub commit_one-Committed : (c : Ctx) → IsWf c.bs → Committed c (commit_one w cfg c)
  unfolding commit_one disconnect_bs
  commit_one-Committed c v = ground (arith, flush_with-Committed c.bs.conn c refl)

  -- The log in which `roll_back` asks for the reply to tx.rollback.
  abbrev rollback_log : Conn → Ctx → Trace
  rollback_log k c = tx_rollback k 2 ∷ (set_timeout cfg.commit_timeout_ms c).trace

  -- Whether a tx.rollback is due: something is buffered on a connection without a pending error.
  abbrev pub rollback_due : Ctx → Bool
  rollback_due c = ltb 0 c.bs.uncommitted && not c.bs.inerror && present c.bs.conn

  -- Whether the broker confirms the tx.rollback on a connection.
  abbrev pub rolled_back : Option Conn → Ctx → Bool
  rolled_back none c = false
  rolled_back (some k) c = is_normal (w.get_rpc_reply k (rollback_log k c))

  -- Whether a rollback leaves the connection: without a pending error, where nothing is buffered or the
  -- broker confirms the tx.rollback.
  abbrev pub stays_open : Ctx → Bool
  stays_open c =
      present c.bs.conn && not c.bs.inerror && (c.bs.uncommitted == 0 || rolled_back c.bs.conn c)

  -- What a rollback makes of a broker.
  pub record RolledBack (c c' : Ctx) : Type 0 where
    pub wf : IsWf c'.bs
    pub same_id : c'.bs.broker_id ≡ c.bs.broker_id
    pub emptied : c'.bs.uncommitted ≡ 0
    pub no_error : c'.bs.inerror ≡ false
    pub same_faults : faults c'.trace ≡ faults c.trace
    pub same_commits : commits c'.trace ≡ commits c.trace
    pub same_lost : lost c.bs.broker_id c'.trace ≡ lost c.bs.broker_id c.trace
    pub rolls_back_once : rollbacks c'.trace ≡ rollbacks c.trace + one_if (rollback_due c)
    pub open_or_closed : c'.bs.conn ≡ (if stays_open c then c.bs.conn else none)

  set_timeout-rollbacks :
      (ms : ℕ) (c : Ctx)
      → (rollbacks (set_timeout ms c).trace ≡ rollbacks c.trace)
        × ((set_timeout ms c).bs.conn ≡ c.bs.conn)
  unfolding set_timeout set_socket_timeouts set_conn_timeout
  set_timeout-rollbacks ms c = ground arith

  roll_back-RolledBack :
      (k : Conn) (c : Ctx)
      → c.bs.conn ≡ some k
      → c.bs.inerror ≡ false
      → 0 < c.bs.uncommitted
      → IsWf c.bs
      → RolledBack c (set_uncommitted 0 (roll_back w cfg k c))
  unfolding roll_back disconnect_bs
  roll_back-RolledBack k c e ok busy v =
      let timed = set_timeout cfg.commit_timeout_ms c in
      let called = emit (tx_rollback k 2) timed in
      let replied = emit (get_rpc_reply k (w.get_rpc_reply k called.trace)) called in
      ground (
        arith,
        set_timeout-Keeps c.bs.broker_id 2 cfg.commit_timeout_ms c,
        set_timeout-Keeps c.bs.broker_id 2 cfg.operation_timeout_ms replied,
        set_timeout-rollbacks cfg.commit_timeout_ms c,
        set_timeout-rollbacks cfg.operation_timeout_ms replied,
      )

  roll_back_with-RolledBack :
      (o : Option Conn) (c : Ctx)
      → c.bs.conn ≡ o
      → c.bs.inerror ≡ false
      → 0 < c.bs.uncommitted
      → IsWf c.bs
      → RolledBack c (set_uncommitted 0 (roll_back_with w cfg o c))
  unfolding roll_back_with
  roll_back_with-RolledBack none c e ok busy v = ground arith
  roll_back_with-RolledBack (some k) c e ok busy v = roll_back-RolledBack k c e ok busy v

  -- A rollback calls tx.rollback once where something is buffered on a connection without a pending
  -- error, and never otherwise; it leaves the connection open where no error is pending and nothing was
  -- buffered or the broker confirmed the tx.rollback, and closes it otherwise. It leaves nothing buffered
  -- and no error pending, commits nothing, and reports no loss.
  pub abort_one-RolledBack : (c : Ctx) → IsWf c.bs → RolledBack c (abort_one w cfg c)
  unfolding abort_one disconnect_bs
  abort_one-RolledBack c v =
      let dropped = disconnect_bs false c in
      let clean = set_inerror false (if c.bs.inerror then dropped else c) in
      ground (arith, roll_back_with-RolledBack clean.bs.conn clean refl)

  -- Once a savepoint was rolled back, the commit delivers none of the messages that were buffered:
  -- it does not call tx.commit for the broker, and reports all of them lost.
  pub commit_one-abort_sub :
      (c : Ctx)
      → IsWf c.bs
      → 0 < c.bs.uncommitted
      → let c' = commit_one w cfg (abort_sub c) in
        (commits c'.trace ≡ commits c.trace)
        × (lost c.bs.broker_id c'.trace ≡ lost c.bs.broker_id c.trace + c.bs.uncommitted)
        × (c'.bs.conn ≡ none)
        × (c'.bs.uncommitted ≡ 0)
  unfolding commit_one abort_sub disconnect_bs
  commit_one-abort_sub c v busy = ground arith
