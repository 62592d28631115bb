-- ===== src/Timeouts/Backend.antt =====
-- Every call that PostgreSQL makes sets the timeouts of the blocking calls of all brokers before them.
use pg_amqp.Base.{ℕ, true, Option, none, some, List, [], ◌∷◌, arith}
use pg_amqp.Events.{Trace}
use pg_amqp.World.{World}
use pg_amqp.Broker.{BrokerState, Settings, Ctx}
use pg_amqp.Connection.{disconnect_bs}
use pg_amqp.Publish.{PublishArgs, DeclareArgs, publish_opt, declare_exchange, disconnect}
use pg_amqp.Xact.{
  XactEvent, pre_prepare, pre_commit, parallel_pre_commit, commit, parallel_commit, abort,
  parallel_abort, prepare, each, commit_one, abort_one, abort_sub,
}
use pg_amqp.Session.{
  Session, at, each_broker, Action, publish, autonomous_publish, exchange_declare, disconnects,
  xact, subxact_abort, subxact_other, exit, with_unit, sql_publish, sql_declare, phase2, step, run,
  start,
}
use pg_amqp.Timeouts.{AllTimed}
use pg_amqp.Timeouts.Calls.{KeepsTimed, disconnect_bs-AllTimed}
use pg_amqp.Timeouts.Publish.{publish_opt-Timed, declare_exchange-Timed, disconnect-Timed}
use pg_amqp.Timeouts.Transactions.{commit_one-Timed, abort_one-Timed}

module _ (w : World) (cfg : Settings) where
  abbrev SessionTimed : Session → Type 0
  SessionTimed s = AllTimed cfg s.trace

  at-Timed :
      {A : Type 0} (id : ℕ) (f : Ctx → A × Ctx) (s : Session)
      → KeepsTimed cfg (λ c. (f c).1)
      → SessionTimed s
      → SessionTimed (at id f s).1
  unfolding at
  at-Timed id f s keeps t = keeps _ t

  each-Timed :
      (f : Ctx → Ctx) (bs : List BrokerState) (t : Trace)
      → KeepsTimed cfg f
      → AllTimed cfg t
      → AllTimed cfg (each f bs t).1
  unfolding each
  each-Timed f [] t keeps h = h
  each-Timed f (b ∷ bs) t keeps h =
      each-Timed f bs (f (record { bs = b; trace = t })).trace keeps (keeps _ h)

  each_broker-Timed :
      (f : Ctx → Ctx) (s : Session)
      → KeepsTimed cfg f
      → SessionTimed s
      → SessionTimed (each_broker f s)
  unfolding each_broker
  each_broker-Timed f s keeps t = each-Timed f s.brokers s.trace keeps t

  sql_publish-Timed :
      (channel : ℕ) (id : Option ℕ) (a : PublishArgs) (s : Session)
      → SessionTimed s
      → SessionTimed (sql_publish w cfg channel id a s).1
  unfolding sql_publish
  sql_publish-Timed channel none a s t = t
  sql_publish-Timed channel (some id) a s t =
      at-Timed id (publish_opt w cfg channel a) s (publish_opt-Timed w cfg channel a) t

  sql_declare-Timed :
      (id : Option ℕ) (a : DeclareArgs) (s : Session)
      → SessionTimed s
      → SessionTimed (sql_declare w cfg id a s).1
  unfolding sql_declare
  sql_declare-Timed none a s t = t
  sql_declare-Timed (some id) a s t =
      at-Timed id (declare_exchange w cfg a) s (declare_exchange-Timed w cfg a) t

  phase2-Timed : (e : XactEvent) (s : Session) → SessionTimed s → SessionTimed (phase2 w cfg e s).1
  unfolding phase2
  phase2-Timed pre_prepare s t = ground arith
  phase2-Timed pre_commit s t = t
  phase2-Timed parallel_pre_commit s t = t
  phase2-Timed commit s t = each_broker-Timed (commit_one w cfg) s (commit_one-Timed w cfg) t
  phase2-Timed parallel_commit s t =
      each_broker-Timed (commit_one w cfg) s (commit_one-Timed w cfg) t
  phase2-Timed abort s t = each_broker-Timed (abort_one w cfg) s (abort_one-Timed w cfg) t
  phase2-Timed parallel_abort s t = each_broker-Timed (abort_one w cfg) s (abort_one-Timed w cfg) t
  phase2-Timed prepare s t = t

  abort_sub-Timed : KeepsTimed cfg abort_sub
  unfolding abort_sub
  abort_sub-Timed c t = ground arith

  step-Timed : (a : Action) (s : Session) → SessionTimed s → SessionTimed (step w cfg a s).1
  unfolding step
  step-Timed (publish id a) s t = sql_publish-Timed 2 id a s t
  step-Timed (autonomous_publish id a) s t = sql_publish-Timed 1 id a s t
  step-Timed (exchange_declare id a) s t = sql_declare-Timed id a s t
  step-Timed (disconnects none) s t = t
  step-Timed (disconnects (some id)) s t =
      at-Timed id (with_unit disconnect) s (disconnect-Timed cfg) t
  step-Timed (xact e) s t = phase2-Timed e s t
  step-Timed subxact_abort s t = each_broker-Timed abort_sub s abort_sub-Timed t
  step-Timed subxact_other s t = t
  step-Timed exit s t = each_broker-Timed (disconnect_bs true) s (disconnect_bs-AllTimed cfg true) t

  run_from-Timed :
      (as' : List Action) (s : Session) → SessionTimed s → SessionTimed (run w cfg as' s)
  unfolding run
  run_from-Timed [] s t = t
  run_from-Timed (a ∷ as') s t = run_from-Timed as' _ (step-Timed a s t)

  -- Whatever calls a backend makes and whatever the world answers: the timeout that the code gave a
  -- connection last by `amqp_set_rpc_timeout` is `handshake_timeout_ms` at each login, channel.open and
  -- tx.select, `commit_timeout_ms` at each tx.commit and tx.rollback, and 500 milliseconds at each
  -- graceful close.
  pub run-AllTimed : (as' : List Action) → AllTimed cfg (run w cfg as' start).trace
  run-AllTimed as' = run_from-Timed as' start tt
