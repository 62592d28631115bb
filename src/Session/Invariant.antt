-- ===== src/Session/Invariant.antt =====
-- What holds of a backend after any calls whatever: every broker's state is in order, no broker has
-- two states, and no access to memory was undefined.
use pg_amqp.Base.{ℕ, refl, true, Option, none, some, List, [], ◌∷◌, arith}
use pg_amqp.World.{World}
use pg_amqp.Broker.{Settings}
use pg_amqp.Connection.{disconnect_bs}
use pg_amqp.Publish.{PublishArgs, DeclareArgs, publish_opt, declare_exchange, disconnect}
use pg_amqp.Publish.Accounting.{publish_opt-Published}
use pg_amqp.Publish.Reset.{disconnect-new_state, disconnect-faults, declare_exchange-Declared}
use pg_amqp.Xact.{
  pre_prepare, pre_commit, parallel_pre_commit, commit, parallel_commit, abort, parallel_abort,
  prepare, XactEvent, commit_one, abort_one, abort_sub,
}
use pg_amqp.Xact.Accounting.{commit_one-Committed, abort_one-RolledBack}
use pg_amqp.Session.{
  Session, Action, publish, autonomous_publish, exchange_declare, disconnects, xact, subxact_abort,
  subxact_other, exit, with_unit, sql_publish, sql_declare, phase2, step, run, start,
}
use pg_amqp.Session.Brokers.{Sound, IsSafe, at-Sound, each_broker-Sound}

abort_sub-IsSafe : IsSafe abort_sub
unfolding abort_sub
abort_sub-IsSafe c v = ground arith

exit-IsSafe : IsSafe (disconnect_bs true)
unfolding disconnect_bs
exit-IsSafe c v = ground arith

disconnect-IsSafe : IsSafe disconnect
disconnect-IsSafe c v = ground (arith, disconnect-new_state c v, disconnect-faults c)

module _ (w : World) (cfg : Settings) where
  publish-IsSafe : (channel : ℕ) (a : PublishArgs) → IsSafe (λ c. (publish_opt w cfg channel a c).1)
  publish-IsSafe channel a c v = ground (arith, publish_opt-Published 0 channel w cfg a c v)

  declare-IsSafe : (a : DeclareArgs) → IsSafe (λ c. (declare_exchange w cfg a c).1)
  declare-IsSafe a c v = ground (arith, declare_exchange-Declared 0 1 w cfg a c v)

  commit-IsSafe : IsSafe (commit_one w cfg)
  commit-IsSafe c v = ground (arith, commit_one-Committed w cfg c v)

  abort-IsSafe : IsSafe (abort_one w cfg)
  abort-IsSafe c v = ground (arith, abort_one-RolledBack w cfg c v)

  sql_publish-Sound :
      (channel : ℕ) (id : Option ℕ) (a : PublishArgs) (s : Session)
      → Sound s
      → Sound (sql_publish w cfg channel id a s).1
  unfolding sql_publish
  sql_publish-Sound channel none a s v = v
  sql_publish-Sound channel (some id) a s v =
      at-Sound id (publish_opt w cfg channel a) s (publish-IsSafe channel a) v

  sql_declare-Sound :
      (id : Option ℕ) (a : DeclareArgs) (s : Session) → Sound s → Sound (sql_declare w cfg id a s).1
  unfolding sql_declare
  sql_declare-Sound none a s v = v
  sql_declare-Sound (some id) a s v = at-Sound id (declare_exchange w cfg a) s (declare-IsSafe a) v

  phase2-Sound : (e : XactEvent) (s : Session) → Sound s → Sound (phase2 w cfg e s).1
  unfolding phase2
  phase2-Sound pre_prepare s v = ground arith
  phase2-Sound pre_commit s v = v
  phase2-Sound parallel_pre_commit s v = v
  phase2-Sound commit s v = each_broker-Sound _ commit-IsSafe s v
  phase2-Sound parallel_commit s v = each_broker-Sound _ commit-IsSafe s v
  phase2-Sound abort s v = each_broker-Sound _ abort-IsSafe s v
  phase2-Sound parallel_abort s v = each_broker-Sound _ abort-IsSafe s v
  phase2-Sound prepare s v = v

  -- Every call keeps the backend sound, whatever the broker, the database and the clock answer.
  pub step-Sound : (a : Action) (s : Session) → Sound s → Sound (step w cfg a s).1
  unfolding step
  step-Sound (publish id a) s v = sql_publish-Sound 2 id a s v
  step-Sound (autonomous_publish id a) s v = sql_publish-Sound 1 id a s v
  step-Sound (exchange_declare id a) s v = sql_declare-Sound id a s v
  step-Sound (disconnects none) s v = v
  step-Sound (disconnects (some id)) s v = at-Sound id (with_unit disconnect) s disconnect-IsSafe v
  step-Sound (xact e) s v = phase2-Sound e s v
  step-Sound subxact_abort s v = each_broker-Sound _ abort_sub-IsSafe s v
  step-Sound subxact_other s v = v
  step-Sound exit s v = each_broker-Sound _ exit-IsSafe s v

  run_from-Sound : (as' : List Action) (s : Session) → Sound s → Sound (run w cfg as' s)
  unfolding run
  run_from-Sound [] s v = v
  run_from-Sound (a ∷ as') s v = run_from-Sound as' _ (step-Sound a s v)

  -- So a backend is sound after any calls: each broker's cached hosts fit their count and index and
  -- have valid ports, nothing is buffered without a connection, no broker has two states, and no
  -- host was read outside its list.
  pub run-Sound : (as' : List Action) → Sound (run w cfg as' start)
  run-Sound as' = run_from-Sound as' start (record { all_wf = tt; distinct = tt; no_fault = refl })
