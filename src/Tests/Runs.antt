-- ===== src/Tests/Runs.antt =====
-- Runs of whole backends: src/pg_amqp.c on short histories.
use pg_amqp.Base.{◌≡◌, refl, some, [], ◌∷◌}
use pg_amqp.Readings.{lost, sent, commits}
use pg_amqp.Broker.{defaults}
use pg_amqp.Connection.{set_timeout, drain_returns, disconnect_bs}
use pg_amqp.Hosts.{load_hosts}
use pg_amqp.Connect.{get_bs, handshake}
use pg_amqp.Publish.{publish_opt}
use pg_amqp.Xact.{commit, pre_prepare, commit_one, abort_sub, refuse_prepare}
use pg_amqp.Session.{run, step, start, publish, xact, subxact_abort, prepare_error}
use pg_amqp.Tests.Fixtures.{fine, hello}

published_and_committed :
    let s =
      run fine defaults
        (publish (some 1) hello ∷ publish (some 1) hello ∷ xact commit ∷ [])
        start in
    (sent 2 s.trace ≡ 2) × (commits s.trace ≡ 1) × (lost 1 s.trace ≡ 0)
unfolding run publish_opt get_bs load_hosts handshake set_timeout drain_returns commit_one abort_sub
    disconnect_bs refuse_prepare step
published_and_committed = (refl, refl, refl)

savepoint_discards :
    let s = run fine defaults (publish (some 1) hello ∷ subxact_abort ∷ xact commit ∷ []) start in
    (sent 2 s.trace ≡ 1) × (commits s.trace ≡ 0) × (lost 1 s.trace ≡ 1)
unfolding run publish_opt get_bs load_hosts handshake set_timeout drain_returns commit_one abort_sub
    disconnect_bs refuse_prepare step
savepoint_discards = (refl, refl, refl)

prepare_refused :
    (step fine defaults
      (xact pre_prepare)
      (run fine defaults (publish (some 1) hello ∷ []) start)).0
    ≡ prepare_error 1 1
unfolding run publish_opt get_bs load_hosts handshake set_timeout drain_returns commit_one abort_sub
    disconnect_bs refuse_prepare step
prepare_refused = refl
