-- ===== src/Tests/Outbox.antt =====
-- The outbox of a broker after concrete calls.
use pg_amqp.Base.{◌≡◌, ◌⊎◌, refl, false, [], ◌∷◌, List}
use pg_amqp.Broker.{Ctx, new_state, defaults}
use pg_amqp.Connection.{set_timeout, drain_returns}
use pg_amqp.Hosts.{load_hosts}
use pg_amqp.Connect.{handshake, get_bs}
use pg_amqp.Publish.{publish_opt}
use pg_amqp.Xact.{commit_one}
use pg_amqp.Outbox.{
  Outbox, empty, Balanced, Call, publish, commits, aborts, all_transactional, calls,
}
use pg_amqp.Outbox.Simulation.{Shows}
use pg_amqp.Outbox.Refinement.{Run, calls-Refines}
use pg_amqp.Tests.Fixtures.{fine, hello}

-- Two messages that are committed, and one that is rolled back.
abbrev two_transactions : List Call
two_transactions = publish hello ∷ publish hello ∷ commits ∷ publish hello ∷ aborts ∷ []

three_accepted :
    (calls fine defaults two_transactions (record { bs = new_state 1; trace = [] })).0 ≡ 3
unfolding calls publish_opt get_bs load_hosts handshake set_timeout drain_returns commit_one
three_accepted = refl

calls-Refines_example :
    let start : Ctx = record { bs = new_state 1; trace = [] } in
    let (n, c') = calls fine defaults two_transactions start in
    (o : Outbox) × Run fine defaults 1 start empty two_transactions o
    × Shows 1 c' o
    × (o.accepted ≡ n)
    × Balanced o
    × ((all_transactional two_transactions ≡ false) ⊎ (o.dropped ≡ 0))
calls-Refines_example = calls-Refines fine defaults 1 two_transactions
