-- ===== src/Session.antt =====
-- src/pg_amqp.c as one PostgreSQL backend runs it: the list HEAD_BS with `local_amqp_get_a_bs`, and
-- everything that PostgreSQL calls, one call after another: the four SQL functions, the callbacks on
-- transactions and subtransactions, and the one at exit.
pub mod Brokers
pub mod Invariant
pub mod Settled
use pg_amqp.Base.{ℕ, Bool, true, false, Option, none, some, List, [], ◌∷◌, ◌==◌, if◌then◌else◌}
use pg_amqp.Events.{Trace}
use pg_amqp.World.{World}
use pg_amqp.Broker.{BrokerState, Settings, Ctx, new_state}
use pg_amqp.Connection.{disconnect_bs}
use pg_amqp.Publish.{PublishArgs, DeclareArgs, publish_opt, declare_exchange, disconnect}
use pg_amqp.Xact.{
  XactEvent, pre_prepare, pre_commit, parallel_pre_commit, commit, parallel_commit, abort,
  parallel_abort, prepare, each, commit_one, abort_one, refuse_prepare, abort_sub,
}

pub record Session : Type 0 where
  pub brokers : List BrokerState
  pub trace : Trace

-- The first state with the id.
unfoldable pub find : ℕ → List BrokerState → Option BrokerState
find id [] = none
find id (b ∷ bs) = if b.broker_id == id then some b else find id bs

-- The list of `local_amqp_get_a_bs`: with a new head, if no state has the id.
unfoldable pub ensure : ℕ → List BrokerState → List BrokerState
unfolding find
ensure id bs = elim (find id bs) [ some _ ↦ bs | none ↦ new_state id ∷ bs ]

-- The state that `local_amqp_get_a_bs` returns a pointer to.
unfoldable pub get_a_bs : ℕ → List BrokerState → BrokerState
unfolding find
get_a_bs id bs = elim (find id bs) [ some b ↦ b | none ↦ new_state id ]

-- What was written through that pointer stands in the list.
unfoldable pub store : ℕ → BrokerState → List BrokerState → List BrokerState
store id b [] = []
store id b (x ∷ xs) = if x.broker_id == id then b ∷ xs else x ∷ store id b xs

-- A function on the state of one broker, in the session.
unfoldable pub at {ℓ} : {A : Type ℓ} → ℕ → (Ctx → A × Ctx) → Session → A × Session
unfolding ensure get_a_bs store
at id f s =
    let (r, c) = f (record { bs = get_a_bs id s.brokers; trace = s.trace }) in
    (r, record { brokers = store id c.bs (ensure id s.brokers); trace = c.trace })

unfoldable pub each_broker : (Ctx → Ctx) → Session → Session
unfolding each
each_broker f s = let (bs, t) = each f s.brokers s.trace in record { brokers = bs; trace = t }

-- What PostgreSQL calls. The first argument of an SQL function is the broker's id, or NULL.
pub data Action : Type 0 where
  publish autonomous_publish : Option ℕ → PublishArgs → Action
  exchange_declare : Option ℕ → DeclareArgs → Action
  disconnects : Option ℕ → Action
  xact : XactEvent → Action
  subxact_abort : Action
  -- SUBXACT_EVENT_START_SUB, _COMMIT_SUB and _PRE_COMMIT_SUB
  subxact_other : Action
  exit : Action

-- How a call ended: with a Boolean, with no result, or by the ERROR of PREPARE TRANSACTION.
pub data Outcome : Type 0 where
  returned : Bool → Outcome
  void : Outcome
  prepare_error : ℕ → ℕ → Outcome

abbrev returning : Bool × Session → Outcome × Session
returning (r, s) = (returned r, s)

abbrev pub with_unit : (Ctx → Ctx) → Ctx → Unit {0} × Ctx
with_unit f c = (tt, f c)

module _ (w : World) (cfg : Settings) where
  -- `pg_amqp_publish_opt` as the SQL function is called.
  unfoldable pub sql_publish : ℕ → Option ℕ → PublishArgs → Session → Bool × Session
  unfolding at
  sql_publish channel none a s = (false, s)
  sql_publish channel (some id) a s = at id (publish_opt w cfg channel a) s

  -- `pg_amqp_exchange_declare`
  unfoldable pub sql_declare : Option ℕ → DeclareArgs → Session → Bool × Session
  unfolding at
  sql_declare none a s = (false, s)
  sql_declare (some id) a s = at id (declare_exchange w cfg a) s

  -- `amqp_local_phase2`
  unfoldable pub phase2 : XactEvent → Session → Outcome × Session
  unfolding each_broker
  phase2 pre_prepare s = elim (refuse_prepare s.brokers) [
    | none ↦ (void, s)
    | some (n, id) ↦ (prepare_error n id, s)
  ]
  phase2 pre_commit s = (void, s)
  phase2 parallel_pre_commit s = (void, s)
  phase2 commit s = (void, each_broker (commit_one w cfg) s)
  phase2 parallel_commit s = (void, each_broker (commit_one w cfg) s)
  phase2 abort s = (void, each_broker (abort_one w cfg) s)
  phase2 parallel_abort s = (void, each_broker (abort_one w cfg) s)
  phase2 prepare s = (void, s)

  unfoldable pub step : Action → Session → Outcome × Session
  unfolding sql_publish sql_declare phase2 at each_broker
  step (publish id a) s = returning (sql_publish 2 id a s)
  step (autonomous_publish id a) s = returning (sql_publish 1 id a s)
  step (exchange_declare id a) s = returning (sql_declare id a s)
  step (disconnects none) s = (void, s)
  step (disconnects (some id)) s = let (_, s') = at id (with_unit disconnect) s in (void, s')
  step (xact e) s = phase2 e s
  step subxact_abort s = (void, each_broker abort_sub s)
  step subxact_other s = (void, s)
  step exit s = (void, each_broker (disconnect_bs true) s)

  -- The state after a list of calls, the earliest first.
  unfoldable pub run : List Action → Session → Session
  unfolding step
  run [] s = s
  run (a ∷ as') s = run as' (step a s).1

-- A backend before its first call.
abbrev pub start : Session
start = record { brokers = []; trace = [] }
