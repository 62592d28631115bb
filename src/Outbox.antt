-- ===== src/Outbox.antt =====
-- What amqp.publish promises, without the connection: the messages that a transaction has published to
-- one broker stay together until it ends, and are then delivered, reported lost or undone together. It
-- is stated as a step relation on counts, call by call; the calls are those that PostgreSQL makes of src/pg_amqp.c for
-- one broker.
pub mod Simulation
pub mod Refinement
use pg_amqp.Base.{
  ℕ, ◌+◌, ◌≤◌, ◌<◌, ◌≡◌, Bool, true, false, ◌&&◌, ◌||◌, ◌==◌, not, present, List, [], ◌∷◌,
}
use pg_amqp.World.{World}
use pg_amqp.Broker.{Settings, Ctx}
use pg_amqp.Connection.{disconnect_bs}
use pg_amqp.Publish.{PublishArgs, DeclareArgs, publish_opt, declare_exchange, disconnect}
use pg_amqp.Publish.Accounting.{one_if}
use pg_amqp.Readings.{rollbacks}
use pg_amqp.Xact.Accounting.{delivered, rolled_back}
use pg_amqp.Xact.{commit_one, abort_one, abort_sub}

-- What became of the messages that amqp.publish accepted, and how often tx.commit was called.
pub record Outbox : Type 0 where
  pub accepted : ℕ
  pub buffered : ℕ
  pub delivered : ℕ
  pub reported : ℕ
  pub undone : ℕ
  pub dropped : ℕ
  pub flushed : ℕ

abbrev pub empty : Outbox
empty = record {
  accepted = 0;
  buffered = 0;
  delivered = 0;
  reported = 0;
  undone = 0;
  dropped = 0;
  flushed = 0;
}

-- Every message that was accepted is in one place.
abbrev pub Balanced : Outbox → Type 0
Balanced o = o.accepted ≡ o.buffered + o.delivered + o.reported + o.undone + o.dropped

-- The SQL functions on the broker, the ends of transactions and of savepoints, and the exit.
pub data Call : Type 0 where
  publish autonomous_publish : PublishArgs → Call
  exchange_declare : DeclareArgs → Call
  disconnects commits aborts savepoint_aborts exits : Call

-- The calls that work on the transaction's channel only.
abbrev pub is_transactional : Call → Bool
is_transactional (publish _) = true
is_transactional commits = true
is_transactional aborts = true
is_transactional savepoint_aborts = true
is_transactional _ = false

abbrev pub all_transactional : List Call → Bool
all_transactional [] = true
all_transactional (k ∷ ks) = is_transactional k && all_transactional ks

-- What a call may do, by whether it was answered well: amqp.publish returned true, the tx.commit was
-- confirmed, the messages were undone at the broker. A call of amqp.publish takes a message in or does
-- not. Whatever is buffered at a commit is delivered by one tx.commit that is confirmed, or is reported
-- lost after at most one; at an abort it is undone; at the abort of a savepoint it stays. Another call
-- drops it with the connection or leaves it.
pub data Move (o : Outbox) : Call → Bool → Outbox → Type 0 where
  turn_down : {a : PublishArgs} → Move o (publish a) false o
  accept :
      {a : PublishArgs}
      → Move o (publish a) true (record o { accepted = o.accepted + 1; buffered = o.buffered + 1 })
  deliver :
      0 < o.buffered
      → Move o commits true
          (record o { delivered = o.delivered + o.buffered; buffered = 0; flushed = o.flushed + 1 })
  report :
      (n : ℕ)
      → 0 < o.buffered
      → n ≤ 1
      → Move o commits false
          (record o { reported = o.reported + o.buffered; buffered = 0; flushed = o.flushed + n })
  nothing_to_commit : {b : Bool} → o.buffered ≡ 0 → Move o commits b o
  undo : Move o aborts true (record o { undone = o.undone + o.buffered; buffered = 0 })
  nothing_to_undo : {b : Bool} → o.buffered ≡ 0 → Move o aborts b o
  keep : {b : Bool} → Move o savepoint_aborts b o
  stay : {k : Call} {b : Bool} → is_transactional k ≡ false → Move o k b o
  drop :
      {k : Call} {b : Bool}
      → is_transactional k ≡ false
      → Move o k b (record o { dropped = o.dropped + o.buffered; buffered = 0 })

module _ (w : World) (cfg : Settings) where
  -- One call: the messages that it accepted for the transaction, and the state.
  unfoldable pub call : Call → Ctx → ℕ × Ctx
  call (publish a) c = let (b, c') = publish_opt w cfg 2 a c in (one_if b, c')
  call (autonomous_publish a) c = (0, (publish_opt w cfg 1 a c).1)
  call (exchange_declare a) c = (0, (declare_exchange w cfg a c).1)
  call disconnects c = (0, disconnect c)
  call commits c = (0, commit_one w cfg c)
  call aborts c = (0, abort_one w cfg c)
  call savepoint_aborts c = (0, abort_sub c)
  call exits c = (0, disconnect_bs true c)

  unfoldable pub calls : List Call → Ctx → ℕ × Ctx
  unfolding call
  calls [] c = (0, c)
  calls (k ∷ ks) c = let (n, c') = call k c in let (m, c'') = calls ks c' in (n + m, c'')

  -- Whether the broker forgets what was published and not committed: after the abort the connection is
  -- closed, or tx.rollback was called on it once and confirmed.
  abbrev pub undoes : Ctx → Bool
  undoes c =
      let c' = abort_one w cfg c in
      not (present c'.bs.conn)
      || (rollbacks c'.trace == rollbacks c.trace + 1 && rolled_back w cfg c.bs.conn c)

  -- How a call is answered.
  unfoldable pub answered : Call → Ctx → Bool
  answered (publish a) c = (publish_opt w cfg 2 a c).0
  answered commits c = delivered w cfg c.bs.conn c
  answered aborts c = undoes c
  answered _ c = false
