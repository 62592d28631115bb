-- ===== src/Session/Settled.antt =====
-- A transaction's end, over all brokers of a backend.
use pg_amqp.Base.{◌≡◌, refl, false, List, [], ◌∷◌, arith, All}
use pg_amqp.Events.{Trace}
use pg_amqp.World.{World}
use pg_amqp.Broker.{BrokerState, Settings, Ctx}
use pg_amqp.Broker.Invariant.{IsWf}
use pg_amqp.Readings.{commits}
use pg_amqp.Xact.{
  XactEvent, commit, parallel_commit, abort, parallel_abort, each, commit_one, abort_one,
}
use pg_amqp.Xact.Accounting.{commit_one-Committed, abort_one-RolledBack}
use pg_amqp.Session.{Session, each_broker, phase2}

-- Nothing is buffered, and no error is pending.
abbrev pub IsIdle : BrokerState → Type 0
IsIdle b = (b.uncommitted ≡ 0) × (b.inerror ≡ false)

-- The events that end a transaction.
abbrev pub Ends : XactEvent → Type 0
Ends commit = Unit
Ends parallel_commit = Unit
Ends abort = Unit
Ends parallel_abort = Unit
Ends _ = ⊥

each-IsIdle :
    (f : Ctx → Ctx)
    → ((c : Ctx) → IsWf c.bs → IsIdle (f c).bs)
    → (bs : List BrokerState) (t : Trace) → All IsWf bs
    → All IsIdle (each f bs t).0
unfolding each
each-IsIdle f idle [] t h = tt
each-IsIdle f idle (b ∷ bs) t h =
    let c : Ctx = record { bs = b; trace = t } in
    (idle c h.0, each-IsIdle f idle bs (f c).trace h.1)

module _ (w : World) (cfg : Settings) where
  commit-IsIdle : (c : Ctx) → IsWf c.bs → IsIdle (commit_one w cfg c).bs
  commit-IsIdle c v = ground (arith, commit_one-Committed w cfg c v)

  abort-IsIdle : (c : Ctx) → IsWf c.bs → IsIdle (abort_one w cfg c).bs
  abort-IsIdle c v = ground (arith, abort_one-RolledBack w cfg c v)

  -- After a commit or an abort no broker of the backend has a buffered message or a pending error,
  -- so the next transaction begins with none.
  pub phase2-IsIdle :
      (e : XactEvent) (s : Session)
      → Ends e
      → All IsWf s.brokers
      → All IsIdle (phase2 w cfg e s).1.brokers
  unfolding phase2 each_broker
  phase2-IsIdle commit s end v = each-IsIdle (commit_one w cfg) commit-IsIdle s.brokers s.trace v
  phase2-IsIdle parallel_commit s end v =
      each-IsIdle (commit_one w cfg) commit-IsIdle s.brokers s.trace v
  phase2-IsIdle abort s end v = each-IsIdle (abort_one w cfg) abort-IsIdle s.brokers s.trace v
  phase2-IsIdle parallel_abort s end v =
      each-IsIdle (abort_one w cfg) abort-IsIdle s.brokers s.trace v
  phase2-IsIdle _ s end v = absurd end

  each-commits :
      (bs : List BrokerState) (t : Trace)
      → All IsWf bs
      → commits (each (abort_one w cfg) bs t).1 ≡ commits t
  unfolding each
  each-commits [] t h = refl
  each-commits (b ∷ bs) t h =
      let c : Ctx = record { bs = b; trace = t } in
      ground
        (arith, abort_one-RolledBack w cfg c h.0, each-commits bs (abort_one w cfg c).trace h.1)

  -- An aborted transaction commits nothing to any broker.
  pub phase2-abort_commits :
      (s : Session) → All IsWf s.brokers → commits (phase2 w cfg abort s).1.trace ≡ commits s.trace
  unfolding phase2 each_broker
  phase2-abort_commits s v = each-commits s.brokers s.trace v
