-- ===== src/Outbox/Refinement.antt =====
-- Any calls on a broker, one after another, are a run of the outbox.
use pg_amqp.Base.{
  ℕ, ◌+◌, ◌≡◌, refl, Bool, true, false, List, [], ◌∷◌, ◌∙◌, arith, Bool-cases, inl, inr, ◌⊎◌,
}
use pg_amqp.World.{World}
use pg_amqp.Broker.{Settings, Ctx, new_state}
use pg_amqp.Outbox.{
  Outbox, empty, Move, turn_down, accept, deliver, report, nothing_to_commit, undo, nothing_to_undo,
  keep, stay, drop, Balanced, Call, publish, autonomous_publish, exchange_declare, disconnects,
  commits, aborts, savepoint_aborts, exits, is_transactional, all_transactional, call, calls,
  answered,
}
use pg_amqp.Outbox.Simulation.{
  Shows, Simulates, publish-Simulates, autonomous_publish-Simulates, exchange_declare-Simulates,
  disconnects-Simulates, exits-Simulates, aborts-Simulates, savepoint_aborts-Simulates,
  commits-Simulates,
}

Move-Balanced : {o p : Outbox} {k : Call} {b : Bool} → Move o k b p → Balanced o → Balanced p
Move-Balanced turn_down h = h
Move-Balanced accept h = omega arith
Move-Balanced (deliver busy) h = omega arith
Move-Balanced (report n busy le) h = omega arith
Move-Balanced (nothing_to_commit e) h = h
Move-Balanced undo h = omega arith
Move-Balanced (nothing_to_undo e) h = h
Move-Balanced keep h = h
Move-Balanced (stay other) h = h
Move-Balanced (drop other) h = omega arith

module _ (w : World) (cfg : Settings) (id : ℕ) where
  -- One move for each call, by how the call was answered, to an outbox that the state after it shows.
  pub data Run : Ctx → Outbox → List Call → Outbox → Type 0 where
    here : {c : Ctx} {o : Outbox} → Run c o [] o
    next :
        {c : Ctx} {k : Call} {ks : List Call} {o p q : Outbox}
        → Move o k (answered w cfg k c) p
        → Shows id (call w cfg k c).1 p
        → Run (call w cfg k c).1 p ks q
        → Run c o (k ∷ ks) q

  Run-Balanced : {ks : List Call} {c : Ctx} {o p : Outbox} → Run c o ks p → Balanced o → Balanced p
  Run-Balanced here h = h
  Run-Balanced (next m s r) h = Run-Balanced r (Move-Balanced m h)

  -- What a run of calls comes to: an outbox that the state shows, with all that was accepted.
  abbrev Runs : List Call → Ctx → Outbox → ℕ × Ctx → Type 0
  Runs ks c o (n, c') =
      (o' : Outbox) × Run c o ks o'
      × Shows id c' o'
      × (o'.accepted ≡ o.accepted + n)
      × (all_transactional ks ≡ true → o'.dropped ≡ o.dropped)

  call-Simulates :
      (k : Call) (o : Outbox) (c : Ctx)
      → Shows id c o
      → let (n, c') = call w cfg k c in Simulates id k (answered w cfg k c) n c' o
  unfolding call answered
  call-Simulates (publish a) o c s = publish-Simulates w cfg id o c s a
  call-Simulates (autonomous_publish a) o c s = autonomous_publish-Simulates w cfg id o c s a
  call-Simulates (exchange_declare a) o c s = exchange_declare-Simulates w cfg id o c s a
  call-Simulates disconnects o c s = disconnects-Simulates w cfg id o c s
  call-Simulates commits o c s = commits-Simulates w cfg id o c s
  call-Simulates aborts o c s = aborts-Simulates w cfg id o c s
  call-Simulates savepoint_aborts o c s = savepoint_aborts-Simulates w cfg id o c s
  call-Simulates exits o c s = exits-Simulates w cfg id o c s

  both_transactional :
      (k : Call) (ks : List Call)
      → all_transactional (k ∷ ks) ≡ true
      → (is_transactional k ≡ true) × (all_transactional ks ≡ true)
  both_transactional k ks h = ground arith

  calls-Runs :
      (ks : List Call) (o : Outbox) (c : Ctx) → Shows id c o → Runs ks c o (calls w cfg ks c)
  unfolding calls
  calls-Runs [] o c s = (o, here, s, omega arith, λ h. refl)
  calls-Runs (k ∷ ks) o c s =
      let (p, m, shows, took, kept) = call-Simulates k o c s in
      let (q, r, shows', took', kept') = calls-Runs ks p (call w cfg k c).1 shows in
      (
        q,
        next m shows r,
        shows',
        omega arith,
        λ h. let (one, more) = both_transactional k ks h in kept' more ∙ kept one,
      )

-- Whatever calls are made for a broker from its first use on, and however broker, network and clock
-- answer, its states and the log show a run of the outbox from the empty one, one step for each call: a
-- message comes in where amqp.publish returns true and not otherwise; at a commit all that are buffered
-- are delivered, with one tx.commit that the broker confirmed, or else reported lost in a WARNING; at an
-- abort they are undone, where the connection is closed or one tx.rollback on it confirmed; the abort of
-- a savepoint leaves them. Other calls keep them or drop them with the connection. What is counted as
-- uncommitted is what is buffered, the losses in the WARNINGs are what is reported, and tx.commit was
-- called as often as the steps say. The outbox has accepted as many messages as calls of amqp.publish
-- returned true, each is in one place, and none was dropped where all calls were amqp.publish and the
-- ends of transactions and savepoints.
pub calls-Refines :
    (w : World) (cfg : Settings) (id : ℕ) (ks : List Call)
    → let start : Ctx = record { bs = new_state id; trace = [] } in
      let (n, c') = calls w cfg ks start in
      (o : Outbox) × Run w cfg id start empty ks o
      × Shows id c' o
      × (o.accepted ≡ n)
      × Balanced o
      × ((all_transactional ks ≡ false) ⊎ (o.dropped ≡ 0))
calls-Refines w cfg id ks =
    let start : Ctx = record { bs = new_state id; trace = [] } in
    let first : Shows id start empty = record {
      wf = record { closed = (refl, refl, refl); cached = refl };
      same_id = refl;
      buffer = refl;
      reports = refl;
      flushes = refl;
    } in
    let (o, r, s, took, kept) = calls-Runs w cfg id ks empty start first in
    (
      o,
      r,
      s,
      omega arith,
      Run-Balanced w cfg id r refl,
      elim (Bool-cases (all_transactional ks)) [ inl all ↦ inr (kept all) | inr some ↦ inl some ],
    )
