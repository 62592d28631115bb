-- ===== src/Outbox/Simulation.antt =====
-- Each call on a broker is a move of the outbox that its state and the log show.
use pg_amqp.Base.{
  ℕ, ◌+◌, ◌≤◌, ◌≡◌, ◌⊎◌, inl, inr, refl, ap, sym, present, ◌||◌, ◌==◌, Bool, true, false, Option,
  none, some, not, ◌&&◌, ltb, arith, Bool-cases, if◌then◌else◌,
}
use pg_amqp.Events.{Conn}
use mathlib.Core.Path.{◌∙◌, subst, subst⁻¹}
use pg_amqp.World.{World}
use pg_amqp.Broker.{Settings, Ctx}
use pg_amqp.Broker.Invariant.{IsWf}
use pg_amqp.Readings.{lost, rollbacks}
use pg_amqp.Readings
use pg_amqp.Connection.{disconnect_bs}
use pg_amqp.Hosts.{free_hosts}
use pg_amqp.Publish.{PublishArgs, DeclareArgs, publish_opt, declare_exchange, disconnect}
use pg_amqp.Publish.Accounting.{one_if, Published, publish_opt-Published}
use pg_amqp.Publish.Reset.{disconnect-new_state, declare_exchange-Declared}
use pg_amqp.Xact.{commit_one, abort_one, abort_sub}
use pg_amqp.Xact.Accounting.{
  delivered, rolled_back, Committed, commit_one-Committed, RolledBack, abort_one-RolledBack,
}
use pg_amqp.Outbox.{
  Outbox, Move, turn_down, accept, deliver, report, nothing_to_commit, undo, nothing_to_undo, keep,
  stay, drop, Call, publish, autonomous_publish, exchange_declare, disconnects, commits, aborts,
  savepoint_aborts, exits, is_transactional, undoes,
}

-- The broker's count is what is buffered; the WARNINGs and the calls of tx.commit are in the log.
pub record Shows (id : ℕ) (c : Ctx) (o : Outbox) : Type 0 where
  pub wf : IsWf c.bs
  pub same_id : c.bs.broker_id ≡ id
  pub buffer : c.bs.uncommitted ≡ o.buffered
  pub reports : lost id c.trace ≡ o.reported
  pub flushes : Readings.commits c.trace ≡ o.flushed

-- A move of a call to an outbox that the state after it shows, with `n` messages accepted, and none
-- dropped on the transaction's channel.
abbrev pub Simulates : ℕ → Call → Bool → ℕ → Ctx → Outbox → Type 0
Simulates id k b n c' o =
    (o' : Outbox) × Move o k b o'
    × Shows id c' o'
    × (o'.accepted ≡ o.accepted + n)
    × (is_transactional k ≡ true → o'.dropped ≡ o.dropped)

one_if-le : (b : Bool) → one_if b ≤ 1
one_if-le true = omega arith
one_if-le false = omega arith

module _ (w : World) (cfg : Settings) (id : ℕ) (o : Outbox) (c : Ctx) (s : Shows id c o) where
  -- On the transaction's channel the buffer grows by what was accepted.
  counted :
      (n : ℕ) (b : Bool) (c' : Ctx)
      → Published id 2 n b c c'
      → c'.bs.uncommitted ≡ c.bs.uncommitted + one_if b
  counted n b c' p = elim p.counts [ inl (_, e) ↦ e | inr (other, _) ↦ absurd (other refl) ]

  publish_by-Simulates :
      (a : PublishArgs) (n : ℕ) (b : Bool) (c' : Ctx)
      → Published id 2 n b c c'
      → Simulates id (publish a) b (one_if b) c' o
  publish_by-Simulates a n true c' p =
      let e = counted n true c' p in
      (
        record o { accepted = o.accepted + 1; buffered = o.buffered + 1 },
        accept,
        record {
          wf = p.wf;
          same_id = p.same_id ∙ s.same_id;
          buffer = e ∙ ap (λ x. x + 1) s.buffer;
          reports = p.same_lost ∙ s.reports;
          flushes = p.same_commits ∙ s.flushes;
        },
        refl,
        λ e. refl,
      )
  publish_by-Simulates a n false c' p =
      let e = counted n false c' p in
      (
        o,
        turn_down,
        record {
          wf = p.wf;
          same_id = p.same_id ∙ s.same_id;
          buffer = e ∙ ap (λ x. x + 0) s.buffer ∙ omega arith;
          reports = p.same_lost ∙ s.reports;
          flushes = p.same_commits ∙ s.flushes;
        },
        omega arith,
        λ e. refl,
      )

  pub publish-Simulates :
      (a : PublishArgs)
      → let (b, c') = publish_opt w cfg 2 a c in Simulates id (publish a) b (one_if b) c' o
  publish-Simulates a =
      publish_by-Simulates a 2 (publish_opt w cfg 2 a c).0 (publish_opt w cfg 2 a c).1
        (publish_opt-Published id 2 w cfg a c s.wf)

  -- Nothing happened to the buffer, or it is gone.
  kept_or_dropped :
      (k : Call) (b : Bool) (c' : Ctx)
      → is_transactional k ≡ false
      → IsWf c'.bs
      → c'.bs.broker_id ≡ c.bs.broker_id
      → (c'.bs.uncommitted ≡ c.bs.uncommitted) ⊎ (c'.bs.uncommitted ≡ 0)
      → lost id c'.trace ≡ lost id c.trace
      → Readings.commits c'.trace ≡ Readings.commits c.trace
      → Simulates id k b 0 c' o
  kept_or_dropped k b c' other v i (inl same) l f = (
    o,
    stay other,
    record {
      wf = v;
      same_id = ground arith;
      buffer = ground arith;
      reports = ground arith;
      flushes = ground arith;
    },
    omega arith,
    λ e. refl,
  )
  kept_or_dropped k b c' other v i (inr gone) l f = (
    record o { dropped = o.dropped + o.buffered; buffered = 0 },
    drop other,
    record {
      wf = v;
      same_id = ground arith;
      buffer = gone;
      reports = ground arith;
      flushes = ground arith;
    },
    omega arith,
    λ e. absurd (cc),
  )

  pub autonomous_publish-Simulates :
      (a : PublishArgs) → Simulates id (autonomous_publish a) false 0 (publish_opt w cfg 1 a c).1 o
  autonomous_publish-Simulates a =
      let p = publish_opt-Published id 1 w cfg a c s.wf in
      kept_or_dropped (autonomous_publish a) false (publish_opt w cfg 1 a c).1 refl p.wf p.same_id
        (elim p.counts [ inl (other, _) ↦ absurd (omega arith) | inr (_, e) ↦ e ]) p.same_lost
        p.same_commits

  pub exchange_declare-Simulates :
      (a : DeclareArgs) → Simulates id (exchange_declare a) false 0 (declare_exchange w cfg a c).1 o
  exchange_declare-Simulates a =
      let d = declare_exchange-Declared id 1 w cfg a c s.wf in
      kept_or_dropped (exchange_declare a) false (declare_exchange w cfg a c).1 refl d.wf d.same_id
        (ground arith) d.quiet.same_lost d.quiet.same_commits

  pub disconnects-Simulates : Simulates id disconnects false 0 (disconnect c) o
  unfolding disconnect disconnect_bs free_hosts
  disconnects-Simulates =
      let e = disconnect-new_state c s.wf in
      kept_or_dropped disconnects false (disconnect c) refl
        (subst⁻¹ IsWf e (record { closed = (refl, refl, refl); cached = refl }))
        (ap (λ b. b.broker_id) e) (inr (ground arith)) (ground arith) (ground arith)

  pub exits-Simulates : Simulates id exits false 0 (disconnect_bs true c) o
  unfolding disconnect_bs
  exits-Simulates =
      let v = s.wf in
      kept_or_dropped exits false (disconnect_bs true c) refl (ground arith) (ground arith)
        (ground arith) (ground arith) (ground arith)

  -- With something buffered an abort closes the connection or rolls back.
  undoes-buffered :
      (c' : Ctx) (confirmed : Bool)
      → RolledBack w cfg c c'
      → rolled_back w cfg c.bs.conn c ≡ confirmed
      → (not (present c'.bs.conn) || (rollbacks c'.trace == rollbacks c.trace + 1 && confirmed))
        ≡ false
      → c.bs.uncommitted ≡ 0
  undoes-buffered c' confirmed r e h =
      let once = r.rolls_back_once in let open_or_closed = r.open_or_closed in ground arith

  abort_by-Simulates :
      (c' : Ctx) (b : Bool)
      → RolledBack w cfg c c'
      → (b ≡ false → c.bs.uncommitted ≡ 0)
      → Simulates id aborts b 0 c' o
  abort_by-Simulates c' true r emptied =
      let i = s.same_id in
      (
        record o { undone = o.undone + o.buffered; buffered = 0 },
        undo,
        record {
          wf = r.wf;
          same_id = r.same_id ∙ i;
          buffer = r.emptied;
          reports = subst (λ j. lost j c'.trace ≡ lost j c.trace) i r.same_lost ∙ s.reports;
          flushes = r.same_commits ∙ s.flushes;
        },
        omega arith,
        λ e. refl,
      )
  abort_by-Simulates c' false r emptied =
      let i = s.same_id in
      let empty : o.buffered ≡ 0 = sym s.buffer ∙ emptied refl in
      (
        o,
        nothing_to_undo empty,
        record {
          wf = r.wf;
          same_id = r.same_id ∙ i;
          buffer = r.emptied ∙ sym empty;
          reports = subst (λ j. lost j c'.trace ≡ lost j c.trace) i r.same_lost ∙ s.reports;
          flushes = r.same_commits ∙ s.flushes;
        },
        omega arith,
        λ e. refl,
      )

  pub aborts-Simulates : Simulates id aborts (undoes w cfg c) 0 (abort_one w cfg c) o
  aborts-Simulates =
      let c' = abort_one w cfg c in
      let r = abort_one-RolledBack w cfg c s.wf in
      abort_by-Simulates c' (undoes w cfg c) r
        (undoes-buffered c' (rolled_back w cfg c.bs.conn c) r refl)

  pub savepoint_aborts-Simulates : Simulates id savepoint_aborts false 0 (abort_sub c) o
  unfolding abort_sub
  savepoint_aborts-Simulates =
      let v = s.wf in
      (
        o,
        keep,
        record {
          wf = ground arith;
          same_id = ground arith;
          buffer = ground arith;
          reports = ground arith;
          flushes = ground arith;
        },
        omega arith,
        λ e. refl,
      )

  -- Delivery needs that no error is pending.
  delivered-clean : (k : Option Conn) → delivered w cfg k c ≡ true → c.bs.inerror ≡ false
  delivered-clean none e = absurd (cc)
  delivered-clean (some k) e = ground arith

  commit_of_none :
      (c' : Ctx) (b : Bool)
      → Committed w cfg c c'
      → ltb 0 c.bs.uncommitted ≡ false
      → Simulates id commits b 0 c' o
  commit_of_none c' b k nothing =
      let lost_by =
        subst
          (λ j.
            lost j c'.trace
            ≡ lost j c.trace + (if delivered w cfg c.bs.conn c then 0 else c.bs.uncommitted))
          s.same_id k.reports in
      let none : c.bs.uncommitted ≡ 0 = ground arith in
      let buffer = s.buffer in
      let reported = s.reports in
      let flushed = s.flushes in
      let commits_once = k.commits_once in
      let emptied = k.emptied in
      (
        o,
        nothing_to_commit (omega arith),
        record {
          wf = k.wf;
          same_id = k.same_id ∙ s.same_id;
          buffer = omega arith;
          reports = ground arith;
          flushes = ground arith;
        },
        omega arith,
        λ e. refl,
      )

  commit_of_buffer :
      (c' : Ctx) (b : Bool)
      → Committed w cfg c c'
      → delivered w cfg c.bs.conn c ≡ b
      → ltb 0 c.bs.uncommitted ≡ true
      → Simulates id commits b 0 c' o
  commit_of_buffer c' true k all busy =
      let lost_by =
        subst
          (λ j.
            lost j c'.trace
            ≡ lost j c.trace + (if delivered w cfg c.bs.conn c then 0 else c.bs.uncommitted))
          s.same_id k.reports in
      let buffer = s.buffer in
      let reported = s.reports in
      let flushed = s.flushes in
      let commits_once = k.commits_once in
      let clean = delivered-clean c.bs.conn all in
      (
        record o { delivered = o.delivered + o.buffered; buffered = 0; flushed = o.flushed + 1 },
        deliver (ground arith),
        record {
          wf = k.wf;
          same_id = k.same_id ∙ s.same_id;
          buffer = k.emptied;
          reports = ground arith;
          flushes = ground arith;
        },
        omega arith,
        λ e. refl,
      )
  commit_of_buffer c' false k not_all busy =
      let lost_by =
        subst
          (λ j.
            lost j c'.trace
            ≡ lost j c.trace + (if delivered w cfg c.bs.conn c then 0 else c.bs.uncommitted))
          s.same_id k.reports in
      let buffer = s.buffer in
      let reported = s.reports in
      let flushed = s.flushes in
      let commits_once = k.commits_once in
      let n = one_if (ltb 0 c.bs.uncommitted && not c.bs.inerror) in
      (
        record o { reported = o.reported + o.buffered; buffered = 0; flushed = o.flushed + n },
        report n (ground arith) (one_if-le (ltb 0 c.bs.uncommitted && not c.bs.inerror)),
        record {
          wf = k.wf;
          same_id = k.same_id ∙ s.same_id;
          buffer = k.emptied;
          reports = ground arith;
          flushes = ground arith;
        },
        omega arith,
        λ e. refl,
      )

  pub commits-Simulates :
      Simulates id commits (delivered w cfg c.bs.conn c) 0 (commit_one w cfg c) o
  commits-Simulates =
      let c' = commit_one w cfg c in
      let k = commit_one-Committed w cfg c s.wf in
      let b = delivered w cfg c.bs.conn c in
      elim (Bool-cases (ltb 0 c.bs.uncommitted)) [
        | inl busy ↦ commit_of_buffer c' b k refl busy
        | inr nothing ↦ commit_of_none c' b k nothing
      ]
