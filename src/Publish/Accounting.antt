-- ===== src/Publish/Accounting.antt =====
-- `pg_amqp_publish_opt` on every path: what it sends, what it counts as buffered, and that it keeps
-- the broker's state in order.
use pg_amqp.Base.{ℕ, ◌+◌, ◌≤◌, ◌≡◌, ◌≢◌, ◌⊎◌, refl, Bool, true, false, Option, none, some, arith}
use pg_amqp.Events.{Conn, Status, basic_publish}
use pg_amqp.World.{World}
use pg_amqp.Broker.{Settings, Ctx, emit, set_inerror}
use pg_amqp.Broker.Invariant.{IsWf}
use pg_amqp.Readings.{faults, lost, sent, attempts, commits, Quiet}
use pg_amqp.Connection.{disconnect_bs, drain_returns}
use pg_amqp.Connection.Keeps.{drain_returns-Keeps}
use pg_amqp.Connect.{get_bs, is_ok}
use pg_amqp.Connect.Outcome.{get_bs-Reached}
use pg_amqp.Publish.{
  PublishArgs, warn_mode, message_of, redo_or, fail_drained, send, publish_open, publish_on,
  publish_with, publish_pass, publish_opt,
}

-- One message where the call returned true.
abbrev pub one_if : Bool → ℕ
one_if true = 1
one_if false = 0

-- What a call on a channel that returned `b` did, with at most `n` calls of `amqp_basic_publish`.
pub record Published (id channel n : ℕ) (b : Bool) (c c' : Ctx) : Type 0 where
  pub wf : IsWf c'.bs
  pub same_id : c'.bs.broker_id ≡ c.bs.broker_id
  pub sends : sent channel c'.trace ≡ sent channel c.trace + one_if b
  pub counts :
      ((channel ≡ 2) × (c'.bs.uncommitted ≡ c.bs.uncommitted + one_if b))
      ⊎ ((channel ≢ 2) × ((c'.bs.uncommitted ≡ c.bs.uncommitted) ⊎ (c'.bs.uncommitted ≡ 0)))
  pub tries : attempts c'.trace ≤ attempts c.trace + n
  pub same_faults : faults c'.trace ≡ faults c.trace
  pub same_lost : lost id c'.trace ≡ lost id c.trace
  pub same_commits : commits c'.trace ≡ commits c.trace

module _ (id channel : ℕ) where
  disconnect_bs-Quiet : (c : Ctx) → Quiet id channel c.trace (disconnect_bs false c).trace
  unfolding disconnect_bs
  disconnect_bs-Quiet c = ground arith

  -- Dropping the connection empties the buffer.
  pub record Dropped (c c' : Ctx) : Type 0 where
    pub wf : IsWf c'.bs
    pub same_id : c'.bs.broker_id ≡ c.bs.broker_id
    pub same_inerror : c'.bs.inerror ≡ c.bs.inerror
    pub emptied : c'.bs.uncommitted ≡ 0
    pub quiet : Quiet id channel c.trace c'.trace

  pub disconnect_bs-Dropped : (c : Ctx) → IsWf c.bs → Dropped c (disconnect_bs false c)
  unfolding disconnect_bs
  disconnect_bs-Dropped c v = ground arith

  module _ (w : World) (cfg : Settings) (a : PublishArgs) where
    abbrev pub Publishes : ℕ → (Ctx → Bool × Ctx) → Type 0
    Publishes n f = (c : Ctx) → IsWf c.bs → Published id channel n (f c).0 c (f c).1

    -- A drain keeps the state in order.
    pub drained-IsWf :
        (k : Conn) (c : Ctx) → c.bs.conn ≡ some k → IsWf c.bs → IsWf (drain_returns w c).1.bs
    drained-IsWf k c e v = ground (arith, drain_returns-Keeps id channel w c)

    -- One more call of the library, counted where it took the message; the rest as before.
    record Sends (s : Status) (c c' : Ctx) : Type 0 where
      keeps_wf : IsWf c'.bs
      same_id : c'.bs.broker_id ≡ c.bs.broker_id
      same_uncommitted : c'.bs.uncommitted ≡ c.bs.uncommitted
      sends : sent channel c'.trace ≡ sent channel c.trace + one_if (is_ok s)
      tries : attempts c'.trace ≡ attempts c.trace + 1
      same_faults : faults c'.trace ≡ faults c.trace
      same_lost : lost id c'.trace ≡ lost id c.trace
      same_commits : commits c'.trace ≡ commits c.trace

    send-Sends :
        (k : Conn) (c : Ctx)
        → c.bs.conn ≡ some k
        → IsWf c.bs
        → Sends (send w cfg channel a k c).0 c (send w cfg channel a k c).1
    unfolding send
    send-Sends k c e v =
        let m = message_of a in
        let s = w.basic_publish k channel m c.trace in
        let written = emit (basic_publish k channel m s) c in
        ground (arith, drain_returns-Keeps id channel w written, drained-IsWf k written)

    warn_mode-Quiet :
        (c : Ctx)
        → Quiet id channel c.trace (warn_mode a.delivery_mode c).trace
          × ((warn_mode a.delivery_mode c).bs ≡ c.bs)
    unfolding warn_mode
    warn_mode-Quiet c = ground arith

    -- A failed pass: nothing was sent, and what was buffered stays.
    record Failed (n : ℕ) (c c' : Ctx) : Type 0 where
      wf : IsWf c'.bs
      same_id : c'.bs.broker_id ≡ c.bs.broker_id
      same_uncommitted : c'.bs.uncommitted ≡ c.bs.uncommitted
      sends : sent channel c'.trace ≡ sent channel c.trace
      tries : attempts c'.trace ≤ attempts c.trace + n
      same_faults : faults c'.trace ≡ faults c.trace
      same_lost : lost id c'.trace ≡ lost id c.trace
      same_commits : commits c'.trace ≡ commits c.trace

    -- `redo` publishes with at most `n` calls; a missing one makes none.
    abbrev pub Redoes : ℕ → Option (Ctx → Bool × Ctx) → Type 0
    Redoes n none = n ≡ 0
    Redoes n (some f) = Publishes n f

    -- The redo, or the failure, after a pass that sent nothing.
    redo_or-Published :
        (n m : ℕ) (redo : Option (Ctx → Bool × Ctx)) (fail : Ctx → Ctx) (b c : Ctx)
        → Redoes n redo
        → ((d : Ctx) → IsWf d.bs → Failed 0 d (fail d))
        → Failed m b c
        → Published id channel
            (m + n)
            (redo_or redo channel fail c).0
            b
            (redo_or redo channel fail c).1
    unfolding redo_or
    redo_or-Published n m none fail b c r f h = ground (arith, f c)
    redo_or-Published n m (some redo) fail b c r f h =
        ground (arith, f c, disconnect_bs-Dropped c, r (disconnect_bs false c))

    set_inerror-Failed : (c : Ctx) → IsWf c.bs → Failed 0 c (set_inerror true c)
    set_inerror-Failed c v = ground arith

    fail_drained-Failed : (c : Ctx) → IsWf c.bs → Failed 0 c (fail_drained channel c)
    fail_drained-Failed c v = ground arith

    publish_open-Published :
        (n : ℕ) (redo : Option (Ctx → Bool × Ctx)) (k : Conn) (c : Ctx)
        → Redoes n redo
        → c.bs.conn ≡ some k
        → IsWf c.bs
        → let (b, c') = publish_open w cfg channel a redo k c in Published id channel (1 + n) b c c'
    unfolding publish_open
    publish_open-Published n redo k c r e v =
        let noted = warn_mode a.delivery_mode c in
        let written = (send w cfg channel a k noted).1 in
        ground (
          arith,
          warn_mode-Quiet c,
          send-Sends k noted,
          redo_or-Published n 1 redo (set_inerror true) c written r set_inerror-Failed,
        )

    publish_on-Published :
        (n : ℕ) (redo : Option (Ctx → Bool × Ctx)) (k : Conn) (c : Ctx)
        → Redoes n redo
        → c.bs.conn ≡ some k
        → IsWf c.bs
        → let (b, c') = publish_on w cfg channel a redo k c in Published id channel (1 + n) b c c'
    unfolding publish_on
    publish_on-Published n redo k c r e v =
        let drained = (drain_returns w c).1 in
        ground (
          arith,
          drain_returns-Keeps id channel w c,
          drained-IsWf k c,
          publish_open-Published n redo k drained r,
          redo_or-Published n 0 redo (fail_drained channel) c drained r fail_drained-Failed,
        )

    publish_with-Published :
        (n : ℕ) (redo : Option (Ctx → Bool × Ctx)) (o : Option Conn) (c : Ctx)
        → Redoes n redo
        → c.bs.conn ≡ o
        → IsWf c.bs
        → let (b, c') = publish_with w cfg channel a redo o c in Published id channel (1 + n) b c c'
    unfolding publish_with
    publish_with-Published n redo none c r e v = ground arith
    publish_with-Published n redo (some k) c r e v =
        ground (arith, publish_on-Published n redo k c r)

    pub publish_pass-Published :
        (n : ℕ) (redo : Option (Ctx → Bool × Ctx))
        → Redoes n redo
        → Publishes (1 + n) (publish_pass w cfg channel a redo)
    unfolding publish_pass
    publish_pass-Published n redo r c v =
        let got = get_bs w cfg c in
        ground (
          arith,
          get_bs-Reached id channel w cfg c,
          publish_with-Published n redo got.bs.conn got r refl,
        )

    -- A call publishes the message once where it returns true, and not at all where it returns
    -- false, with at most two calls of the library; on channel 2 what is counted as buffered grows by
    -- just that. It reports no loss, commits nothing, and keeps the broker's state in order.
    pub publish_opt-Published : Publishes 2 (publish_opt w cfg channel a)
    unfolding publish_opt
    publish_opt-Published c v = ground (
      arith,
      publish_pass-Published 1 (some (publish_pass w cfg channel a none))
          (publish_pass-Published 0 none refl) c,
    )
