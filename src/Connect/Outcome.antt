-- ===== src/Connect/Outcome.antt =====
-- What `local_amqp_get_bs` comes to, on every path: a state in order, with what was buffered and the
-- error flag as they were, and nothing published, committed or reported lost.
use pg_amqp.Base.{ℕ, zero, suc, ◌+◌, ◌<◌, ◌≡◌, ◌⊎◌, true, none, arith, present}
use pg_amqp.Events.{budget_exhausted}
use pg_amqp.World.{World}
use pg_amqp.Broker.{Host, Settings, Ctx, elog}
use pg_amqp.Hosts.{load_hosts}
use pg_amqp.Hosts.Cache.{load_hosts-count, load_hosts-KeepsConn, load_hosts-IsCached}
use pg_amqp.Broker.Invariant.{IsWf}
use pg_amqp.Connect.{
  give_up, over_deadline, Attempt, done, no_memory, invalid, host_failed, warn_next, any_host,
  after_attempt, connect_loop, start_clock, reconnect, in_backoff, get_bs,
}
use pg_amqp.Connect.Round.{Reached, give_up-Reached, Tried, attempt-Tried}

module _ (id channel : ℕ) where
  module _ (w : World) (cfg : Settings) where
    over_deadline-Reached :
        (deadline : ℕ) (c : Ctx)
        → IsWf c.bs
        → Reached id channel c (over_deadline w cfg deadline c).1
          × ((over_deadline w cfg deadline c).1.bs ≡ c.bs)
    unfolding over_deadline
    over_deadline-Reached zero c v = ground arith
    over_deadline-Reached (suc d) c v = ground arith

    warn_next-Reached :
        (tries : ℕ) (h : Host) (c : Ctx)
        → IsWf c.bs
        → Reached id channel c (warn_next w cfg tries h c) × ((warn_next w cfg tries h c).bs ≡ c.bs)
    unfolding warn_next
    warn_next-Reached tries h c v = ground arith

    -- How a call without a connection ends: connected, or with one more failure on record.
    abbrev pub Ends : Ctx → Ctx → Type 0
    Ends c c' =
        ((present c'.bs.conn ≡ true)
          × (c'.bs.consecutive_failures ≡ 0)
          × (c'.bs.last_failed_connect ≡ 0))
        ⊎ ((c'.bs.conn ≡ none) × (c'.bs.consecutive_failures ≡ c.bs.consecutive_failures + 1))

    -- The state that a round of the loop begins with.
    abbrev Starts : Ctx → Type 0
    Starts c = (present c.bs.hosts ≡ true) × (c.bs.conn ≡ none) × IsWf c.bs

    give_up-Ends : (c : Ctx) → c.bs.conn ≡ none → Ends c (give_up w cfg c)
    unfolding give_up
    give_up-Ends c e = ground arith

    after_attempt-Ends :
        (rest : Ctx → Ctx) (deadline tries : ℕ) (a : Attempt) (c c' : Ctx)
        → ((d : Ctx) → Starts d → Reached id channel d (rest d) × Ends d (rest d))
        → Starts c
        → Tried id channel w cfg (a, c') c
        → Reached id channel c (after_attempt w cfg rest deadline tries a c')
          × Ends c (after_attempt w cfg rest deadline tries a c')
    unfolding after_attempt
    after_attempt-Ends rest deadline tries done c c' ih s t = ground arith
    after_attempt-Ends rest deadline tries no_memory c c' ih s t =
        ground (arith, give_up-Reached id channel w cfg c', give_up-Ends c')
    after_attempt-Ends rest deadline tries invalid c c' ih s t = absurd t.1
    after_attempt-Ends rest deadline tries (host_failed h) c c' ih s t =
        let timed = (over_deadline w cfg deadline c').1 in
        let over = elog (budget_exhausted cfg.connect_budget_ms timed.bs.broker_id) timed in
        let next = warn_next w cfg tries h timed in
        ground (
          arith,
          over_deadline-Reached deadline c',
          warn_next-Reached tries h timed,
          give_up-Reached id channel w cfg over,
          give_up-Ends over,
          ih next,
        )

    connect_loop-Ends :
        (deadline tries : ℕ) (c : Ctx)
        → Starts c
        → Reached id channel c (connect_loop w cfg deadline tries c)
          × Ends c (connect_loop w cfg deadline tries c)
    unfolding connect_loop
    connect_loop-Ends deadline zero c s =
        (give_up-Reached id channel w cfg c s.2, give_up-Ends c s.1)
    connect_loop-Ends deadline (suc tries) c s =
        after_attempt-Ends _ deadline (suc tries) _ c _ (λ d. connect_loop-Ends deadline tries d) s
          (attempt-Tried id channel w cfg c s.0 s.1 s.2)

    -- A count above zero is that of a list which is there.
    load_hosts-present :
        (c : Ctx)
        → IsWf c.bs
        → any_host (load_hosts w c).0 ≡ true
        → present (load_hosts w c).1.bs.hosts ≡ true
    load_hosts-present c v some_host = ground (arith, load_hosts-count w c, load_hosts-IsCached w c)

    start_clock-Reached :
        (c : Ctx)
        → IsWf c.bs
        → Reached id channel c (start_clock w cfg c).1 × ((start_clock w cfg c).1.bs ≡ c.bs)
    unfolding start_clock
    start_clock-Reached c v = ground arith

    load_hosts-Reached :
        (c : Ctx)
        → IsWf c.bs
        → Reached id channel c (load_hosts w c).1
          × ((load_hosts w c).1.bs.consecutive_failures ≡ c.bs.consecutive_failures)
          × ((load_hosts w c).1.bs.conn ≡ c.bs.conn)
    load_hosts-Reached c v =
        ground (arith, load_hosts-KeepsConn w id channel c, load_hosts-IsCached w c)

    reconnect-Ends :
        (c : Ctx)
        → c.bs.conn ≡ none
        → IsWf c.bs
        → Reached id channel c (reconnect w cfg c) × Ends c (reconnect w cfg c)
    unfolding reconnect
    reconnect-Ends c e v =
        let loaded = (load_hosts w c).1 in
        let (deadline, timed) = start_clock w cfg loaded in
        ground (
          arith,
          load_hosts-Reached c,
          load_hosts-present c,
          give_up-Reached id channel w cfg loaded,
          give_up-Ends loaded,
          start_clock-Reached loaded,
          connect_loop-Ends deadline timed.bs.nhosts timed,
        )

    in_backoff-Reached :
        (c : Ctx)
        → IsWf c.bs
        → Reached id channel c (in_backoff w cfg c).1 × ((in_backoff w cfg c).1.bs ≡ c.bs)
    unfolding in_backoff
    in_backoff-Reached c v = ground arith

    in_backoff-failed : (c : Ctx) → (in_backoff w cfg c).0 ≡ true → 0 < c.bs.last_failed_connect
    unfolding in_backoff
    in_backoff-failed c h = ground arith

    -- `local_amqp_get_bs` keeps the broker's state in order, with what was buffered and the error
    -- flag, and publishes, commits and reports nothing.
    pub get_bs-Reached : (c : Ctx) → IsWf c.bs → Reached id channel c (get_bs w cfg c)
    unfolding get_bs
    get_bs-Reached c v =
        let waited = (in_backoff w cfg c).1 in
        ground (arith, in_backoff-Reached c, reconnect-Ends waited)

    -- Without a connection `local_amqp_get_bs` ends in one of three ways: within the window after a
    -- failure it leaves the state alone; or it has a connection and forgets earlier failures; or it
    -- has none and counts one failure more. What was buffered and the error flag stay.
    pub get_bs-Ends :
        (c : Ctx)
        → c.bs.conn ≡ none
        → IsWf c.bs
        → let c' = get_bs w cfg c in
          Reached id channel c c' × (((0 < c.bs.last_failed_connect) × (c'.bs ≡ c.bs)) ⊎ Ends c c')
    unfolding get_bs
    get_bs-Ends c e v =
        let waited = (in_backoff w cfg c).1 in
        ground (arith, in_backoff-Reached c, in_backoff-failed c, reconnect-Ends waited)
