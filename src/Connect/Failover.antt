-- ===== src/Connect/Failover.antt =====
-- The failover loop of `local_amqp_get_bs` finds a host that accepts, wherever it is in the list.
use pg_amqp.Base.{
  ℕ, zero, suc, ◌+◌, ◌-◌, ◌%◌, ◌≤◌, ◌<◌, ◌≡◌, ◌⊎◌, inl, inr, refl, ap, sym, true, false, Option,
  none, some, List, ltb, length, get_elem?, get_elem?-lt, present, arith, Bool-cases, ◌∷◌, [],
}
use mathlib.Core.Path.{◌∙◌, subst, subst⁻¹}
use native.Mathlib.Nat.{mod-add-mod, mod-lt, mod-eq_of_lt, add-mod_left}
use pg_amqp.Events.{Trace, Conn, new_connection}
use pg_amqp.World.{World}
use pg_amqp.Broker.{Host, Settings, Ctx, emit}
use pg_amqp.Connection.{disconnect_bs}
use pg_amqp.Connection.Keeps.{set_timeout-Keeps}
use pg_amqp.Hosts.{load_hosts}
use pg_amqp.Hosts.Cache.{HostsFit}
use pg_amqp.Broker.Invariant.{IsWf}
use pg_amqp.Connect.Keeps.{handshake-Keeps}
use pg_amqp.Connect.Backoff.{backoff}
use pg_amqp.Connect.{
  handshake, connected, advance, host_at, Attempt, done, no_memory, invalid, host_failed, greet,
  try_with, try_current, try_host, attempt, over_deadline, warn_next, after_attempt, connect_loop,
  start_clock, reconnect, in_backoff, get_bs,
}

-- A host with which the handshake succeeds, whatever happened before.
abbrev pub Accepts : World → Settings → Host → Type 0
Accepts w cfg h = (k : Conn) (c : Ctx) → (handshake w cfg k h c).0 ≡ true

-- The list of hosts that is tried, and the index of the last try.
record Trying (hs : List Host) (n i : ℕ) (c : Ctx) : Type 0 where
  hosts : c.bs.hosts ≡ some hs
  count : c.bs.nhosts ≡ n
  index : c.bs.idx ≡ i

-- A round ends with a connection, or goes on with the same list.
abbrev Goes : List Host → ℕ → ℕ → Attempt × Ctx → Type 0
Goes hs n i (done, c') = present c'.bs.conn ≡ true
Goes hs n i (host_failed _, c') = Trying hs n i c'
Goes hs n i (no_memory, c') = ⊥
Goes hs n i (invalid, c') = ⊥

module _ (w : World) (cfg : Settings)
    (memory : (t : Trace) → present (w.new_connection t) ≡ true) where
  greet-Goes :
      (hs : List Host) (n i : ℕ) (k : Conn) (h : Host) (c : Ctx)
      → Trying hs n i c
      → c.bs.conn ≡ some k
      → Goes hs n i (greet w cfg k h c) × (Accepts w cfg h → (greet w cfg k h c).0 ≡ done)
  unfolding greet connected disconnect_bs
  greet-Goes hs n i k h c t live =
      let kept = handshake-Keeps 0 0 w cfg k h c in
      let timed = set_timeout-Keeps 0 0 cfg.operation_timeout_ms (handshake w cfg k h c).1 in
      (ground arith, λ accepts. let e = accepts k c in ground arith)

  try_with-Goes :
      (hs : List Host) (n i : ℕ) (o : Option Conn) (h : Host) (c : Ctx)
      → Trying hs n i c
      → present o ≡ true
      → c.bs.conn ≡ o
      → Goes hs n i (try_with w cfg o h c) × (Accepts w cfg h → (try_with w cfg o h c).0 ≡ done)
  unfolding try_with
  try_with-Goes hs n i none h c t p live = cc
  try_with-Goes hs n i (some k) h c t p live = greet-Goes hs n i k h c t live

  try_host-Goes :
      (hs : List Host) (n i : ℕ) (h : Host) (c : Ctx)
      → Trying hs n i c
      → Goes hs n i (try_host w cfg h c) × (Accepts w cfg h → (try_host w cfg h c).0 ≡ done)
  unfolding try_host
  try_host-Goes hs n i h c t =
      let k = w.new_connection c.trace in
      try_with-Goes hs n i k h
        (emit (new_connection k) (record c { bs = record (c.bs) { conn = k } }))
        (record { hosts = t.hosts; count = t.count; index = t.index }) (memory c.trace) refl

  -- The host at an index of the list.
  host_at-some :
      (hs : List Host) (n i : ℕ) (h : Host) (c : Ctx)
      → Trying hs n i c
      → get_elem? hs i ≡ some h
      → host_at c.bs.hosts c.bs.idx ≡ some h
  unfolding host_at
  host_at-some hs n i h c t at =
      ap (λ o. host_at o c.bs.idx) t.hosts ∙ ap (get_elem? hs) t.index ∙ at

  -- What the next round comes to, by the host at the next index.
  attempt-Goes :
      (hs : List Host) (n i : ℕ) (h : Host) (c : Ctx)
      → Trying hs n i c
      → get_elem? hs ((i + 1) % n) ≡ some h
      → Goes hs n ((i + 1) % n) (attempt w cfg c) × (Accepts w cfg h → (attempt w cfg c).0 ≡ done)
  unfolding attempt try_current advance
  attempt-Goes hs n i h c t at =
      let next = advance w cfg c in
      let moved : Trying hs n ((i + 1) % n) next = record {
        hosts = t.hosts;
        count = t.count;
        index = rw (t.index, t.count);
      } in
      let here = host_at-some hs n ((i + 1) % n) h next moved at in
      subst⁻¹
        (λ o.
          Goes hs n ((i + 1) % n) (try_current w cfg o next)
          × (Accepts w cfg h → (try_current w cfg o next).0 ≡ done))
        here (try_host-Goes hs n ((i + 1) % n) h next moved)

  warn_next-Trying :
      (hs : List Host) (n i tries : ℕ) (h : Host) (c : Ctx)
      → Trying hs n i c
      → Trying hs n i (warn_next w cfg tries h c)
  unfolding warn_next
  warn_next-Trying hs n i tries h c t = ground arith

  -- With no deadline, a round that does not connect is followed by the next one.
  after_attempt-Connects :
      (rest : Ctx → Ctx) (tries i n : ℕ) (hs : List Host) (r : Attempt × Ctx)
      → Goes hs n i r
      → ((d : Ctx) → Trying hs n i d → (r.0 ≡ done) ⊎ (present (rest d).bs.conn ≡ true))
      → present (after_attempt w cfg rest 0 tries r.0 r.1).bs.conn ≡ true
  unfolding after_attempt over_deadline warn_next
  after_attempt-Connects rest tries i n hs (done, c) g k = g
  after_attempt-Connects rest tries i n hs (host_failed h, c) g k =
      let next = warn_next w cfg tries h c in
      elim (k next (warn_next-Trying hs n i tries h c g)) [ inl e ↦ absurd (cc) | inr live ↦ live ]
  after_attempt-Connects rest tries i n hs (no_memory, c) g k = absurd g
  after_attempt-Connects rest tries i n hs (invalid, c) g k = absurd g

  connect_loop-Connects :
      (hs : List Host) (n i d tries : ℕ) (h : Host) (c : Ctx)
      → n ≡ length hs
      → 0 < n
      → Trying hs n i c
      → get_elem? hs ((i + suc d) % n) ≡ some h
      → Accepts w cfg h
      → d < tries
      → present (connect_loop w cfg 0 tries c).bs.conn ≡ true
  unfolding connect_loop
  connect_loop-Connects hs n i d zero h c size some_host t at accepts left = absurd (omega arith)
  connect_loop-Connects hs n i zero (suc tries) h c size some_host t at accepts left =
      let (goes, meets) = attempt-Goes hs n i h c t at in
      after_attempt-Connects (connect_loop w cfg 0 tries) (suc tries) ((i + 1) % n) n hs
        (attempt w cfg c) goes (λ d' t'. inl (meets accepts))
  connect_loop-Connects hs n i (suc d) (suc tries) h c size some_host t at accepts left =
      let (h', at') =
        get_elem?-lt hs ((i + 1) % n) (let lt = mod-lt (i + 1) some_host in omega arith) in
      let (goes, meets) = attempt-Goes hs n i h' c t at' in
      let step = mod-add-mod (i + 1) n (suc d) in
      let same : i + suc (suc d) ≡ i + 1 + suc d = omega arith in
      let still : get_elem? hs (((i + 1) % n + suc d) % n) ≡ some h =
        ap (get_elem? hs) (step ∙ ap (λ x. x % n) (sym same)) ∙ at in
      after_attempt-Connects (connect_loop w cfg 0 tries) (suc tries) ((i + 1) % n) n hs
        (attempt w cfg c) goes
        (λ c' t'. inr (
          connect_loop-Connects hs n ((i + 1) % n) d tries h c' size some_host t' still accepts
            (omega arith)))

-- From any index, one of as many steps as there are hosts leads to each of them.
steps_to : (i j n : ℕ) → i < n → j < n → (d : ℕ) × (d < n) × ((i + suc d) % n ≡ j)
steps_to i j n hi hj = elim (Bool-cases (ltb i j)) [
  | inl before ↦
      let lt : i < j = ground arith in
      let sum : i + suc (j - i - 1) ≡ j = omega arith in
      (j - i - 1, omega arith, ap (λ x. x % n) sum ∙ mod-eq_of_lt hj)
  | inr behind ↦
      let le : j ≤ i = ground arith in
      let sum : i + suc (n + j - i - 1) ≡ n + j = omega arith in
      (n + j - i - 1, omega arith, ap (λ x. x % n) sum ∙ add-mod_left n j ∙ mod-eq_of_lt hj)
]

get_elem?-some : (hs : List Host) (j : ℕ) (h : Host) → get_elem? hs j ≡ some h → j < length hs
get_elem?-some [] j h e = absurd (cc)
get_elem?-some (x ∷ hs) zero h e = omega arith
get_elem?-some (x ∷ hs) (suc j) h e = let rest = get_elem?-some hs j h e in omega arith

module _ (w : World) (cfg : Settings) (c : Ctx) where
  cached_hosts : (hs : List Host) → c.bs.hosts ≡ some hs → load_hosts w c ≡ (some c.bs.nhosts, c)
  unfolding load_hosts
  cached_hosts hs cached = rw cached

  no_deadline : cfg.connect_budget_ms ≡ 0 → start_clock w cfg c ≡ (0, c)
  unfolding start_clock
  no_deadline h = ground arith

  -- No failure is recorded, or its window has passed.
  abbrev pub Settled : Type 0
  Settled =
      (c.bs.last_failed_connect ≡ 0)
      ⊎ (c.bs.last_failed_connect + backoff w.pid c.bs.consecutive_failures ≤ w.time c.trace)

  no_wait : Settled → (in_backoff w cfg c).0 ≡ false
  unfolding in_backoff
  no_wait h = ground arith

  -- The test may read the clock.
  checked : Ctx
  checked = (in_backoff w cfg c).1

  checked-bs : checked.bs ≡ c.bs
  unfolding checked in_backoff
  checked-bs = ground arith

  connected_already : present c.bs.conn ≡ true → present (get_bs w cfg c).bs.conn ≡ true
  unfolding get_bs
  connected_already live = ground arith

  reconnect-connect_loop :
      (hs : List Host)
      → c.bs.hosts ≡ some hs
      → 0 < c.bs.nhosts
      → cfg.connect_budget_ms ≡ 0
      → reconnect w cfg c ≡ connect_loop w cfg 0 c.bs.nhosts c
  unfolding reconnect
  reconnect-connect_loop hs cached some_host unbounded =
      let loaded = cached_hosts hs cached in
      let started = no_deadline unbounded in
      let any : ltb 0 c.bs.nhosts ≡ true = ground arith in rw (loaded, any, started)

  -- What `local_amqp_get_bs` does with these.
  get_bs-reconnect : Settled → present c.bs.conn ≡ false → get_bs w cfg c ≡ reconnect w cfg checked
  unfolding get_bs checked
  get_bs-reconnect settled closed = let waited = no_wait settled in rw (closed, waited)

-- With a cached list of hosts of which one accepts, with no failure recorded or the window of the last
-- one passed, without a budget for the whole and with memory for connections, `local_amqp_get_bs` ends with a connection, wherever
-- that host stands in the list and whatever the others do.
pub get_bs-Connects :
    (w : World) (cfg : Settings) (c : Ctx) (hs : List Host) (j : ℕ) (h : Host)
    → IsWf c.bs
    → c.bs.hosts ≡ some hs
    → get_elem? hs j ≡ some h
    → Accepts w cfg h
    → (c.bs.last_failed_connect ≡ 0)
      ⊎ (c.bs.last_failed_connect + backoff w.pid c.bs.consecutive_failures ≤ w.time c.trace)
    → cfg.connect_budget_ms ≡ 0
    → ((t : Trace) → present (w.new_connection t) ≡ true)
    → present (get_bs w cfg c).bs.conn ≡ true
get_bs-Connects w cfg c hs j h v cached at accepts settled unbounded memory =
    let (count, inside, ports) = subst (λ o. HostsFit o c.bs.nhosts c.bs.idx) cached v.cached in
    let lt = get_elem?-some hs j h at in
    let (d, few, there) = steps_to c.bs.idx j c.bs.nhosts inside (omega arith) in
    let c' = checked w cfg c in
    let same = checked-bs w cfg c in
    let cached' = ap (λ b. b.hosts) same ∙ cached in
    let count' = ap (λ b. b.nhosts) same in
    let t : Trying hs c.bs.nhosts c.bs.idx c' = record {
      hosts = cached';
      count = count';
      index = ap (λ b. b.idx) same;
    } in
    let connects =
      connect_loop-Connects w cfg memory hs c.bs.nhosts c.bs.idx d c.bs.nhosts h c' count
        (omega arith) t (ap (get_elem? hs) there ∙ at) accepts few in
    elim (Bool-cases (present c.bs.conn)) [
      | inl live ↦ connected_already w cfg c live
      | inr closed ↦
          subst⁻¹ (λ x. present x.bs.conn ≡ true)
            (get_bs-reconnect w cfg c settled closed
              ∙ reconnect-connect_loop w cfg c' hs cached' (omega arith) unbounded
              ∙ ap (λ n. connect_loop w cfg 0 n c') count')
            connects
    ]
