-- ===== src/Connect/Round.antt =====
-- What one round of the failover loop of `local_amqp_get_bs` comes to.
use pg_amqp.Base.{ℕ, ◌≡◌, refl, true, Option, none, some, List, arith, get_elem?-lt, present}
use pg_amqp.Events.{new_connection, Conn}
use pg_amqp.World.{World}
use pg_amqp.Broker.{Host, Settings, Ctx, emit}
use pg_amqp.Readings.{Quiet}
use pg_amqp.Connection.{disconnect_bs}
use pg_amqp.Connection.Keeps.{set_timeout-Keeps}
use pg_amqp.Hosts.Cache.{HostsFit}
use pg_amqp.Broker.Invariant.{IsWf}
use pg_amqp.Connect.Keeps.{handshake-Keeps}
use pg_amqp.Connect.{
  handshake, give_up, connected, advance, host_at, Attempt, done, no_memory, invalid, host_failed,
  greet, try_with, try_current, try_host, attempt,
}

pub record Reached (id channel : ℕ) (c c' : Ctx) : Type 0 where
  pub wf : IsWf c'.bs
  pub same_id : c'.bs.broker_id ≡ c.bs.broker_id
  pub same_uncommitted : c'.bs.uncommitted ≡ c.bs.uncommitted
  pub same_inerror : c'.bs.inerror ≡ c.bs.inerror
  pub quiet : Quiet id channel c.trace c'.trace

-- With a cache that fits, the host that the index names is there.
host_at-present :
    (o : Option (List Host)) (n i : ℕ)
    → present o ≡ true
    → HostsFit o n i
    → present (host_at o i) ≡ true
unfolding host_at
host_at-present none n i p v = cc
host_at-present (some hs) n i p v = ground (arith, get_elem?-lt hs i)

-- What a round leaves, by what it came to: a connection and a clean record, or neither.
abbrev pub Outcome : Attempt → Ctx → Ctx → Type 0
Outcome done c c' =
    (present c'.bs.conn ≡ true) × (c'.bs.consecutive_failures ≡ 0) × (c'.bs.last_failed_connect ≡ 0)
Outcome no_memory c c' =
    (c'.bs.conn ≡ none) × (c'.bs.consecutive_failures ≡ c.bs.consecutive_failures)
Outcome (host_failed _) c c' =
    (c'.bs.conn ≡ none)
    × (c'.bs.consecutive_failures ≡ c.bs.consecutive_failures)
    × (c'.bs.hosts ≡ c.bs.hosts)
Outcome invalid c c' = ⊥

module _ (id channel : ℕ) where
  pub Reached-refl : (c : Ctx) → IsWf c.bs → Reached id channel c c
  Reached-refl c v = ground arith

  Reached-trans :
      (a b c : Ctx) → Reached id channel a b → Reached id channel b c → Reached id channel a c
  Reached-trans a b c p q = ground arith

  module _ (w : World) (cfg : Settings) where
    pub give_up-Reached : (c : Ctx) → IsWf c.bs → Reached id channel c (give_up w cfg c)
    unfolding give_up
    give_up-Reached c v = ground arith

    connected-Reached :
        (c : Ctx)
        → IsWf c.bs
        → present c.bs.conn ≡ true
        → Reached id channel c (connected w cfg c) × Outcome done c (connected w cfg c)
    unfolding connected
    connected-Reached c v live =
        ground (arith, set_timeout-Keeps id channel cfg.operation_timeout_ms c)

    greet-Reached :
        (k : Conn) (h : Host) (c : Ctx)
        → c.bs.conn ≡ some k
        → c.bs.uncommitted ≡ 0
        → IsWf c.bs
        → let (a, c') = greet w cfg k h c in Reached id channel c c' × Outcome a c c'
    unfolding greet disconnect_bs
    greet-Reached k h c live empty v =
        ground (
          arith,
          handshake-Keeps id channel w cfg k h c,
          connected-Reached (handshake w cfg k h c).1,
        )

    abbrev pub Tried : Attempt × Ctx → Ctx → Type 0
    Tried (a, c') c = Reached id channel c c' × Outcome a c c'

    try_with-Tried :
        (o : Option Conn) (h : Host) (c : Ctx)
        → c.bs.conn ≡ o
        → c.bs.uncommitted ≡ 0
        → IsWf c.bs
        → Tried (try_with w cfg o h c) c
    unfolding try_with
    try_with-Tried none h c e z v = ground (arith, Reached-refl c v)
    try_with-Tried (some k) h c e z v = greet-Reached k h c e z v

    try_host-Tried :
        (h : Host) (c : Ctx) → c.bs.conn ≡ none → IsWf c.bs → Tried (try_host w cfg h c) c
    unfolding try_host
    try_host-Tried h c e v =
        let k = w.new_connection c.trace in
        let made = emit (new_connection k) (record c { bs = record (c.bs) { conn = k } }) in
        ground (arith, try_with-Tried k h made refl)

    try_current-Tried :
        (o : Option Host) (c : Ctx)
        → present o ≡ true
        → c.bs.conn ≡ none
        → IsWf c.bs
        → Tried (try_current w cfg o c) c
    unfolding try_current
    try_current-Tried none c p e v = cc
    try_current-Tried (some h) c p e v = try_host-Tried h c e v

    pub attempt-Tried :
        (c : Ctx)
        → present c.bs.hosts ≡ true
        → c.bs.conn ≡ none
        → IsWf c.bs
        → Tried (attempt w cfg c) c
    unfolding attempt advance
    attempt-Tried c p e v =
        let next = advance w cfg c in
        ground (
          arith,
          host_at-present next.bs.hosts next.bs.nhosts next.bs.idx,
          try_current-Tried (host_at next.bs.hosts next.bs.idx) next,
        )
