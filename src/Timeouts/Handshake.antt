-- ===== src/Timeouts/Handshake.antt =====
-- One host's handshake sets `handshake_timeout_ms` before the login, the two channels and tx.select.
use pg_amqp.Base.{ℕ, ◌≡◌, Option, none, some, arith}
use pg_amqp.Events.{Conn, get_sockfd}
use pg_amqp.World.{World}
use pg_amqp.Broker.{Host, Settings, Ctx, emit}
use pg_amqp.Connection.{time_val}
use pg_amqp.Connect.{
  Step, ◌and_then◌, set_keepalive, new_socket, dial, open_socket, tune, log_in, open_channel,
  select_tx, handshake,
}
use pg_amqp.Timeouts.{last_set, AllTimed}
use pg_amqp.Timeouts.Calls.{set_timeout-last_set, set_timeout-AllTimed}

module _ (cfg : Settings) where
  module _ (w : World) (k : Conn) (h : Host) where
    -- Before the timeout of the handshake is set.
    abbrev pub Opening : Ctx → Type 0
    Opening c = (c.bs.conn ≡ some k) × AllTimed cfg c.trace

    -- Under it.
    abbrev Greeting : Ctx → Type 0
    Greeting c =
        AllTimed cfg c.trace × (last_set k c.trace ≡ some (time_val cfg.handshake_timeout_ms))

    new_socket-Opening : (c : Ctx) → Opening c → Opening (new_socket w cfg k h c).1
    unfolding new_socket
    new_socket-Opening c o = ground arith

    dial-Opening : (c : Ctx) → Opening c → Opening (dial w cfg k h c).1
    unfolding dial
    dial-Opening c o = ground arith

    set_keepalive-Opening : (fd : Option ℕ) (c : Ctx) → Opening c → Opening (set_keepalive fd c)
    unfolding set_keepalive
    set_keepalive-Opening none c o = o
    set_keepalive-Opening (some n) c o = ground arith

    tune-Greeting : (c : Ctx) → Opening c → Greeting (tune w cfg k h c).1
    unfolding tune
    tune-Greeting c o =
        let fd = w.get_sockfd k c.trace in
        let asked = emit (get_sockfd k fd) (record c { bs = record (c.bs) { sockfd = fd } }) in
        let kept = set_keepalive fd asked in
        ground (
          arith,
          set_keepalive-Opening fd asked,
          set_timeout-last_set cfg cfg.handshake_timeout_ms k kept,
          set_timeout-AllTimed cfg cfg.handshake_timeout_ms kept,
        )

    log_in-Greeting : (c : Ctx) → Greeting c → Greeting (log_in w cfg k h c).1
    unfolding log_in
    log_in-Greeting c g = ground arith

    open_channel-Greeting : (n : ℕ) (c : Ctx) → Greeting c → Greeting (open_channel w cfg k h n c).1
    unfolding open_channel
    open_channel-Greeting n c g = ground arith

    select_tx-Greeting : (c : Ctx) → Greeting c → Greeting (select_tx w cfg k h c).1
    unfolding select_tx
    select_tx-Greeting c g = ground arith

    abbrev pub Goes : (Ctx → Type 0) → (Ctx → Type 0) → Step → Type 0
    Goes P Q f = (c : Ctx) → P c → Q (f c).1

    and_then-Goes :
        (f g : Step)
        → Goes Greeting Greeting f
        → Goes Greeting Greeting g
        → Goes Greeting Greeting (f and_then g)
    and_then-Goes f g p q c h = ground (arith, p c, q (f c).1)

    abbrev pub Timed : Ctx → Type 0
    Timed c = AllTimed cfg c.trace

    Opening-Goes :
        (f g : Step)
        → Goes Opening Opening f
        → Goes Opening Timed g
        → Goes Opening Timed (f and_then g)
    Opening-Goes f g p q c h = ground (arith, p c, q (f c).1)

    tuned-Goes :
        (f g : Step)
        → Goes Opening Greeting f
        → Goes Greeting Greeting g
        → Goes Opening Timed (f and_then g)
    tuned-Goes f g p q c h = ground (arith, p c, q (f c).1)

    open_socket-Opening : Goes Opening Opening (open_socket w cfg k h)
    unfolding open_socket
    open_socket-Opening c o =
        ground (arith, new_socket-Opening c o, dial-Opening (new_socket w cfg k h c).1)

    pub handshake-Timed : Goes Opening Timed (handshake w cfg k h)
    unfolding handshake
    handshake-Timed =
        let f = log_in w cfg k h in
        let g = open_channel w cfg k h 1 in
        let i = open_channel w cfg k h 2 in
        let j = select_tx w cfg k h in
        Opening-Goes (open_socket w cfg k h)
          (tune w cfg k h and_then f and_then g and_then i and_then j) open_socket-Opening
          (tuned-Goes (tune w cfg k h) (f and_then g and_then i and_then j) tune-Greeting (
            and_then-Goes f (g and_then i and_then j) log_in-Greeting (
              and_then-Goes g (i and_then j) (open_channel-Greeting 1)
                (and_then-Goes i j (open_channel-Greeting 2) select_tx-Greeting))))
