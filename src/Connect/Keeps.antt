-- ===== src/Connect/Keeps.antt =====
-- What the handshake with one host leaves alone: all but the descriptor.
use pg_amqp.Base.{ℕ, ◌≡◌, arith}
use pg_amqp.Events.{Conn}
use pg_amqp.World.{World}
use pg_amqp.Broker.{Host, Settings, Ctx}
use pg_amqp.Connection.{set_timeout}
use pg_amqp.Connection.Keeps.{Keeps}
use pg_amqp.Connect.Handshake.{
  Step, ◌and_then◌, new_socket, dial, open_socket, tune, log_in, open_channel, select_tx, handshake,
}

module _ (id channel : ℕ) where
  abbrev StepKeeps : Step → Type 0
  StepKeeps f = (c : Ctx) → Keeps id channel c (f c).1 × ((f c).1.bs.blocked ≡ c.bs.blocked)

  and_then-StepKeeps : (f g : Step) → StepKeeps f → StepKeeps g → StepKeeps (f and_then g)
  and_then-StepKeeps f g p q c = ground (arith, p c, q (f c).1)

  module _ (w : World) (cfg : Settings) (k : Conn) (h : Host) where
    new_socket-Keeps : StepKeeps (new_socket w cfg k h)
    unfolding new_socket
    new_socket-Keeps c = ground arith

    dial-Keeps : StepKeeps (dial w cfg k h)
    unfolding dial
    dial-Keeps c = ground arith

    tune-Keeps : StepKeeps (tune w cfg k h)
    unfolding tune set_timeout
    tune-Keeps c = ground arith

    log_in-Keeps : StepKeeps (log_in w cfg k h)
    unfolding log_in
    log_in-Keeps c = ground arith

    open_channel-Keeps : (n : ℕ) → StepKeeps (open_channel w cfg k h n)
    unfolding open_channel
    open_channel-Keeps n c = ground arith

    select_tx-Keeps : StepKeeps (select_tx w cfg k h)
    unfolding select_tx
    select_tx-Keeps c = ground arith

    pub handshake-Keeps : StepKeeps (handshake w cfg k h)
    unfolding handshake open_socket
    handshake-Keeps =
        search
          (
            and_then-StepKeeps, new_socket-Keeps, dial-Keeps, tune-Keeps, log_in-Keeps,
            open_channel-Keeps, select_tx-Keeps,
          )
          depth 9
