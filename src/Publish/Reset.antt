-- ===== src/Publish/Reset.antt =====
-- `local_amqp_disconnect` and `pg_amqp_exchange_declare`: what they make of the broker's state, and
-- of the messages that were buffered.
use pg_amqp.Base.{ℕ, ◌≡◌, ◌⊎◌, refl, Bool, true, false, Option, none, some, arith}
use pg_amqp.Events.{Conn}
use pg_amqp.World.{World}
use pg_amqp.Broker.{Settings, Ctx, new_state}
use pg_amqp.Broker.Invariant.{IsWf}
use pg_amqp.Readings.{Quiet, faults}
use pg_amqp.Hosts.{free_hosts}
use pg_amqp.Connection.{disconnect_bs}
use pg_amqp.Connect.{get_bs}
use pg_amqp.Connect.Outcome.{get_bs-Reached}
use pg_amqp.Publish.{DeclareArgs, declare_on, declare_with, declare_exchange, disconnect}

-- amqp.disconnect leaves the state that a broker has before its first use, whatever came before.
pub disconnect-new_state : (c : Ctx) → IsWf c.bs → (disconnect c).bs ≡ new_state c.bs.broker_id
unfolding disconnect disconnect_bs free_hosts
disconnect-new_state c v = ground arith

pub disconnect-faults : (c : Ctx) → faults (disconnect c).trace ≡ faults c.trace
unfolding disconnect disconnect_bs free_hosts
disconnect-faults c = ground arith

-- How a declaration ends: the state is in order, and either the broker agreed and what was buffered
-- stays, or there is no connection and nothing is buffered any more. No loss is reported.
pub record Declared (id channel : ℕ) (b : Bool) (c c' : Ctx) : Type 0 where
  pub wf : IsWf c'.bs
  pub same_id : c'.bs.broker_id ≡ c.bs.broker_id
  pub same_inerror : c'.bs.inerror ≡ c.bs.inerror
  pub settles :
      ((b ≡ true) × (c'.bs.uncommitted ≡ c.bs.uncommitted))
      ⊎ ((b ≡ false) × (c'.bs.conn ≡ none) × (c'.bs.uncommitted ≡ 0))
  pub quiet : Quiet id channel c.trace c'.trace

module _ (id channel : ℕ) (w : World) (cfg : Settings) (a : DeclareArgs) where
  declare_on-Declared :
      (k : Conn) (c : Ctx)
      → c.bs.conn ≡ some k
      → IsWf c.bs
      → Declared id channel (declare_on w cfg a k c).0 c (declare_on w cfg a k c).1
  unfolding declare_on disconnect_bs
  declare_on-Declared k c e v = ground arith

  declare_with-Declared :
      (o : Option Conn) (c : Ctx)
      → c.bs.conn ≡ o
      → IsWf c.bs
      → Declared id channel (declare_with w cfg a o c).0 c (declare_with w cfg a o c).1
  unfolding declare_with
  declare_with-Declared none c e v = ground arith
  declare_with-Declared (some k) c e v = declare_on-Declared k c e v

  pub declare_exchange-Declared :
      (c : Ctx)
      → IsWf c.bs
      → Declared id channel (declare_exchange w cfg a c).0 c (declare_exchange w cfg a c).1
  unfolding declare_exchange
  declare_exchange-Declared c v =
      let got = get_bs w cfg c in
      ground (arith, get_bs-Reached id channel w cfg c, declare_with-Declared got.bs.conn got refl)
