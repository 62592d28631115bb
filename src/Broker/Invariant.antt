-- ===== src/Broker/Invariant.antt =====
-- What holds of every `struct brokerstate` between calls.
use pg_amqp.Base.{ℕ, ◌≡◌, Bool, false, Option, none, some}
use pg_amqp.Events.{Conn}
use pg_amqp.Broker.{BrokerState}
use pg_amqp.Hosts.Cache.{IsCached}

-- Without a connection nothing is buffered, there is no socket and nothing is blocked.
abbrev pub ClosedFit : Option Conn → ℕ → Option ℕ → Bool → Type 0
ClosedFit none uncommitted sockfd blocked = (uncommitted ≡ 0) × (sockfd ≡ none) × (blocked ≡ false)
ClosedFit (some _) uncommitted sockfd blocked = Unit

pub record IsWf (bs : BrokerState) : Type 0 where
  pub closed : ClosedFit bs.conn bs.uncommitted bs.sockfd bs.blocked
  pub cached : IsCached bs
