-- ===== src/Xact/Prepare.antt =====
-- PREPARE TRANSACTION: when `amqp_local_phase2` refuses it, and what the ERROR names.
use pg_amqp.Base.{ℕ, ◌<◌, ◌≡◌, ◌⊎◌, Option, none, some, List, [], ◌∷◌, arith, All}
use pg_amqp.Broker.{BrokerState}
use pg_amqp.Xact.{refuse_prepare}

-- The first broker of the list with buffered messages: none before it has any.
abbrev pub FirstBuffered : List BrokerState → ℕ → ℕ → Type 0
FirstBuffered [] n id = ⊥
FirstBuffered (b ∷ bs) n id =
    ((0 < b.uncommitted) × (b.uncommitted ≡ n) × (b.broker_id ≡ id))
    ⊎ ((b.uncommitted ≡ 0) × FirstBuffered bs n id)

-- What the loop found, against the list.
abbrev pub Refusal : List BrokerState → Option (ℕ × ℕ) → Type 0
Refusal bs none = All (λ b. b.uncommitted ≡ 0) bs
Refusal bs (some (n, id)) = FirstBuffered bs n id

-- PREPARE TRANSACTION goes on just where no broker has a buffered message; otherwise the ERROR names
-- the first broker that has one, and how many it has.
pub refuse_prepare-Refusal : (bs : List BrokerState) → Refusal bs (refuse_prepare bs)
unfolding refuse_prepare
refuse_prepare-Refusal [] = tt
refuse_prepare-Refusal (b ∷ bs) = ground (arith, refuse_prepare-Refusal bs)
