-- ===== src/Readings.antt =====
-- What can be read off the log of src/pg_amqp.c's calls: how often something happened, and which
-- timeout a connection is under.
use pg_amqp.Base.{ℕ, ◌+◌, ◌≡◌, [], ◌∷◌, ◌==◌, if◌then◌else◌, arith}
use pg_amqp.Events.{
  Event, Trace, Status, fault, warn, discarding, commit_failed, basic_publish, tx_commit,
  tx_rollback,
}

abbrev pub tally : (Event → ℕ) → Trace → ℕ
tally f [] = 0
tally f (e ∷ t) = f e + tally f t

abbrev weigh_fault : Event → ℕ
weigh_fault fault = 1
weigh_fault _ = 0

-- The accesses to memory that C leaves undefined.
abbrev pub faults : Trace → ℕ
faults = tally weigh_fault

abbrev weigh_lost : ℕ → Event → ℕ
weigh_lost id (warn (discarding j n)) = if j == id then n else 0
weigh_lost id (warn (commit_failed j n _)) = if j == id then n else 0
weigh_lost id _ = 0

-- The messages of a broker whose loss a WARNING reports.
abbrev pub lost : ℕ → Trace → ℕ
lost id = tally (weigh_lost id)

abbrev weigh_sent : ℕ → Event → ℕ
weigh_sent channel (basic_publish _ n _ s) =
    if n == channel then (elim s [ Status.ok ↦ 1 | _ ↦ 0 ]) else 0
weigh_sent channel _ = 0

-- The messages that the library took on a channel.
abbrev pub sent : ℕ → Trace → ℕ
sent channel = tally (weigh_sent channel)

abbrev weigh_attempt : Event → ℕ
weigh_attempt (basic_publish _ _ _ _) = 1
weigh_attempt _ = 0

-- The calls of `amqp_basic_publish`.
abbrev pub attempts : Trace → ℕ
attempts = tally weigh_attempt

abbrev weigh_commit : Event → ℕ
weigh_commit (tx_commit _ _) = 1
weigh_commit _ = 0

-- The calls of `amqp_tx_commit`.
abbrev pub commits : Trace → ℕ
commits = tally weigh_commit

abbrev weigh_rollback : Event → ℕ
weigh_rollback (tx_rollback _ _) = 1
weigh_rollback _ = 0

-- The calls of `amqp_tx_rollback`.
abbrev pub rollbacks : Trace → ℕ
rollbacks = tally weigh_rollback

-- The first five counts, for one broker and channel, are the same in both logs.
pub record Quiet (id channel : ℕ) (t t' : Trace) : Type 0 where
  pub same_faults : faults t' ≡ faults t
  pub same_lost : lost id t' ≡ lost id t
  pub same_sent : sent channel t' ≡ sent channel t
  pub same_attempts : attempts t' ≡ attempts t
  pub same_commits : commits t' ≡ commits t

pub Quiet-refl : (id channel : ℕ) (t : Trace) → Quiet id channel t t
Quiet-refl id channel t = omega arith

pub Quiet-trans :
    (id channel : ℕ) (t u v : Trace)
    → Quiet id channel t u
    → Quiet id channel u v
    → Quiet id channel t v
Quiet-trans id channel t u v p q = omega arith
