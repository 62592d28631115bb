-- ===== src/Bundled/Reader.antt =====
-- src/librabbitmq/amqp_private.h, the macros D_8 to D_64 and D_BYTES as the decoders use them: each
-- tests the limit, reads, and is followed by the step of `offset`. A pointer into the buffer is the
-- bytes it stands for.
pub mod Ends
pub mod Bounds
pub mod Gives
use pg_amqp.Base.{ℕ, ◌+◌, ◌*◌, ◌^◌, ltb, if◌then◌else◌}
use pg_amqp.Events.{Bytes}
use pg_amqp.Bundled.Buffer.{Memory, get_bytes}
use pg_amqp.Bundled.Frame.{efault}
use pg_amqp.Bundled.Pool.{State}
use pg_amqp.Bundled.Input.{d16, d32}

-- `offset`, and the pool that decoded values come from with the heap.
pub record Cursor : Type 0 where
  pub offset : ℕ
  pub heap : State

-- What a decoder comes to: a value, `-e`, a write through the NULL of a failed allocation; `starved`,
-- without fuel, has no counterpart in the code.
pub data Reading (A : Type 0) : Type 0 where
  got : A → Cursor → Reading A
  stopped : ℕ → State → Reading A
  crashed starved : Reading A

abbrev pub Reader : Type 0 → Type 0
Reader A = Cursor → Reading A

module _ {A B : Type 0} where
  abbrev pub bind : Reading A → (A → Reader B) → Reading B
  bind (got a c) f = f a c
  bind (stopped e h) f = stopped e h
  bind crashed f = crashed
  bind starved f = starved

  infixl 1 ◌>>=◌
  abbrev pub ◌>>=◌ : Reader A → (A → Reader B) → Reader B
  (p >>= f) c = bind (p c) f

abbrev pub pure : {A : Type 0} → A → Reader A
pure a c = got a c

-- CHECK_LIMIT of `n` bytes, and `offset` behind them.
unfoldable pub checked : {A : Type 0} → ℕ → ℕ → (ℕ → A) → Reader A
checked len n read c =
    if ltb len (c.offset + n)
    then stopped efault c.heap
    else got (read c.offset) (record c { offset = c.offset + n })

module _ (m : Memory) (len : ℕ) where
  unfoldable pub d_8 : Reader ℕ
  unfolding checked
  d_8 = checked len 1 m

  unfoldable pub d_16 : Reader ℕ
  unfolding checked
  d_16 = checked len 2 (d16 m)

  unfoldable pub d_32 : Reader ℕ
  unfolding checked
  d_32 = checked len 4 (d32 m)

  unfoldable pub d_64 : Reader ℕ
  unfolding d_32
  d_64 = do hi ← d_32; lo ← d_32; pure (hi * 2 ^ 32 + lo)

  unfoldable pub d_bytes : ℕ → Reader Bytes
  unfolding checked
  d_bytes n = checked len n (λ o. get_bytes m o n)

-- `amqp_bytes_t encoded`, by what the macros read from it.
pub record AmqpBytes : Type 0 where
  pub len : ℕ
  pub d_8 : Reader ℕ
  pub d_16 : Reader ℕ
  pub d_32 : Reader ℕ
  pub d_64 : Reader ℕ
  pub d_bytes : ℕ → Reader Bytes

abbrev pub amqp_bytes : Memory → ℕ → AmqpBytes
amqp_bytes m len = record {
  len = len;
  d_8 = d_8 m len;
  d_16 = d_16 m len;
  d_32 = d_32 m len;
  d_64 = d_64 m len;
  d_bytes = d_bytes m len;
}
