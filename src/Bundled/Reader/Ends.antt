-- ===== src/Bundled/Reader/Ends.antt =====
-- What a decoder ensures of its value and of the offset behind it.
use pg_amqp.Bundled.Pool.Filled.{RunsOut}
use pg_amqp.Base.{ℕ, ◌+◌, ◌≤◌, ltb, arith, chosen_by}
use pg_amqp.Bundled.Buffer.{Memory, get_bytes}
use pg_amqp.Bundled.Input.{d16, d32}
use pg_amqp.Bundled.Frame.{efault}
use pg_amqp.Bundled.Pool
use pg_amqp.Bundled.Reader.{
  Cursor, Reading, Reader, got, stopped, crashed, starved, bind, checked, d_8, d_16, d_32, d_64,
  d_bytes,
}

module _ {A : Type 0} (mem : Pool.Memory) where
  -- A value and an offset of which `P` holds, or an error; the code crashes only where an allocation
  -- fails, and the fuel lasts.
  unfoldable pub Ensures : (A → Cursor → Type 0) → Reading A → Type 0
  Ensures P (got a c) = P a c
  Ensures P (stopped e h) = Unit
  Ensures P crashed = RunsOut mem
  Ensures P starved = ⊥

-- From `o` on, at least `n` bytes within the buffer.
abbrev pub Passes : {A : Type 0} → ℕ → ℕ → ℕ → A → Cursor → Type 0
Passes len o n a c = (o + n ≤ c.offset) × (c.offset ≤ len)

pub Ensures-bind :
    {A B : Type 0} (mem : Pool.Memory) (P : A → Cursor → Type 0) (Q : B → Cursor → Type 0)
    (r : Reading A) (f : A → Reader B)
    → Ensures mem P r
    → ((a : A) (c : Cursor) → P a c → Ensures mem Q (f a c))
    → Ensures mem Q (bind r f)
unfolding Ensures
Ensures-bind mem P Q (got a c) f h k = k a c h
Ensures-bind mem P Q (stopped e s) f h k = tt
Ensures-bind mem P Q crashed f h k = h
Ensures-bind mem P Q starved f h k = h

pub Ensures-weaken :
    {A : Type 0} (mem : Pool.Memory) (P Q : A → Cursor → Type 0) (r : Reading A)
    → Ensures mem P r
    → ((a : A) (c : Cursor) → P a c → Q a c)
    → Ensures mem Q r
unfolding Ensures
Ensures-weaken mem P Q (got a c) h k = k a c h
Ensures-weaken mem P Q (stopped e s) h k = tt
Ensures-weaken mem P Q crashed h k = h
Ensures-weaken mem P Q starved h k = h

module _ (mem : Pool.Memory) (m : Memory) (len : ℕ) where
  pub checked-Passes :
      {A : Type 0} (n : ℕ) (read : ℕ → A) (c : Cursor)
      → Ensures mem (Passes len c.offset n) (checked len n read c)
  unfolding checked Ensures
  checked-Passes {A} n read c =
      chosen_by (Ensures mem (Passes len c.offset n)) (ltb len (c.offset + n))
        (stopped efault c.heap) (got (read c.offset) (record c { offset = c.offset + n })) (λ h. tt)
        (λ h. (omega arith, ground arith))

  pub d_8-Passes : (c : Cursor) → Ensures mem (Passes len c.offset 1) (d_8 m len c)
  unfolding d_8
  d_8-Passes c = checked-Passes 1 m c

  pub d_16-Passes : (c : Cursor) → Ensures mem (Passes len c.offset 2) (d_16 m len c)
  unfolding d_16
  d_16-Passes c = checked-Passes 2 (d16 m) c

  pub d_32-Passes : (c : Cursor) → Ensures mem (Passes len c.offset 4) (d_32 m len c)
  unfolding d_32
  d_32-Passes c = checked-Passes 4 (d32 m) c

  pub d_64-Passes : (c : Cursor) → Ensures mem (Passes len c.offset 8) (d_64 m len c)
  unfolding d_64 Ensures
  d_64-Passes c =
      Ensures-bind mem (Passes len c.offset 4) (Passes len c.offset 8) (d_32 m len c) _
        (d_32-Passes c)
        λ hi c1 h1.
          Ensures-bind mem (Passes len c1.offset 4) (Passes len c.offset 8) (d_32 m len c1) _
            (d_32-Passes c1) λ lo c2 h2. (omega arith, h2.1)

  pub d_bytes-Passes :
      (n : ℕ) (c : Cursor) → Ensures mem (Passes len c.offset n) (d_bytes m len n c)
  unfolding d_bytes
  d_bytes-Passes n c = checked-Passes n (λ o. get_bytes m o n) c
