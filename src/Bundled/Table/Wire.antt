-- ===== src/Bundled/Table/Wire.antt =====
-- The bytes of a field table, described without the code: a table is its size in four bytes and its
-- entries, an entry its name, its kind and its value.
use pg_amqp.Base.{
  ℕ, ◌+◌, ◌-◌, ◌/◌, ◌%◌, ◌^◌, ◌<◌, ◌≡◌, refl, inr, Bool, true, false, ◌&&◌, [], ◌∷◌, ◌++◌, length,
  arith,
}
use mathlib.Core.Path.{subst}
use pg_amqp.Events.{Bytes}
use pg_amqp.Bundled.Buffer.{Memory, be32}
use pg_amqp.Bundled.Frame.{einval}
use pg_amqp.Bundled.Encoder.{Spot, Encoding, encoded, failed, then_encode, ◌and_then◌, emit}
use pg_amqp.Bundled.Encoder.Stored.{
  Stored, Holds, emit-Stored, Holds-append, Holds-agree, then_encode-Stored, two-Stored,
  no_bytes-Stored,
}
use pg_amqp.Bundled.Table.{
  Value, Table, bytes, i32, decimal, u64, table, unknown, no_entries, entry, kind, emit_size,
  encode_entries, encode_value, amqp_encode_table,
}

abbrev pub sized : Bytes → Bytes
sized bs = be32 (length bs) ++ bs

unfoldable mutual
  pub wire_entries : Table → Bytes
  wire_entries no_entries = []
  wire_entries (entry k v t) =
      ((length k % 256 ∷ k ++ kind v ∷ []) ++ wire_value v) ++ wire_entries t

  pub wire_value : Value → Bytes
  wire_value (bytes bs) = sized bs
  wire_value (i32 n) = be32 n
  wire_value (decimal d n) = d % 256 ∷ be32 n
  wire_value (u64 n) = be32 (n / 2 ^ 32) ++ be32 (n % 2 ^ 32)
  wire_value (table t) = sized (wire_entries t)
  wire_value (unknown _) = []

-- Every value is of one of the five kinds.
unfoldable mutual
  pub known_entries : Table → Bool
  known_entries no_entries = true
  known_entries (entry k v t) = known_value v && known_entries t

  pub known_value : Value → Bool
  known_value (table t) = known_entries t
  known_value (unknown _) = false
  known_value _ = true

abbrev pub wire : Table → Bytes
wire t = sized (wire_entries t)

failed-Stored :
    (len : ℕ) (k : Bool) (bs : Bytes) (e : ℕ) (m : Memory) (s : Spot)
    → Stored len (record { memory = s.memory; offset = s.offset + 4 }) k bs (failed e m)
    → Stored len s k (sized bs) (failed e m)
unfolding Stored
failed-Stored len k bs e m s ((lo, hi), why) = (((λ i q. lo i (omega arith)), hi), ground arith)

unknown-Stored : (len : ℕ) (s : Spot) → Stored len s false [] (failed einval s.memory)
unfolding Stored
unknown-Stored len s = (((λ i lo. refl), (λ i hi. refl)), inr (refl, refl))

three-Stored :
    (len : ℕ) (a b c : Bytes) (s : Spot)
    → Stored len s true (a ++ (b ++ c)) ((emit len a and_then emit len b and_then emit len c) s)
three-Stored len a b c s =
    then_encode-Stored len s true true a (b ++ c) (emit len a s) (emit len b and_then emit len c)
      (emit-Stored len a s) (λ t. two-Stored len b c t)

-- The size behind its table, by what the store of the size comes to.
size-Stored :
    (len : ℕ) (k : Bool) (bs : Bytes) (s t : Spot) (r : Encoding)
    → Stored len (record { memory = s.memory; offset = s.offset + 4 }) k bs (encoded t)
    → Stored len
        (record { memory = t.memory; offset = s.offset })
        true
        (be32 (t.offset - s.offset - 4))
        r
    → Stored len s k
        (sized bs)
        (then_encode r (λ u. encoded (record { memory = u.memory; offset = t.offset })))
unfolding Stored
size-Stored len k bs s t (failed e m) (ok, at, fits, h, (lo, hi), after) ((lo', hi'), why) = (
  (
    λ i q. (let x = lo i (omega arith) in let y = lo' i q in cc),
    λ i q. (let x = hi i q in let y = hi' i q in cc),
  ),
  ground arith,
)
size-Stored len k bs s t (encoded u) (ok, at, fits, h, (lo, hi), after)
      (here, at', fits', h', (lo', hi'), after') =
    let n : t.offset - s.offset - 4 ≡ length bs = omega arith in
    (
      ok,
      omega arith,
      ground arith,
      Holds-append u.memory s.offset (be32 (length bs)) bs
          (subst (λ j. Holds u.memory s.offset (be32 j)) n h')
          (Holds-agree t.memory u.memory (s.offset + 4) bs (λ i le lt. after' i (omega arith)) h),
      (
        λ i q. (let x = lo i (omega arith) in let y = lo' i q in cc),
        λ i q. (let x = hi i q in let y = hi' i q in cc),
      ),
      λ i q. (let x = after i q in let y = after' i (omega arith) in cc),
    )

-- A table around its entries.
around-Stored :
    (len : ℕ) (k : Bool) (bs : Bytes) (r : Encoding) (s : Spot)
    → Stored len (record { memory = s.memory; offset = s.offset + 4 }) k bs r
    → Stored len s k (sized bs) (then_encode r (emit_size len s.offset))
unfolding emit_size
around-Stored len k bs (failed e m) s h = failed-Stored len k bs e m s h
around-Stored len k bs (encoded t) s h = size-Stored len k bs s t _ h (
    emit-Stored len (be32 (t.offset - s.offset - 4))
      (record { memory = t.memory; offset = s.offset }))

mutual
  unfolding encode_entries wire_entries known_entries

  entries-Stored :
      (len : ℕ) (t : Table) (s : Spot)
      → Stored len s (known_entries t) (wire_entries t) (encode_entries len t s)
  entries-Stored len no_entries s = no_bytes-Stored len s
  entries-Stored len (entry k v t) s =
      then_encode-Stored len s (known_value v) (known_entries t) _ (wire_entries t) _
        (encode_entries len t)
        (then_encode-Stored len s true (known_value v) _ (wire_value v) _ (encode_value len v)
          (three-Stored len (length k % 256 ∷ []) k (kind v ∷ []) s) (λ u. value-Stored len v u))
        (λ u. entries-Stored len t u)

  value-Stored :
      (len : ℕ) (v : Value) (s : Spot)
      → Stored len s (known_value v) (wire_value v) (encode_value len v s)
  value-Stored len (bytes bs) s = two-Stored len (be32 (length bs)) bs s
  value-Stored len (i32 n) s = emit-Stored len (be32 n) s
  value-Stored len (decimal d n) s = two-Stored len (d % 256 ∷ []) (be32 n) s
  value-Stored len (u64 n) s = two-Stored len (be32 (n / 2 ^ 32)) (be32 (n % 2 ^ 32)) s
  value-Stored len (table t) s = around-Stored len _ _ _ s (entries-Stored len t _)
  value-Stored len (unknown k) s = unknown-Stored len s

pub amqp_encode_table-wire :
    (len : ℕ) (t : Table) (s : Spot)
    → Stored len s (known_entries t) (wire t) (amqp_encode_table len t s)
unfolding amqp_encode_table
amqp_encode_table-wire len t s = around-Stored len _ _ _ s (entries-Stored len t _)

-- Whatever the table, in a buffer of fewer than 2 ^ 31 bytes, so that no int that holds an offset wraps:
-- `amqp_encode_table` writes the table's bytes at the offset and moves the offset behind them where all
-- kinds are known and the buffer has room, and otherwise fails, with EINVAL only where a kind is unknown
-- and with EFAULT only where there is no room; it leaves the bytes before the offset and behind the
-- buffer's length as they are.
pub amqp_encode_table-Stored :
    (len : ℕ) (t : Table) (s : Spot)
    → len < 2 ^ 31
    → Stored len s (known_entries t) (wire t) (amqp_encode_table len t s)
amqp_encode_table-Stored len t s int_offset = amqp_encode_table-wire len t s
