-- ===== src/Bundled/Table/Decode.antt =====
-- src/librabbitmq/amqp_table.c, `amqp_decode_table`. The array `entries` is malloc'ed with room for 16
-- entries and doubled by realloc; `grow` and `free_list` are the calls on it.
use pg_amqp.Base.{
  ℕ, zero, suc, ◌+◌, ◌*◌, ◌%◌, ◌^◌, Option, none, some, ltb, leb, ◌==◌, if◌then◌else◌, ◌∷◌,
}
use pg_amqp.Bundled.Frame.{einval}
use pg_amqp.Bundled.Pool
use pg_amqp.Bundled.Pool.{State, Region, grow, out_of_memory, free_list, set_pool, amqp_pool_alloc}
use pg_amqp.Bundled.Reader.{
  Cursor, Reading, Reader, got, stopped, crashed, starved, ◌>>=◌, pure, AmqpBytes,
}
use pg_amqp.Bundled.Table.{Value, Table, bytes, i32, decimal, u64, table, no_entries, entry}

-- ENOMEM, INITIAL_TABLE_SIZE and sizeof(amqp_table_entry_t)
abbrev pub enomem : ℕ
enomem = 12

abbrev pub initial_table_size : ℕ
initial_table_size = 16

abbrev pub entry_size : ℕ
entry_size = 40

-- `offset < limit` where `limit = offset + tablesize` is an `int`, negative from 2 ^ 31 on.
abbrev pub limit_after : ℕ → ℕ → ℕ
limit_after offset size = let sum = (offset + size) % 2 ^ 32 in if leb (2 ^ 31) sum then 0 else sum

-- `malloc` of the array.
unfoldable pub first_entries : Pool.Memory → Reader (Unit {0})
first_entries mem c =
    let calls = c.heap.calls in
    if mem calls (initial_table_size * entry_size)
    then got tt (record c { heap = set_pool c.heap.pool (grow ∷ calls) })
    else stopped enomem (set_pool c.heap.pool (out_of_memory ∷ calls))

-- `num_entries >= allocated_entries`: what is allocated then.
unfoldable pub more_entries : Pool.Memory → ℕ → ℕ → Reader ℕ
more_entries mem n allocated c =
    let calls = c.heap.calls in
    if ltb n allocated
    then got allocated c
    else (if mem calls (allocated * 2 * entry_size)
        then got (allocated * 2) (record c { heap = set_pool c.heap.pool (grow ∷ calls) })
        else stopped enomem (set_pool c.heap.pool (free_list ∷ out_of_memory ∷ calls)))

-- `output->entries`; `memcpy` to NULL is harmless only for no bytes.
unfoldable pub copied : ℕ → Option Region × State → Cursor → Reading Table
copied n (none, h) c = if n == 0 then got no_entries (record c { heap = h }) else crashed
copied n (some r, h) c = got no_entries (record c { heap = h })

unfoldable pub copy_entries : Pool.Memory → ℕ → Reader Table
unfolding copied
copy_entries mem n c = copied n (amqp_pool_alloc mem (n * entry_size) c.heap) c

module _ (mem : Pool.Memory) (encoded : AmqpBytes) where
  -- The `switch` on the kind, with what decodes a table.
  unfoldable pub decode_value : Reader Table → ℕ → Reader Value
  decode_value nested k =
      if k == 83
      then (do n ← encoded.d_32; bs ← encoded.d_bytes n; pure (bytes bs))
      else (if k == 73
          then (do n ← encoded.d_32; pure (i32 n))
          else (if k == 68
              then (do d ← encoded.d_8; n ← encoded.d_32; pure (decimal d n))
              else (if k == 84
                  then (do n ← encoded.d_64; pure (u64 n))
                  else (if k == 70
                      then (do t ← nested; pure (table t))
                      else (λ c. stopped einval c.heap)))))

  -- The function before its loop.
  unfoldable pub open_table : (ℕ → Reader Table) → Reader Table
  unfolding first_entries
  open_table loop = do
    size ← encoded.d_32
    _ ← first_entries mem
    (λ c. loop (limit_after c.offset size) c)

  -- One round of the loop: the entry, then the next rounds.
  unfoldable pub decode_entry : Reader Table → (ℕ → ℕ → Reader Table) → ℕ → ℕ → Reader Table
  unfolding decode_value more_entries
  decode_entry nested next n allocated = do
    keylen ← encoded.d_8
    room ← more_entries mem n allocated
    key ← encoded.d_bytes keylen
    k ← encoded.d_8
    v ← decode_value nested k
    rest ← next (n + 1) room
    pure (entry key v rest)

  -- The loop, with fuel for its rounds and for the tables inside.
  unfoldable pub decode_entries : ℕ → ℕ → ℕ → ℕ → Reader Table
  unfolding open_table decode_entry copy_entries
  decode_entries zero limit n allocated c = starved
  decode_entries (suc f) limit n allocated c =
      let round =
        decode_entry (open_table (λ l. decode_entries f l 0 initial_table_size))
          (decode_entries f limit) n allocated c in
      if ltb c.offset limit then round else copy_entries mem n c

  unfoldable pub amqp_decode_table : Reader Table
  unfolding decode_entries
  amqp_decode_table = open_table (λ l. decode_entries (encoded.len + 1) l 0 initial_table_size)
