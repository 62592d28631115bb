-- ===== src/Bundled/Methods/Ends.antt =====
-- `amqp_decode_method` on whatever bytes arrive.
use pg_amqp.Base.{
  ℕ, ◌^◌, ◌≤◌, ◌<◌, ◌≡◌, ◌≢◌, inl, inr, refl, ap, false, present, Option, none, some, List, arith,
}
use pg_amqp.Bundled.Buffer.{Memory}
use pg_amqp.Bundled.Pool
use pg_amqp.Bundled.Pool.{State, Region, amqp_pool_alloc}
use pg_amqp.Bundled.Pool.Filled.{RunsOut, Filled, amqp_pool_alloc-Filled}
use pg_amqp.Bundled.Reader.{Cursor, amqp_bytes}
use pg_amqp.Bundled.Reader.Bounds.{amqp_bytes-agree}
use pg_amqp.Bundled.Reader.Ends.{Ensures, Passes, Ensures-bind, Ensures-weaken}
use pg_amqp.Bundled.Fields.{Item, case_of, decode_fields}
use pg_amqp.Bundled.Fields.Ends.{Allocated, decode_fields-Within}
use pg_amqp.Bundled.Methods.{decode_layouts, alloc_struct, decode_case, amqp_decode_method}

module _ (mem : Pool.Memory) (sizeof : ℕ → ℕ) (m : Memory) (len : ℕ) where
  -- NULL only where an allocation failed.
  none-RunsOut :
      (size : ℕ)
      → size ≢ 0
      → (r : Option Region × State) → Filled mem size r
      → present r.0 ≡ false
      → RunsOut mem
  none-RunsOut size sized (none, h) (inl z) e = absurd (sized z)
  none-RunsOut size sized (none, h) (inr out) e = out
  none-RunsOut size sized (some r, h) f e = cc

  pub alloc_struct-Allocated :
      (size : ℕ) (c : Cursor)
      → size ≢ 0
      → Ensures mem
          (λ there d. (d.offset ≡ c.offset) × Allocated mem m len there)
          (alloc_struct mem sizeof (amqp_bytes m len) size c)
  unfolding alloc_struct Ensures
  alloc_struct-Allocated size c sized =
      (refl, none-RunsOut size sized _ (amqp_pool_alloc-Filled mem size c.heap))

  decode_case-Ends :
      (n : ℕ) (o : Option (List Item)) (c : Cursor)
      → sizeof n ≢ 0
      → c.offset ≤ len
      → Ensures mem (Passes len c.offset 0) (decode_case mem sizeof (amqp_bytes m len) n o c)
  unfolding decode_case Ensures
  decode_case-Ends n none c sized room = tt
  decode_case-Ends n (some is) c sized room =
      Ensures-bind mem (λ there d. (d.offset ≡ c.offset) × Allocated mem m len there)
        (Passes len c.offset 0) (alloc_struct mem sizeof (amqp_bytes m len) (sizeof n) c)
        (λ there. decode_fields mem (amqp_bytes m len) there is)
        (alloc_struct-Allocated (sizeof n) c sized)
        λ there d p.
          Ensures-weaken mem (Passes len d.offset 0) (Passes len c.offset 0) _
            (decode_fields-Within mem m len there is d p.1 (omega arith))
            λ a e q. (omega arith, q.1)

  -- Whatever the number and the bytes, where there are fewer than 2 ^ 31, so that no int that holds an
  -- offset wraps: the fuel of `amqp_decode_method` lasts; where it decodes a struct, it has read within
  -- the buffer; and it writes through NULL only if an allocation fails.
  pub amqp_decode_method-Ends :
      (n : ℕ) (h : State)
      → sizeof n ≢ 0
      → len < 2 ^ 31
      → Ensures mem (Passes len 0 0) (amqp_decode_method mem sizeof (amqp_bytes m len) n h)
  unfolding amqp_decode_method
  amqp_decode_method-Ends n h sized int_offset =
      decode_case-Ends n (case_of n decode_layouts) (record { offset = 0; heap = h }) sized
        (omega arith)

-- `amqp_decode_method` reads no byte from the buffer's length on, not in a table either: with two
-- memories that agree before it, it comes to the same.
pub amqp_decode_method-agree :
    (mem : Pool.Memory) (sizeof : ℕ → ℕ) (m m' : Memory) (len n : ℕ) (h : State)
    → ((i : ℕ) → i < len → m i ≡ m' i)
    → amqp_decode_method mem sizeof (amqp_bytes m len) n h
      ≡ amqp_decode_method mem sizeof (amqp_bytes m' len) n h
amqp_decode_method-agree mem sizeof m m' len n h same =
    ap (λ b. amqp_decode_method mem sizeof b n h) (amqp_bytes-agree m m' len same)
