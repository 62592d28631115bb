-- ===== src/Bundled/Table/Ends.antt =====
-- `amqp_decode_table` ends: each entry moves the offset, and the offset stays within the buffer.
use pg_amqp.Bundled.Pool.Filled.{Filled, amqp_pool_alloc-Filled}
use pg_amqp.Base.{
  ℕ, zero, suc, ◌+◌, ◌*◌, ◌^◌, ◌≤◌, ◌<◌, ◌≡◌, inl, inr, refl, Option, none, some, ltb, ◌==◌, arith,
  chosen_by, chosen,
}
use pg_amqp.Bundled.Buffer.{Memory}
use pg_amqp.Bundled.Pool
use pg_amqp.Bundled.Pool.{
  State, Region, grow, out_of_memory, free_list, set_pool, rounded, alloc_page, alloc_new_page,
  alloc_small, alloc_large, amqp_pool_alloc,
}
use pg_amqp.Bundled.Reader.{Cursor, Reader, amqp_bytes, d_8, d_32, d_64, d_bytes}
use pg_amqp.Bundled.Reader.Ends.{
  Ensures, Passes, Ensures-bind, d_8-Passes, d_32-Passes, d_64-Passes, d_bytes-Passes,
  Ensures-weaken,
}
use pg_amqp.Bundled.Table.{Value, Table}
use pg_amqp.Bundled.Table.Decode.{
  first_entries, more_entries, copied, copy_entries, decode_value, open_table, decode_entry,
  decode_entries, amqp_decode_table, initial_table_size, entry_size, limit_after,
}

module _ (mem : Pool.Memory) (m : Memory) (len : ℕ) where
  -- The offset stays.
  abbrev Stays : {A : Type 0} → Cursor → A → Cursor → Type 0
  Stays c a c' = c'.offset ≡ c.offset

  first_entries-Stays : (c : Cursor) → Ensures mem (Stays c) (first_entries mem c)
  unfolding first_entries Ensures
  first_entries-Stays c =
      chosen (Ensures mem (Stays c)) (mem c.heap.calls (initial_table_size * entry_size)) _ _ refl
        tt

  more_entries-Stays :
      (n allocated : ℕ) (c : Cursor) → Ensures mem (Stays c) (more_entries mem n allocated c)
  unfolding more_entries Ensures
  more_entries-Stays n allocated c =
      chosen (Ensures mem (Stays c)) (ltb n allocated) _ _ refl
        (chosen (Ensures mem (Stays c)) (mem c.heap.calls (allocated * 2 * entry_size)) _ _ refl tt)

  copied-Stays :
      (n : ℕ) (c : Cursor) (r : Option Region × State)
      → Filled mem (n * entry_size) r
      → Ensures mem (Stays c) (copied n r c)
  unfolding copied Ensures
  copied-Stays n c (some r, h) f = refl
  copied-Stays n c (none, h) (inr out) = chosen (Ensures mem (Stays c)) (n == 0) _ _ refl out
  copied-Stays n c (none, h) (inl z) =
      chosen_by (Ensures mem (Stays c)) (n == 0) _ _ (λ _. refl) (λ nz. absurd (ground arith))

  copy_entries-Stays : (n : ℕ) (c : Cursor) → Ensures mem (Stays c) (copy_entries mem n c)
  unfolding copy_entries
  copy_entries-Stays n c = copied-Stays n c _ (amqp_pool_alloc-Filled mem (n * entry_size) c.heap)

  abbrev Within : Cursor → {A : Type 0} → A → Cursor → Type 0
  Within c = Passes len c.offset 0

  module _ (nested : Reader Table) (c : Cursor) where
    decode_value-Within :
        (k : ℕ)
        → Ensures mem (Within c) (nested c)
        → Ensures mem (Within c) (decode_value mem (amqp_bytes m len) nested k c)
    unfolding decode_value Ensures
    decode_value-Within k h =
        let P : Reader Value → Type 0 = λ r. Ensures mem (Within c) (r c) in
        chosen P (k == 83) _ _
          (Ensures-bind mem (Passes len c.offset 4) (Within c) (d_32 m len c) _
            (d_32-Passes mem m len c)
            λ n c1 h1.
              Ensures-bind mem (Passes len c1.offset n) (Within c) (d_bytes m len n c1) _
                (d_bytes-Passes mem m len n c1) λ bs c2 h2. (omega arith, h2.1))
          (chosen P (k == 73) _ _
            (Ensures-bind mem (Passes len c.offset 4) (Within c) (d_32 m len c) _
              (d_32-Passes mem m len c) λ n c1 h1. (omega arith, h1.1))
            (chosen P (k == 68) _ _
              (Ensures-bind mem (Passes len c.offset 1) (Within c) (d_8 m len c) _
                (d_8-Passes mem m len c)
                λ d c1 h1.
                  Ensures-bind mem (Passes len c1.offset 4) (Within c) (d_32 m len c1) _
                    (d_32-Passes mem m len c1) λ n c2 h2. (omega arith, h2.1))
              (chosen P (k == 84) _ _
                (Ensures-bind mem (Passes len c.offset 8) (Within c) (d_64 m len c) _
                  (d_64-Passes mem m len c) λ n c1 h1. (omega arith, h1.1))
                (chosen P (k == 70) _ _
                  (Ensures-bind mem (Within c) (Within c) (nested c) _ h λ t c1 h1. h1) tt))))

  -- One round of the loop.
  decode_entry-Within :
      (nested : Reader Table) (c : Cursor) (next : ℕ → ℕ → Reader Table) (n allocated : ℕ)
      → ((d : Cursor)
          → c.offset + 2 ≤ d.offset
          → d.offset ≤ len
          → Ensures mem (Within d) (nested d))
      → ((d : Cursor) (k l : ℕ)
          → c.offset + 2 ≤ d.offset
          → d.offset ≤ len
          → Ensures mem (Within d) (next k l d))
      → Ensures mem (Within c) (decode_entry mem (amqp_bytes m len) nested next n allocated c)
  unfolding decode_entry Ensures
  decode_entry-Within nested c next n allocated inner more =
      Ensures-bind mem (Passes len c.offset 1) (Within c) (d_8 m len c) _ (d_8-Passes mem m len c)
        λ keylen c1 h1.
          Ensures-bind mem (Stays c1) (Within c) (more_entries mem n allocated c1) _
            (more_entries-Stays n allocated c1)
            λ room c2 h2.
              Ensures-bind mem (Passes len c2.offset keylen) (Within c) (d_bytes m len keylen c2) _
                (d_bytes-Passes mem m len keylen c2)
                λ key c3 h3.
                  Ensures-bind mem (Passes len c3.offset 1) (Within c) (d_8 m len c3) _
                    (d_8-Passes mem m len c3)
                    λ k c4 h4.
                      Ensures-bind mem (Within c4) (Within c) _ _
                        (decode_value-Within nested c4 k (inner c4 (omega arith) h4.1))
                        λ v c5 h5.
                          Ensures-bind mem (Within c5) (Within c) (next (n + 1) room c5) _
                            (more c5 (n + 1) room (omega arith) h5.1)
                            λ rest c6 h6. (omega arith, h6.1)

  open_table-Within :
      (loop : ℕ → Reader Table) (c : Cursor)
      → ((d : Cursor) (l : ℕ)
          → c.offset + 4 ≤ d.offset
          → d.offset ≤ len
          → Ensures mem (Within d) (loop l d))
      → Ensures mem (Passes len c.offset 4) (open_table mem (amqp_bytes m len) loop c)
  unfolding open_table
  open_table-Within loop c h =
      Ensures-bind mem (Passes len c.offset 4) (Passes len c.offset 4) (d_32 m len c) _
        (d_32-Passes mem m len c)
        λ size c1 h1.
          Ensures-bind mem (Stays c1) (Passes len c.offset 4) (first_entries mem c1) _
            (first_entries-Stays c1)
            λ u c2 h2.
              Ensures-weaken mem (Within c2) (Passes len c.offset 4) _
                (h c2 (limit_after c2.offset size) (omega arith) (omega arith))
                λ t c3 h3. (omega arith, h3.1)

  decode_entries-Within :
      (f limit n allocated : ℕ) (c : Cursor)
      → c.offset ≤ len
      → len < f + c.offset
      → Ensures mem (Within c) (decode_entries mem (amqp_bytes m len) f limit n allocated c)
  unfolding decode_entries
  decode_entries-Within zero limit n allocated c h fuel = absurd (omega arith)
  decode_entries-Within (suc f) limit n allocated c h fuel =
      chosen (Ensures mem (Within c)) (ltb c.offset limit) _ _
        (decode_entry-Within _ c _ n allocated
          (λ d lo hi.
            Ensures-weaken mem (Passes len d.offset 4) (Within d) _
              (open_table-Within _ d
                λ e l lo' hi'. decode_entries-Within f l 0 initial_table_size e hi' (omega arith))
              λ t c' h'. (omega arith, h'.1))
          (λ d k l lo hi. decode_entries-Within f limit k l d hi (omega arith)))
        (Ensures-weaken mem (Stays c) (Within c) _ (copy_entries-Stays n c)
          λ t c' h'. (omega arith, omega arith))

pub amqp_decode_table-Passes :
    (mem : Pool.Memory) (m : Memory) (len : ℕ) (c : Cursor)
    → Ensures mem (Passes len c.offset 4) (amqp_decode_table mem (amqp_bytes m len) c)
unfolding amqp_decode_table
amqp_decode_table-Passes mem m len c =
    open_table-Within mem m len _ c λ d l lo hi.
      decode_entries-Within mem m len (len + 1) l 0 initial_table_size d hi (omega arith)

-- Whatever the bytes, where there are fewer than 2 ^ 31, so that no int that holds an offset wraps: the
-- fuel of `amqp_decode_table` lasts; where it decodes a table, the offset has moved by the four bytes of
-- the size or more and is within the buffer; and it writes through NULL only if an allocation fails.
pub amqp_decode_table-Ends :
    (mem : Pool.Memory) (m : Memory) (len : ℕ) (c : Cursor)
    → len < 2 ^ 31
    → Ensures mem (Passes len c.offset 4) (amqp_decode_table mem (amqp_bytes m len) c)
amqp_decode_table-Ends mem m len c int_offset = amqp_decode_table-Passes mem m len c
