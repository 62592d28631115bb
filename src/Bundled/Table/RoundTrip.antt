-- ===== src/Bundled/Table/RoundTrip.antt =====
-- What `amqp_encode_table` wrote, `amqp_decode_table` reads back: the loop over the entries.
use pg_amqp.Base.{
  ℕ, zero, suc, ◌+◌, ◌%◌, ◌^◌, ◌≤◌, ◌<◌, ◌≡◌, refl, ap, sym, ◌∙◌, ltb, [], ◌∷◌, ◌++◌, length,
  length-append, arith, chosen_by,
}
use mathlib.Core.Path.{subst}
use pg_amqp.Events.{Bytes}
use pg_amqp.Bundled.Buffer.{Memory, be32}
use pg_amqp.Bundled.Pool
use pg_amqp.Bundled.Pool.{State}
use pg_amqp.Bundled.Encoder.{Spot, encoded}
use pg_amqp.Bundled.Encoder.Stored.{Stored, Holds, Holds-split}
use pg_amqp.Bundled.Reader.{Reader, amqp_bytes, d_8, d_bytes}
use pg_amqp.Bundled.Reader.Gives.{at, Gives, Gives-bind, d_8-Gives, d_bytes-Gives}
use pg_amqp.Bundled.Table.{Value, Table, table, no_entries, entry, kind, amqp_encode_table}
use pg_amqp.Bundled.Table.Wire.{
  sized, wire_entries, wire_value, known_entries, wire, amqp_encode_table-wire,
}
use pg_amqp.Bundled.Table.Decode.{
  copy_entries, open_table, decode_entry, decode_entries, amqp_decode_table, initial_table_size,
}
use pg_amqp.Bundled.Table.ReadBack.{
  InRange, InRangeValue, Plenty, copy_entries-Gives, more_entries-Gives, open_table-Gives,
  decode_value-Gives,
}

length-nested :
    (v : Value) (u : Table) → v ≡ table u → length (wire_value v) ≡ length (wire_entries u) + 4
unfolding wire_value
length-nested v u same =
    let n : length (wire_value v) ≡ length (sized (wire_entries u)) =
      ap (λ x. length (wire_value x)) same in
    omega arith

module _ (mem : Pool.Memory) (plenty : Plenty mem) (m : Memory) (len : ℕ) where
  -- One entry, where what decodes a table and the next rounds do so.
  decode_entry-Gives :
      (nested : Reader Table) (next : ℕ → ℕ → Reader Table) (k : Bytes) (v : Value) (t : Table)
      (n allocated o p : ℕ) (h : State)
      → length k < 256
      → InRangeValue v
      → Holds m o (length k ∷ k ++ kind v ∷ [])
      → Holds m (o + (length k + 2)) (wire_value v)
      → o + (length k + 2) + length (wire_value v) ≤ len
      → ((u : Table) (g : State)
          → v ≡ table u
          → Gives u
              (o + (length k + 2) + length (wire_value v))
              (nested (at (o + (length k + 2)) g)))
      → ((i j : ℕ) (g : State)
          → Gives t p (next i j (at (o + (length k + 2) + length (wire_value v)) g)))
      → Gives (entry k v t) p (decode_entry mem (amqp_bytes m len) nested next n allocated (at o h))
  unfolding decode_entry Holds
  decode_entry-Gives nested next k v t n allocated o p h short r (first, e) value room inner more =
      let (key, (last, end)) = Holds-split m (o + 1) k (kind v ∷ []) e in
      let q : o + 1 + length k + 1 ≡ o + (length k + 2) = omega arith in
      Gives-bind (length k) (entry k v t) (o + 1) p (d_8 m len (at o h)) _
        (d_8-Gives m len (length k) o h (omega arith) (first, tt))
        λ h1. more_entries-Gives mem plenty (entry k v t) n allocated (o + 1) p h1 _ λ j h2.
          Gives-bind k (entry k v t) (o + 1 + length k) p (d_bytes m len (length k) (at (o + 1) h2))
            _ (d_bytes-Gives m len k (o + 1) h2 (omega arith) key)
            λ h3.
              Gives-bind (kind v) (entry k v t) (o + (length k + 2)) p
                (d_8 m len (at (o + 1 + length k) h3)) _
                (subst (λ x. Gives (kind v) x (d_8 m len (at (o + 1 + length k) h3))) q
                  (d_8-Gives m len (kind v) (o + 1 + length k) h3 (omega arith) (last, tt)))
                λ h4.
                  Gives-bind v (entry k v t) (o + (length k + 2) + length (wire_value v)) p _ _
                    (decode_value-Gives mem plenty m len nested v (o + (length k + 2)) h4 r value
                      room (λ u same. inner u h4 same))
                    λ h5. Gives-bind t (entry k v t) p p _ _ (more (n + 1) j h5) λ h6. (h6, refl)

  -- A nested table, by the loop that reads its entries.
  nested-Gives :
      (loop : ℕ → Reader Table) (v : Value) (u : Table) (o : ℕ) (h : State)
      → v ≡ table u
      → Holds m o (wire_value v)
      → o + length (wire_value v) ≤ len
      → len < 2 ^ 31
      → ((g : State) (limit : ℕ)
          → Holds m (o + 4) (wire_entries u)
          → limit ≡ o + 4 + length (wire_entries u)
          → Gives u limit (loop limit (at (o + 4) g)))
      → Gives u (o + length (wire_value v)) (open_table mem (amqp_bytes m len) loop (at o h))
  unfolding wire_value
  nested-Gives loop v u o h same e room small k =
      let w : wire_value v ≡ sized (wire_entries u) = ap wire_value same in
      let (size, entries) =
        Holds-split m o (be32 (length (wire_entries u))) (wire_entries u)
          (subst (λ x. Holds m o x) w e) in
      let n = ap length w in
      let p : o + 4 + length (wire_entries u) ≡ o + length (wire_value v) = omega arith in
      subst (λ x. Gives u x (open_table mem (amqp_bytes m len) loop (at o h))) p
        (open_table-Gives mem plenty m len loop u (length (wire_entries u)) o h size (omega arith)
          small (λ g. k g (o + 4 + length (wire_entries u)) entries refl))

  pub decode_entries-Gives :
      (f : ℕ) (t : Table) (limit n allocated o : ℕ) (h : State)
      → InRange t
      → Holds m o (wire_entries t)
      → limit ≡ o + length (wire_entries t)
      → limit ≤ len
      → len < 2 ^ 31
      → length (wire_entries t) < f
      → Gives t limit (decode_entries mem (amqp_bytes m len) f limit n allocated (at o h))
  unfolding decode_entries InRange wire_entries Holds
  decode_entries-Gives zero t limit n allocated o h r e stop room small fuel = absurd (omega arith)
  decode_entries-Gives (suc f) no_entries limit n allocated o h r e stop room small fuel =
      let p : o ≡ limit = omega arith in
      chosen_by (Gives no_entries limit) (ltb o limit) _ _ (λ more. absurd (ground arith))
        (λ _.
          subst (λ x. Gives no_entries x (copy_entries mem n (at o h))) p
            (copy_entries-Gives mem plenty n o h))
  decode_entries-Gives (suc f) (entry k v t) limit n allocated o h (short, rv, rt) e stop room small
        fuel =
      let b = amqp_bytes m len in
      let n1 = length-append k (kind v ∷ []) in
      let head = length k % 256 ∷ k ++ kind v ∷ [] in
      let n2 = length-append head (wire_value v) in
      let n3 = length-append (head ++ wire_value v) (wire_entries t) in
      let (front, tail) = Holds-split m o (head ++ wire_value v) (wire_entries t) e in
      let ((first, name), value) = Holds-split m o head (wire_value v) front in
      let x = o + (length k + 2) in
      let p : o + length head ≡ x = omega arith in
      let q : o + length (head ++ wire_value v) ≡ x + length (wire_value v) = omega arith in
      let whole : length k % 256 ≡ length k = omega arith in
      let at_value = subst (λ y. Holds m y (wire_value v)) p value in
      chosen_by (Gives (entry k v t) limit) (ltb o limit) _ _
        (λ _.
          decode_entry-Gives (open_table mem b (λ l. decode_entries mem b f l 0 initial_table_size))
            (decode_entries mem b f limit) k v t n allocated o limit h short rv
            (first ∙ whole, name) at_value (omega arith)
            (λ u g same.
              nested-Gives (λ l. decode_entries mem b f l 0 initial_table_size) v u x g same
                at_value (omega arith) small
                (λ g' l entries stops.
                  decode_entries-Gives f u l 0 initial_table_size (x + 4) g'
                    (subst InRangeValue same rv) entries stops
                    (let w = length-nested v u same in omega arith) small
                    (let w = length-nested v u same in omega arith)))
            (λ i j g.
              decode_entries-Gives f t limit i j (x + length (wire_value v)) g rt
                (subst (λ y. Holds m y (wire_entries t)) q tail) (omega arith) room small
                (omega arith)))
        (λ past. absurd (ground arith))

-- A table whose bytes stand in the buffer.
pub amqp_decode_table-Gives :
    (mem : Pool.Memory) (m : Memory) (len : ℕ) (t : Table) (o : ℕ) (h : State)
    → Plenty mem
    → len < 2 ^ 31
    → InRange t
    → Holds m o (wire t)
    → o + length (wire t) ≤ len
    → Gives t (o + length (wire t)) (amqp_decode_table mem (amqp_bytes m len) (at o h))
unfolding amqp_decode_table
amqp_decode_table-Gives mem m len t o h plenty small r written room =
    let n = length (wire_entries t) in
    let (size, entries) = Holds-split m o (be32 n) (wire_entries t) written in
    let p : o + 4 + n ≡ o + length (wire t) = omega arith in
    let fits : o + 4 + n ≤ len = omega arith in
    let b = amqp_bytes m len in
    let loop : ℕ → Reader Table = λ l. decode_entries mem b (len + 1) l 0 initial_table_size in
    subst (λ x. Gives t x (open_table mem b loop (at o h))) p
      (open_table-Gives mem plenty m len loop t n o h size fits small (λ g.
        decode_entries-Gives mem plenty m len (len + 1) t (o + 4 + n) 0 initial_table_size (o + 4) g
          r entries refl fits small (omega arith)))

-- With allocations that succeed, a buffer below 2 ^ 31 bytes and a table whose names and values fit
-- their fields, what `amqp_encode_table` wrote is decoded as that table by `amqp_decode_table` at the
-- same offset, whatever follows in the buffer, and the offset is then where the encoder left it.
pub amqp_decode_table-amqp_encode_table :
    (mem : Pool.Memory) (len : ℕ) (t : Table) (s s' : Spot) (h : State)
    → Plenty mem
    → len < 2 ^ 31
    → InRange t
    → amqp_encode_table len t s ≡ encoded s'
    → Gives t s'.offset (amqp_decode_table mem (amqp_bytes s'.memory len) (at s.offset h))
unfolding Stored
amqp_decode_table-amqp_encode_table mem len t s s' h plenty small r e =
    let (known, moved, fits, written, io, after) =
      subst (Stored len s (known_entries t) (wire t)) e (amqp_encode_table-wire len t s) in
    subst (λ x. Gives t x (amqp_decode_table mem (amqp_bytes s'.memory len) (at s.offset h)))
      (sym moved)
      (amqp_decode_table-Gives mem s'.memory len t s.offset h plenty small r written (ground arith))
