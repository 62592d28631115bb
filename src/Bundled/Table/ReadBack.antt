-- ===== src/Bundled/Table/ReadBack.antt =====
-- The readers of `amqp_decode_table` give back what stands in the buffer: allocations, sizes and values.
use pg_amqp.Base.{
  ℕ, ◌+◌, ◌*◌, ◌%◌, ◌^◌, ◌≤◌, ◌<◌, ◌≡◌, refl, ap, sym, ◌∙◌, Option, none, some, true, ltb, [], ◌∷◌,
  length, arith, inl, inr, Bool-cases,
}
use mathlib.Core.Path.{subst}
use pg_amqp.Bundled.Buffer.{Memory, be32}
use pg_amqp.Bundled.Pool
use pg_amqp.Bundled.Pool.{State, Region, amqp_pool_alloc}
use pg_amqp.Bundled.Encoder.Stored.{Holds, Holds-split}
use pg_amqp.Bundled.Reader.{Reader, got, bind, amqp_bytes, d_8, d_32, d_64, d_bytes}
use pg_amqp.Bundled.Reader.Gives.{
  at, Gives, Gives-bind, d_8-Gives, d_32-Gives, d_64-Gives, d_bytes-Gives,
}
use pg_amqp.Bundled.Table.{
  Value, Table, bytes, i32, decimal, u64, table, unknown, no_entries, entry, kind,
}
use pg_amqp.Bundled.Table.Wire.{sized, wire_value}
use pg_amqp.Bundled.Table.Decode.{
  first_entries, more_entries, copied, copy_entries, decode_value, open_table, entry_size,
  limit_after,
}
use pg_amqp.Bundled.Pool.Filled.{Filled, amqp_pool_alloc-Filled}

-- Names of at most 255 bytes, values that fit their field, and no unknown kind.
unfoldable mutual
  pub InRange : Table → Type 0
  InRange no_entries = Unit
  InRange (entry k v t) = (length k < 256) × InRangeValue v × InRange t

  pub InRangeValue : Value → Type 0
  InRangeValue (bytes bs) = length bs < 2 ^ 32
  InRangeValue (i32 n) = n < 2 ^ 32
  InRangeValue (decimal d n) = (d < 256) × (n < 2 ^ 32)
  InRangeValue (u64 n) = n < 2 ^ 64
  InRangeValue (table t) = InRange t
  InRangeValue (unknown _) = ⊥

-- No allocation fails.
abbrev pub Plenty : Pool.Memory → Type 0
Plenty mem = (cs : Pool.HeapCalls) (n : ℕ) → mem cs n ≡ true

module _ (mem : Pool.Memory) (plenty : Plenty mem) where
  first_entries-Gives : (o : ℕ) (h : State) → Gives tt o (first_entries mem (at o h))
  unfolding first_entries
  first_entries-Gives o h =
      let p = plenty h.calls 640 in (Pool.set_pool h.pool (Pool.grow ∷ h.calls), ground arith)

  copied-Gives :
      (n o : ℕ) (h : State) (r : Option Region × State)
      → Filled mem (n * entry_size) r
      → Gives no_entries o (copied n r (at o h))
  unfolding copied
  copied-Gives n o h (some r, g) f = (g, refl)
  copied-Gives n o h (none, g) (inl z) = let e : n ≡ 0 = omega arith in (g, ground arith)
  copied-Gives n o h (none, g) (inr (cs, k, out)) = let p = plenty cs k in absurd (cc)

  pub copy_entries-Gives : (n o : ℕ) (h : State) → Gives no_entries o (copy_entries mem n (at o h))
  unfolding copy_entries
  copy_entries-Gives n o h = copied-Gives n o h _ (amqp_pool_alloc-Filled mem (n * entry_size) h)

  -- What comes after room was made for the entry.
  pub more_entries-Gives :
      {A : Type 0} (a : A) (n allocated o p : ℕ) (h : State) (f : ℕ → Reader A)
      → ((room : ℕ) (g : State) → Gives a p (f room (at o g)))
      → Gives a p (bind (more_entries mem n allocated (at o h)) f)
  unfolding more_entries
  more_entries-Gives {A} a n allocated o p h f k =
      let taken = plenty h.calls (allocated * 2 * entry_size) in
      elim (Bool-cases (ltb n allocated)) [
        | inl room ↦
            let (g, e) = k allocated h in
            let here : more_entries mem n allocated (at o h) ≡ got allocated (at o h) =
              ground arith in
            (g, ap (λ r. bind r f) here ∙ e)
        | inr full ↦
            let h' = Pool.set_pool h.pool (Pool.grow ∷ h.calls) in
            let (g, e) = k (allocated * 2) h' in
            let here : more_entries mem n allocated (at o h) ≡ got (allocated * 2) (at o h') =
              ground arith in
            (g, ap (λ r. bind r f) here ∙ e)
      ]

  module _ (m : Memory) (len : ℕ) where
    pub open_table-Gives :
        (loop : ℕ → Reader Table) (t : Table) (n o : ℕ) (h : State)
        → Holds m o (be32 n)
        → o + 4 + n ≤ len
        → len < 2 ^ 31
        → ((g : State) → Gives t (o + 4 + n) (loop (o + 4 + n) (at (o + 4) g)))
        → Gives t (o + 4 + n) (open_table mem (amqp_bytes m len) loop (at o h))
    unfolding open_table
    open_table-Gives loop t n o h size room small k =
        let l : limit_after (o + 4) n ≡ o + 4 + n = ground arith in
        Gives-bind n t (o + 4) (o + 4 + n) (d_32 m len (at o h)) _
          (d_32-Gives m len n o h (omega arith) (omega arith) size)
          λ g.
            Gives-bind tt t (o + 4) (o + 4 + n) (first_entries mem (at (o + 4) g)) _
              (first_entries-Gives (o + 4) g)
              λ g'. subst (λ x. Gives t (o + 4 + n) (loop x (at (o + 4) g'))) (sym l) (k g')

    pub decode_value-Gives :
        (nested : Reader Table) (v : Value) (o : ℕ) (h : State)
        → InRangeValue v
        → Holds m o (wire_value v)
        → o + length (wire_value v) ≤ len
        → ((t : Table) → v ≡ table t → Gives t (o + length (wire_value v)) (nested (at o h)))
        → Gives v
            (o + length (wire_value v))
            (decode_value mem (amqp_bytes m len) nested (kind v) (at o h))
    unfolding decode_value wire_value InRange
    decode_value-Gives nested (bytes bs) o h r e room k =
        let (size, text) = Holds-split m o (be32 (length bs)) bs e in
        let p : o + 4 + length bs ≡ o + length (sized bs) = omega arith in
        Gives-bind (length bs) (bytes bs) (o + 4) _ (d_32 m len (at o h)) _
          (d_32-Gives m len (length bs) o h r (omega arith) size)
          λ g.
            Gives-bind bs (bytes bs) (o + 4 + length bs) _
              (d_bytes m len (length bs) (at (o + 4) g)) _
              (d_bytes-Gives m len bs (o + 4) g (omega arith) text)
              λ g'. (g', ap (λ x. got (bytes bs) (at x g')) p)
    decode_value-Gives nested (i32 n) o h r e room k =
        Gives-bind n (i32 n) (o + 4) (o + 4) (d_32 m len (at o h)) _
          (d_32-Gives m len n o h r room e) λ g. (g, refl)
    decode_value-Gives nested (decimal d n) o h (small, r) e room k =
        let (digits, value) = Holds-split m o (d % 256 ∷ []) (be32 n) e in
        let p : o + 1 + 4 ≡ o + 5 = omega arith in
        let whole : d % 256 ≡ d = omega arith in
        Gives-bind d (decimal d n) (o + 1) (o + 5) (d_8 m len (at o h)) _
          (subst (λ x. Gives x (o + 1) (d_8 m len (at o h))) whole
            (d_8-Gives m len (d % 256) o h (omega arith) digits))
          λ g.
            Gives-bind n (decimal d n) (o + 1 + 4) (o + 5) (d_32 m len (at (o + 1) g)) _
              (d_32-Gives m len n (o + 1) g r (omega arith) value)
              λ g'. (g', ap (λ x. got (decimal d n) (at x g')) p)
    decode_value-Gives nested (u64 n) o h r e room k =
        Gives-bind n (u64 n) (o + 8) (o + 8) (d_64 m len (at o h)) _
          (d_64-Gives m len n o h r room e) λ g. (g, refl)
    decode_value-Gives nested (table t) o h r e room k =
        Gives-bind t (table t) _ _ (nested (at o h)) _ (k t refl) λ g. (g, refl)
    decode_value-Gives nested (unknown x) o h r e room k = absurd r
