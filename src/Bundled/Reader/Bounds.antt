-- ===== src/Bundled/Reader/Bounds.antt =====
-- The macros read no byte from the buffer's length on.
use pg_amqp.Base.{ℕ, ◌+◌, ◌≤◌, ◌<◌, ◌*◌, ◌^◌, ◌≡◌, ap, ltb, arith, Bool-cases, inl, inr}
use pg_amqp.Bundled.Buffer.{Memory, get_bytes, get_bytes-agree}
use pg_amqp.Bundled.Input.{d16, d32}
use pg_amqp.Bundled.Reader.{
  Cursor, Reader, checked, ◌>>=◌, pure, d_8, d_16, d_32, d_64, d_bytes, amqp_bytes,
}

module _ (m m' : Memory) (len : ℕ) (same : (i : ℕ) → i < len → m i ≡ m' i) where
  checked-agree :
      {A : Type 0} (n : ℕ) (read read' : ℕ → A)
      → ((o : ℕ) → o + n ≤ len → read o ≡ read' o)
      → (c : Cursor) → checked len n read c ≡ checked len n read' c
  unfolding checked
  checked-agree {A} n read read' h c = elim (Bool-cases (ltb len (c.offset + n))) [
    | inl past ↦ ground arith
    | inr room ↦ let x = h c.offset (ground arith) in ground arith
  ]

  pub amqp_bytes-agree : amqp_bytes m len ≡ amqp_bytes m' len
  unfolding d_8 d_16 d_32 d_64 d_bytes
  amqp_bytes-agree =
      let e8 : d_8 m len ≡ d_8 m' len =
        λ i c. checked-agree 1 m m' (λ o h. same o (omega arith)) c i in
      let e16 : d_16 m len ≡ d_16 m' len = λ i c.
        checked-agree 2 (d16 m) (d16 m')
          (λ o h.
            let a = same o (omega arith) in let b = same (o + 1) (omega arith) in ground arith)
          c i in
      let e32 : d_32 m len ≡ d_32 m' len = λ i c.
        checked-agree 4 (d32 m) (d32 m')
          (λ o h.
            let a0 = same o (omega arith) in
            let a1 = same (o + 1) (omega arith) in
            let a2 = same (o + 2) (omega arith) in
            let a3 = same (o + 3) (omega arith) in ground arith)
          c i in
      let e64 : d_64 m len ≡ d_64 m' len =
        ap (λ (r : Reader ℕ). do hi ← r; lo ← r; pure (hi * 2 ^ 32 + lo)) e32 in
      let eb : d_bytes m len ≡ d_bytes m' len = λ i n c.
        checked-agree n (λ o. get_bytes m o n) (λ o. get_bytes m' o n)
          (λ o h. get_bytes-agree m m' o n (λ j le lt. same j (omega arith))) c i in
      λ i. record {
        len = len;
        d_8 = e8 i;
        d_16 = e16 i;
        d_32 = e32 i;
        d_64 = e64 i;
        d_bytes = eb i;
      }
