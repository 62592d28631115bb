-- ===== src/Bundled/Reader/Gives.antt =====
-- A decoder that gives a value and an offset, whatever it does to the heap, where the encoding of the
-- value stands in the buffer.
use pg_amqp.Base.{
  ℕ, ◌+◌, ◌*◌, ◌/◌, ◌%◌, ◌^◌, ◌≤◌, ◌<◌, ◌≡◌, refl, ap, [], ◌∷◌, ◌++◌, length, arith, ◌∙◌,
}
use pg_amqp.Events.{Bytes}
use pg_amqp.Bundled.Buffer.{Memory, get_bytes, be16, be32}
use pg_amqp.Bundled.Pool.{State}
use pg_amqp.Bundled.Input.{d16, d32}
use pg_amqp.Bundled.Encoder.Stored.{Holds, Holds-split}
use pg_amqp.Bundled.Reader.{
  Cursor, Reading, Reader, got, bind, checked, d_8, d_16, d_32, d_64, d_bytes,
}

abbrev pub at : ℕ → State → Cursor
at o h = record { offset = o; heap = h }

abbrev pub Gives : {A : Type 0} → A → ℕ → Reading A → Type 0
Gives a o r = (h : State) × (r ≡ got a (at o h))

pub Gives-bind :
    {A B : Type 0} (a : A) (b : B) (o p : ℕ) (r : Reading A) (f : A → Reader B)
    → Gives a o r
    → ((h : State) → Gives b p (f a (at o h)))
    → Gives b p (bind r f)
Gives-bind a b o p r f (h, e) k = let (h', e') = k h in (h', ap (λ x. bind x f) e ∙ e')

pub get_bytes-Holds :
    (m : Memory) (o : ℕ) (bs : Bytes) → Holds m o bs → get_bytes m o (length bs) ≡ bs
unfolding Holds get_bytes
get_bytes-Holds m o [] h = refl
get_bytes-Holds m o (b ∷ bs) (h, hs) = let rest = get_bytes-Holds m (o + 1) bs hs in cc

two_on : (o : ℕ) → o + 1 + 1 ≡ o + 2
two_on o = omega arith

three_on : (o : ℕ) → o + 1 + 1 + 1 ≡ o + 3
three_on o = omega arith

pieces :
    (n : ℕ)
    → n < 2 ^ 32
    → n / 2 ^ 24 % 256 * 2 ^ 24 + n / 2 ^ 16 % 256 * 2 ^ 16 + n / 256 % 256 * 256 + n % 256 ≡ n
pieces n h = omega arith

pub d16-Holds : (m : Memory) (n o : ℕ) → n < 2 ^ 16 → Holds m o (be16 n) → d16 m o ≡ n
unfolding Holds
d16-Holds m n o small (e0, (e1, e2)) = ground arith

pub d32-Holds : (m : Memory) (n o : ℕ) → n < 2 ^ 32 → Holds m o (be32 n) → d32 m o ≡ n
unfolding Holds
d32-Holds m n o small (e0, (e1, (e2, (e3, e4)))) =
    let x2 = ap m (two_on o) in
    let x3 = ap m (three_on o) in let sum = pieces n small in ground arith

module _ (m : Memory) (len : ℕ) where
  checked-Gives :
      {A : Type 0} (n : ℕ) (read : ℕ → A) (a : A) (o : ℕ) (h : State)
      → o + n ≤ len
      → read o ≡ a
      → Gives a (o + n) (checked len n read (at o h))
  unfolding checked
  checked-Gives n read a o h room e = (h, ground arith)

  pub d_8-Gives :
      (b o : ℕ) (h : State)
      → o + 1 ≤ len
      → Holds m o (b ∷ [])
      → Gives b (o + 1) (d_8 m len (at o h))
  unfolding d_8 Holds
  d_8-Gives b o h room e = checked-Gives 1 m b o h room e.0

  pub d_16-Gives :
      (n o : ℕ) (h : State)
      → n < 2 ^ 16
      → o + 2 ≤ len
      → Holds m o (be16 n)
      → Gives n (o + 2) (d_16 m len (at o h))
  unfolding d_16
  d_16-Gives n o h small room e = checked-Gives 2 (d16 m) n o h room (d16-Holds m n o small e)

  pub d_32-Gives :
      (n o : ℕ) (h : State)
      → n < 2 ^ 32
      → o + 4 ≤ len
      → Holds m o (be32 n)
      → Gives n (o + 4) (d_32 m len (at o h))
  unfolding d_32
  d_32-Gives n o h small room e = checked-Gives 4 (d32 m) n o h room (d32-Holds m n o small e)

  pub d_bytes-Gives :
      (bs : Bytes) (o : ℕ) (h : State)
      → o + length bs ≤ len
      → Holds m o bs
      → Gives bs (o + length bs) (d_bytes m len (length bs) (at o h))
  unfolding d_bytes
  d_bytes-Gives bs o h room e =
      checked-Gives (length bs) (λ p. get_bytes m p (length bs)) bs o h room
        (get_bytes-Holds m o bs e)

  pub d_64-Gives :
      (n o : ℕ) (h : State)
      → n < 2 ^ 64
      → o + 8 ≤ len
      → Holds m o (be32 (n / 2 ^ 32) ++ be32 (n % 2 ^ 32))
      → Gives n (o + 8) (d_64 m len (at o h))
  unfolding d_64
  d_64-Gives n o h small room e =
      let (hi, lo) = Holds-split m o (be32 (n / 2 ^ 32)) (be32 (n % 2 ^ 32)) e in
      Gives-bind (n / 2 ^ 32) n (o + 4) (o + 8) (d_32 m len (at o h)) _
        (d_32-Gives (n / 2 ^ 32) o h (omega arith) (omega arith) hi)
        λ h1.
          Gives-bind (n % 2 ^ 32) n (o + 4 + 4) (o + 8) (d_32 m len (at (o + 4) h1)) _
            (d_32-Gives (n % 2 ^ 32) (o + 4) h1 (omega arith) (omega arith) lo)
            λ h2. (
              h2,
              (let v : n / 2 ^ 32 * 2 ^ 32 + n % 2 ^ 32 ≡ n = omega arith in
                  let p : o + 4 + 4 ≡ o + 8 = omega arith in cc),
            )
