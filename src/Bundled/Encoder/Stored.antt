-- ===== src/Bundled/Encoder/Stored.antt =====
-- What an encoder leaves in its buffer, whether there is room or not.
use pg_amqp.Base.{
  ℕ, ◌+◌, ◌≤◌, ◌<◌, ◌≡◌, ◌⊎◌, inl, refl, Bool, true, false, ◌&&◌, [], ◌∷◌, ◌++◌, ltb, length, arith,
  chosen_by, length-append, inr,
}
use mathlib.Core.Path.{subst}
use pg_amqp.Events.{Bytes}
use pg_amqp.Bundled.Buffer.{Memory, set, set_bytes, set_bytes-before, set_bytes-after}
use pg_amqp.Bundled.Frame.{efault, einval}
use pg_amqp.Bundled.Encoder.{
  Spot, Encoding, Encoder, encoded, failed, then_encode, emit, ◌and_then◌,
}

-- The bytes stand in the buffer from an offset on.
unfoldable pub Holds : Memory → ℕ → Bytes → Type 0
Holds m o [] = Unit
Holds m o (b ∷ bs) = (m o ≡ b) × Holds m (o + 1) bs

-- The buffer outside of `o` to `len` is xs it was.
abbrev pub Inside : ℕ → ℕ → Memory → Memory → Type 0
Inside len o m m' = ((i : ℕ) → i < o → m' i ≡ m i) × ((i : ℕ) → len ≤ i → m' i ≡ m i)

-- Room for the bytes; nothing is tested where there are none.
abbrev pub Fits : ℕ → ℕ → Bytes → Type 0
Fits len o bs = (o + length bs ≤ len) ⊎ (length bs ≡ 0)

-- An encoder that is to write `bs` at `s`: it does so where all kinds are known and there is room,
-- and otherwise says which of the two fails.
unfoldable pub Stored : ℕ → Spot → Bool → Bytes → Encoding → Type 0
unfolding Holds
Stored len s known bs (encoded t) =
    (known ≡ true)
    × (t.offset ≡ s.offset + length bs)
    × Fits len s.offset bs
    × Holds t.memory s.offset bs
    × Inside len s.offset s.memory t.memory
    × ((i : ℕ) → t.offset ≤ i → t.memory i ≡ s.memory i)
Stored len s known bs (failed e m) =
    Inside len s.offset s.memory m
    × (((e ≡ efault) × (len < s.offset + length bs)) ⊎ ((e ≡ einval) × (known ≡ false)))

pub Holds-agree :
    (m m' : Memory) (o : ℕ) (bs : Bytes)
    → ((i : ℕ) → o ≤ i → i < o + length bs → m' i ≡ m i)
    → Holds m o bs
    → Holds m' o bs
unfolding Holds
Holds-agree m m' o [] same h = tt
Holds-agree m m' o (b ∷ bs) same (h, hs) =
    let here = same o (omega arith) (omega arith) in
    (cc, Holds-agree m m' (o + 1) bs (λ i lo hi. same i (omega arith) (omega arith)) hs)

pub Holds-append :
    (m : Memory) (o : ℕ) (xs bs : Bytes)
    → Holds m o xs
    → Holds m (o + length xs) bs
    → Holds m o (xs ++ bs)
unfolding Holds
Holds-append m o [] bs ha hb = subst (λ k. Holds m k bs) (omega arith) hb
Holds-append m o (a ∷ xs) bs (h, ha) hb =
    (h, Holds-append m (o + 1) xs bs ha (subst (λ k. Holds m k bs) (omega arith) hb))

pub Holds-split :
    (m : Memory) (o : ℕ) (xs bs : Bytes)
    → Holds m o (xs ++ bs)
    → Holds m o xs × Holds m (o + length xs) bs
unfolding Holds
Holds-split m o [] bs h = (tt, subst (λ k. Holds m k bs) (omega arith) h)
Holds-split m o (a ∷ xs) bs (h, hs) =
    let (l, r) = Holds-split m (o + 1) xs bs hs in
    ((h, l), subst (λ k. Holds m k bs) (omega arith) r)

pub Holds-set_bytes : (m : Memory) (o : ℕ) (bs : Bytes) → Holds (set_bytes m o bs) o bs
unfolding Holds set_bytes
Holds-set_bytes m o [] = tt
Holds-set_bytes m o (b ∷ bs) =
    let kept = set_bytes-before (set m o b) (o + 1) bs o (omega arith) in
    (ground arith, Holds-set_bytes (set m o b) (o + 1) bs)

pub emit-Stored : (len : ℕ) (bs : Bytes) (s : Spot) → Stored len s true bs (emit len bs s)
unfolding emit Stored
emit-Stored len bs s =
    let m' = set_bytes s.memory s.offset bs in
    chosen_by (Stored len s true bs) (ltb len (s.offset + length bs)) (failed efault s.memory)
      (encoded (record { memory = m'; offset = s.offset + length bs }))
      (λ h. ((λ i lo. refl, λ i hi. refl), inl (refl, ground arith)))
      (λ h. (
        refl,
        refl,
        inl (ground arith),
        Holds-set_bytes s.memory s.offset bs,
        (
          λ i lo. set_bytes-before s.memory s.offset bs i lo,
          λ i hi. set_bytes-after s.memory s.offset bs i (ground arith),
        ),
        λ i past. set_bytes-after s.memory s.offset bs i past,
      ))

Inside-trans :
    (len : ℕ) (a b c : Memory) (o o' : ℕ)
    → o ≤ o'
    → Inside len o a b
    → Inside len o' b c
    → Inside len o a c
Inside-trans len a b c o o' le (lo, hi) (lo', hi') = (
  λ i h. let x = lo i h in let y = lo' i (omega arith) in cc,
  λ i h. let x = hi i h in let y = hi' i h in cc,
)

-- One encoder behind another.
module _ (len : ℕ) (s : Spot) (k l : Bool) (xs ys : Bytes) where
  second-Stored :
      (t : Spot) (r : Encoding)
      → Stored len s k xs (encoded t)
      → Stored len t l ys r
      → Stored len s (k && l) (xs ++ ys) r
  unfolding Stored
  second-Stored t (failed e m) (ok, at, fits, h, io, after) (io', why) =
      let n = length-append xs ys in
      (Inside-trans len _ _ _ s.offset t.offset (omega arith) io io', ground arith)
  second-Stored t (encoded u) (ok, at, fits, h, io, after) (ok', at', fits', h', io', after') =
      let n = length-append xs ys in
      (
        ground arith,
        omega arith,
        ground arith,
        Holds-append u.memory s.offset xs ys
            (Holds-agree t.memory u.memory s.offset xs (λ i lo hi. io'.0 i (omega arith)) h)
            (subst (λ o. Holds u.memory o ys) at h'),
        Inside-trans len _ _ _ s.offset t.offset (omega arith) io io',
        λ i past. let x = after i (omega arith) in let y = after' i past in cc,
      )

  pub then_encode-Stored :
      (r : Encoding) (next : Encoder)
      → Stored len s k xs r
      → ((t : Spot) → Stored len t l ys (next t))
      → Stored len s (k && l) (xs ++ ys) (then_encode r next)
  unfolding Stored
  then_encode-Stored (failed e m) next (io, why) rest =
      let n = length-append xs ys in (io, ground arith)
  then_encode-Stored (encoded t) next h rest = second-Stored t (next t) h (rest t)

pub no_bytes-Stored : (len : ℕ) (s : Spot) → Stored len s true [] (encoded s)
unfolding Stored Holds
no_bytes-Stored len s =
    (refl, omega arith, inr refl, tt, ((λ i lo. refl), (λ i hi. refl)), λ i q. refl)

pub two-Stored :
    (len : ℕ) (a b : Bytes) (s : Spot)
    → Stored len s true (a ++ b) ((emit len a and_then emit len b) s)
two-Stored len a b s =
    then_encode-Stored len s true true a b (emit len a s) (emit len b) (emit-Stored len a s)
      (λ t. emit-Stored len b t)
