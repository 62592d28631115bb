-- ===== src/Bundled/Fields/ReadBack.antt =====
-- `decode_fields` gives back the members that stand in the buffer.
use pg_amqp.Base.{
  ℕ, zero, suc, ◌+◌, ◌*◌, ◌/◌, ◌%◌, ◌^◌, ◌≤◌, ◌<◌, ◌≡◌, refl, ap, String, true, false, List, [],
  ◌∷◌, ◌==◌, length, length-append, arith,
}
use mathlib.Core.Path.{subst}
use pg_amqp.Bundled.Buffer.{Memory, be32}
use pg_amqp.Bundled.Pool
use pg_amqp.Bundled.Pool.{State}
use pg_amqp.Bundled.Encoder.Stored.{Holds, Holds-split}
use pg_amqp.Bundled.Reader.{got, amqp_bytes, d_8}
use pg_amqp.Bundled.Reader.Gives.{
  at, Gives, Gives-bind, d_8-Gives, d_16-Gives, d_32-Gives, d_64-Gives, d_bytes-Gives,
}
use pg_amqp.Bundled.Table.Wire.{sized, wire}
use pg_amqp.Bundled.Table.ReadBack.{InRange, Plenty}
use pg_amqp.Bundled.Table.RoundTrip.{amqp_decode_table-Gives}
use pg_amqp.Bundled.Fields.{
  Item, octet, short, long, longlong, shortstr, longstr, table, bits, Flags, Arg, Args, bit_buffer,
  flags_of, decode_item, decode_fields, store,
}
use pg_amqp.Bundled.Fields.Wire.{wire_item, wire_fields}

-- A value that fits its field; eight flags fit a byte.
abbrev pub Fits : (i : Item) → Arg i → Type 0
Fits (octet _) n = n < 2 ^ 8
Fits (short _) n = n < 2 ^ 16
Fits (long _) n = n < 2 ^ 32
Fits (longlong _) n = n < 2 ^ 64
Fits (shortstr _) bs = length bs < 2 ^ 8
Fits (longstr _) bs = length bs < 2 ^ 32
Fits (table _) t = InRange t
Fits (bits fs) _ = length fs ≤ 8

abbrev pub AllFit : (is : List Item) → Args is → Type 0
AllFit [] _ = Unit
AllFit (i ∷ is) (a, more) = Fits i a × AllFit is more

doubled : (n : ℕ) → 2 ^ suc n ≡ 2 * 2 ^ n
doubled n = omega arith

bit_buffer-lt :
    (n : ℕ) (fs : List String) (bs : Flags fs) → length fs ≤ n → bit_buffer fs bs < 2 ^ n
bit_buffer-lt zero [] bs h = omega arith
bit_buffer-lt (suc n) [] bs h =
    let rest = bit_buffer-lt n [] bs (omega arith) in let twice = doubled n in omega arith
bit_buffer-lt zero (f ∷ fs) bs h = absurd (omega arith)
bit_buffer-lt (suc n) (f ∷ fs) (true, bs) h =
    let rest = bit_buffer-lt n fs bs (omega arith) in let twice = doubled n in omega arith
bit_buffer-lt (suc n) (f ∷ fs) (false, bs) h =
    let rest = bit_buffer-lt n fs bs (omega arith) in let twice = doubled n in omega arith

flags_of-bit_buffer : (fs : List String) (bs : Flags fs) → flags_of fs (bit_buffer fs bs) ≡ bs
flags_of-bit_buffer [] bs = refl
flags_of-bit_buffer (f ∷ fs) (true, bs) =
    let rest = flags_of-bit_buffer fs bs in
    let low : (1 + 2 * bit_buffer fs bs) % 2 == 1 ≡ true = ground arith in
    let high : (1 + 2 * bit_buffer fs bs) / 2 ≡ bit_buffer fs bs = omega arith in cc
flags_of-bit_buffer (f ∷ fs) (false, bs) =
    let rest = flags_of-bit_buffer fs bs in
    let low : (2 * bit_buffer fs bs) % 2 == 1 ≡ false = ground arith in
    let high : (2 * bit_buffer fs bs) / 2 ≡ bit_buffer fs bs = omega arith in cc

module _ (mem : Pool.Memory) (plenty : Plenty mem) (m : Memory) (len : ℕ)
    (small : len < 2 ^ 31) where
  pub decode_item-Gives :
      (i : Item) (a : Arg i) (o : ℕ) (h : State)
      → Fits i a
      → Holds m o (wire_item i a)
      → o + length (wire_item i a) ≤ len
      → Gives a (o + length (wire_item i a)) (decode_item mem (amqp_bytes m len) true i (at o h))
  unfolding decode_item store
  decode_item-Gives (octet _) n o h fit e room =
      let whole : n % 256 ≡ n = omega arith in
      Gives-bind n n (o + 1) (o + 1) _ _
        (subst (λ x. Gives x (o + 1) (d_8 m len (at o h))) whole
          (d_8-Gives m len (n % 256) o h room e))
        λ g. (g, refl)
  decode_item-Gives (short _) n o h fit e room =
      Gives-bind n n (o + 2) (o + 2) _ _ (d_16-Gives m len n o h fit room e) λ g. (g, refl)
  decode_item-Gives (long _) n o h fit e room =
      Gives-bind n n (o + 4) (o + 4) _ _ (d_32-Gives m len n o h fit room e) λ g. (g, refl)
  decode_item-Gives (longlong _) n o h fit e room =
      Gives-bind n n (o + 8) (o + 8) _ _ (d_64-Gives m len n o h fit room e) λ g. (g, refl)
  decode_item-Gives (shortstr _) bs o h fit e room =
      let (size, text) = Holds-split m o (length bs % 256 ∷ []) bs e in
      let whole : length bs % 256 ≡ length bs = omega arith in
      let p : o + 1 + length bs ≡ o + length (wire_item (shortstr "") bs) = omega arith in
      subst (λ x. Gives bs x (decode_item mem (amqp_bytes m len) true (shortstr "") (at o h))) p
        (Gives-bind (length bs) bs (o + 1) _ _ _
          (subst (λ x. Gives x (o + 1) (d_8 m len (at o h))) whole
            (d_8-Gives m len (length bs % 256) o h (omega arith) size))
          λ g. d_bytes-Gives m len bs (o + 1) g (omega arith) text)
  decode_item-Gives (longstr _) bs o h fit e room =
      let (size, text) = Holds-split m o (be32 (length bs)) bs e in
      let p : o + 4 + length bs ≡ o + length (sized bs) = omega arith in
      subst (λ x. Gives bs x (decode_item mem (amqp_bytes m len) true (longstr "") (at o h))) p
        (Gives-bind (length bs) bs (o + 4) _ _ _
          (d_32-Gives m len (length bs) o h fit (omega arith) size)
          λ g. d_bytes-Gives m len bs (o + 4) g (omega arith) text)
  decode_item-Gives (table _) t o h fit e room =
      Gives-bind t t (o + length (wire t)) (o + length (wire t)) _ _
        (amqp_decode_table-Gives mem m len t o h plenty small fit e room) λ g. (g, refl)
  decode_item-Gives (bits fs) bs o h fit e room =
      let b = bit_buffer fs bs in
      let fits : b < 2 ^ 8 = bit_buffer-lt 8 fs bs fit in
      let whole : b % 256 ≡ b = omega arith in
      Gives-bind b bs (o + 1) (o + 1) _ _
        (subst (λ x. Gives x (o + 1) (d_8 m len (at o h))) whole
          (d_8-Gives m len (b % 256) o h room e))
        λ g. (g, ap (λ x. got x (at (o + 1) g)) (flags_of-bit_buffer fs bs))

  pub decode_fields-Gives :
      (is : List Item) (a : Args is) (o : ℕ) (h : State)
      → AllFit is a
      → Holds m o (wire_fields is a)
      → o + length (wire_fields is a) ≤ len
      → Gives a
          (o + length (wire_fields is a))
          (decode_fields mem (amqp_bytes m len) true is (at o h))
  unfolding decode_fields
  decode_fields-Gives [] a o h fit e room = (h, ap (λ x. got tt (at x h)) (omega arith))
  decode_fields-Gives (i ∷ is) (a, more) o h (fit, fits) e room =
      let n = length-append (wire_item i a) (wire_fields is more) in
      let (first, others) = Holds-split m o (wire_item i a) (wire_fields is more) e in
      let q = o + length (wire_item i a) in
      let p : q + length (wire_fields is more) ≡ o + length (wire_fields (i ∷ is) (a, more)) =
        omega arith in
      Gives-bind a (a, more) q _ _ _ (decode_item-Gives i a o h fit first (omega arith))
        λ g.
          Gives-bind more (a, more) (q + length (wire_fields is more)) _ _ _
            (decode_fields-Gives is more q g fits others (omega arith))
            λ g'. (g', ap (λ x. got (a, more) (at x g')) p)
