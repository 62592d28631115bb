-- ===== src/Bundled/Properties/ReadBack.antt =====
-- `decode_members` gives back the members that stand in the buffer.
use pg_amqp.Base.{
  ℕ, ◌+◌, ◌^◌, ◌≤◌, ◌<◌, ◌≡◌, ◌≢◌, ap, Bool, true, false, Option, none, some, List, [], ◌∷◌, length,
  length-append, arith,
}
use pg_amqp.Bundled.Buffer.{Memory}
use pg_amqp.Bundled.Pool
use pg_amqp.Bundled.Pool.{State}
use pg_amqp.Bundled.Encoder.Stored.{Holds, Holds-split}
use pg_amqp.Bundled.Reader.{got, amqp_bytes}
use pg_amqp.Bundled.Reader.Gives.{at, Gives, Gives-bind}
use pg_amqp.Bundled.Table.ReadBack.{Plenty}
use pg_amqp.Bundled.Fields.{Item, store}
use pg_amqp.Bundled.Fields.ReadBack.{Fits, decode_item-Gives}
use pg_amqp.Bundled.Methods.RoundTrip.{alloc_struct-Gives}
use pg_amqp.Bundled.Properties.{
  flag, Given, Members, PropertiesOf, decode_given, decode_members, decode_class,
}
use pg_amqp.Bundled.Properties.Wire.{wire_given, wire_members}

-- Each member that is there fits its field.
abbrev pub GivenFits : (set : Bool) → (i : Item) → Given set i → Type 0
GivenFits true i a = Fits i a
GivenFits false i _ = Unit

abbrev pub MembersFit : (flags : ℕ) → (ps : List (ℕ × Item)) → Members flags ps → Type 0
MembersFit flags [] _ = Unit
MembersFit flags ((k, i) ∷ ps) (a, more) = GivenFits (flag k flags) i a × MembersFit flags ps more

abbrev pub FitsClass : (flags : ℕ) → (c : Option (List (ℕ × Item))) → PropertiesOf flags c → Type 0
FitsClass flags none _ = Unit
FitsClass flags (some ps) m = MembersFit flags ps m

module _ (shift_beyond : ℕ → ℕ → ℕ) (mem : Pool.Memory) (plenty : Plenty mem) (sizeof : ℕ → ℕ)
    (m : Memory) (len : ℕ) (small : len < 2 ^ 31) where
  decode_given-Gives :
      (set : Bool) (i : Item) (a : Given set i) (o : ℕ) (h : State)
      → GivenFits set i a
      → Holds m o (wire_given set i a)
      → o + length (wire_given set i a) ≤ len
      → Gives a
          (o + length (wire_given set i a))
          (decode_given shift_beyond mem sizeof (amqp_bytes m len) true set i (at o h))
  unfolding decode_given
  decode_given-Gives true i a o h fit held room =
      decode_item-Gives mem plenty m len small i a o h fit held room
  decode_given-Gives false i a o h fit held room = (h, ap (λ x. got tt (at x h)) (omega arith))

  decode_members-Gives :
      (flags : ℕ) (ps : List (ℕ × Item)) (a : Members flags ps) (o : ℕ) (h : State)
      → MembersFit flags ps a
      → Holds m o (wire_members flags ps a)
      → o + length (wire_members flags ps a) ≤ len
      → Gives a
          (o + length (wire_members flags ps a))
          (decode_members shift_beyond mem sizeof (amqp_bytes m len) true flags ps (at o h))
  unfolding decode_members
  decode_members-Gives flags [] a o h fit held room = (h, ap (λ x. got tt (at x h)) (omega arith))
  decode_members-Gives flags ((k, i) ∷ ps) (a, more) o h (fit, fits) held room =
      let first = wire_given (flag k flags) i a in
      let n = length-append first (wire_members flags ps more) in
      let (here, others) = Holds-split m o first (wire_members flags ps more) held in
      let q = o + length first in
      let p : q + length (wire_members flags ps more)
          ≡ o + length (wire_members flags ((k, i) ∷ ps) (a, more)) =
        omega arith in
      Gives-bind a (a, more) q _ _ _
        (decode_given-Gives (flag k flags) i a o h fit here (omega arith))
        λ g.
          Gives-bind more (a, more) (q + length (wire_members flags ps more)) _ _ _
            (decode_members-Gives flags ps more q g fits others (omega arith))
            λ g'. (g', ap (λ x. got (a, more) (at x g')) p)

  pub decode_class-Gives :
      (class flags : ℕ) (ps : List (ℕ × Item)) (a : Members flags ps) (o : ℕ) (h : State)
      → sizeof class ≢ 0
      → MembersFit flags ps a
      → Holds m o (wire_members flags ps a)
      → o + length (wire_members flags ps a) ≤ len
      → Gives a
          (o + length (wire_members flags ps a))
          (decode_class shift_beyond mem sizeof (amqp_bytes m len) class flags (some ps) (at o h))
  unfolding decode_class store
  decode_class-Gives class flags ps a o h sized fit held room =
      Gives-bind true a o (o + length (wire_members flags ps a)) _ _
        (alloc_struct-Gives mem plenty sizeof m len (sizeof class) o h sized)
        λ g. decode_members-Gives flags ps a o g fit held room
