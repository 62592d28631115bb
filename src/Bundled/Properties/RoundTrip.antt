-- ===== src/Bundled/Properties/RoundTrip.antt =====
-- What `amqp_encode_properties` wrote, `amqp_decode_properties` reads back.
use pg_amqp.Base.{
  ℕ, ◌+◌, ◌%◌, ◌^◌, ◌≤◌, ◌<◌, ◌≡◌, ◌≢◌, refl, true, Option, none, some, List, [], ◌∷◌, ◌++◌, length,
  arith, suc,
}
use mathlib.Core.Path.{subst, subst⁻¹, subst_refl, path_j}
use pg_amqp.Bundled.Buffer.{Memory, be16}
use pg_amqp.Bundled.Pool
use pg_amqp.Bundled.Pool.{State}
use pg_amqp.Bundled.Encoder.{Spot, Encoding, encoded, failed, then_encode}
use pg_amqp.Bundled.Encoder.Stored.{Stored, Holds, Holds-split, then_encode-Stored}
use pg_amqp.Bundled.Reader.{Reading, ◌>>=◌, pure, amqp_bytes}
use pg_amqp.Bundled.Reader.Gives.{at, Gives, Gives-bind}
use pg_amqp.Bundled.Table.ReadBack.{Plenty}
use pg_amqp.Bundled.Fields.{Item, PropertyLayouts, case_of}
use pg_amqp.Bundled.Methods.{enoent}
use pg_amqp.Bundled.Properties.{
  Members, PropertiesOf, encode_flags, encode_members, encode_class, amqp_encode_properties,
  decode_flags, decode_class, amqp_decode_properties,
}
use pg_amqp.Bundled.Properties.Encode.{encode_properties_layouts}
use pg_amqp.Bundled.Properties.Flags.{encode_flags-Stored, flag_words-one, decode_flags-Gives}
use pg_amqp.Bundled.Properties.Wire.{wire_members, known_members, encode_members-Stored}
use pg_amqp.Bundled.Properties.Agree.{same_properties}
use pg_amqp.Bundled.Properties.ReadBack.{MembersFit, FitsClass, decode_class-Gives}

-- An encoder that fails in any case does not end well.
never_encoded :
    (r : Encoding) (e : ℕ) (s : Spot) → then_encode r (λ t. failed e t.memory) ≢ encoded s
never_encoded (encoded t) e s h = cc
never_encoded (failed x t) e s h = cc

module _ (mem : Pool.Memory) (plenty : Plenty mem) (sizeof : ℕ → ℕ) (shift_beyond : ℕ → ℕ → ℕ)
    (len : ℕ) (small : len < 2 ^ 31) where
  -- The decoder with the cases of a class.
  abbrev pub decode_both :
      Memory
      → ℕ
      → (c : Option (List (ℕ × Item))) → State
      → Reading ((flags : ℕ) × PropertiesOf flags c)
  decode_both m class c h =
      (do
        flags ← decode_flags shift_beyond mem sizeof (amqp_bytes m len) (suc len) 0 0
        x ← decode_class shift_beyond mem sizeof (amqp_bytes m len) class flags c
        pure (flags, x))
        (at 0 h)

  -- The flags, and then the members that they say are there.
  pub decode_both-Gives :
      (m : Memory) (class flags : ℕ) (ps : List (ℕ × Item)) (x : Members flags ps) (h : State)
      → sizeof class ≢ 0
      → flags < 2 ^ 16
      → flags % 2 ≡ 0
      → MembersFit flags ps x
      → Holds m 0 (be16 flags)
      → Holds m 2 (wire_members flags ps x)
      → 2 + length (wire_members flags ps x) ≤ len
      → Gives (flags, x) (2 + length (wire_members flags ps x)) (decode_both m class (some ps) h)
  decode_both-Gives m class flags ps x h sized word even fit words members room =
      let end = 2 + length (wire_members flags ps x) in
      let b = amqp_bytes m len in
      let whole : (f : ℕ) × PropertiesOf f (some ps) = (flags, x) in
      Gives-bind flags whole 2 end (decode_flags shift_beyond mem sizeof b (suc len) 0 0 (at 0 h))
        (λ f. decode_class shift_beyond mem sizeof b class f (some ps) >>= λ y. pure (f, y))
        (decode_flags-Gives shift_beyond mem sizeof m len len flags 0 h word even (omega arith)
          words)
        λ g.
          Gives-bind x whole end end
            (decode_class shift_beyond mem sizeof b class flags (some ps) (at 2 g))
            (λ y. pure (flags, y))
            (decode_class-Gives shift_beyond mem plenty sizeof m len small class flags ps x 2 g
              sized fit members room)
            λ g'. (g', refl)

  class-RoundTrip :
      (class flags : ℕ) (c : Option (List (ℕ × Item))) (x : PropertiesOf flags c) (buffer : Memory)
      (s : Spot) (h : State)
      → sizeof class ≢ 0
      → flags < 2 ^ 16
      → flags % 2 ≡ 0
      → FitsClass flags c x
      → then_encode
          (encode_flags len (flags ∷ []) (record { memory = buffer; offset = 0 }))
          (encode_class len flags c x)
        ≡ encoded s
      → Gives (flags, x) s.offset (decode_both s.memory class c h)
  unfolding encode_class Stored
  class-RoundTrip class flags none x buffer s h sized word even fit e = absurd (
      never_encoded (encode_flags len (flags ∷ []) (record { memory = buffer; offset = 0 })) enoent
        s e)
  class-RoundTrip class flags (some ps) x buffer s h sized word even fit e =
      let start : Spot = record { memory = buffer; offset = 0 } in
      let body = wire_members flags ps x in
      let (known, moved, fits, written, io, after) =
        subst (Stored len start (known_members flags ps x) (be16 flags ++ body)) e (
          then_encode-Stored len start true (known_members flags ps x) (be16 flags) body
            (encode_flags len (flags ∷ []) start) (encode_members len flags ps x)
            (encode_flags-Stored len (flags ∷ []) start)
            (λ t. encode_members-Stored len flags ps x t)) in
      let (words, members) = Holds-split s.memory 0 (be16 flags) body written in
      let room : 2 + length body ≤ len = ground arith in
      let ended : 2 + length body ≡ s.offset = omega arith in
      subst (λ o. Gives (flags, x) o (decode_both s.memory class (some ps) h)) ended
        (decode_both-Gives s.memory class flags ps x h sized word even fit words members room)

-- With allocations that succeed, structs of some size and a buffer below 2 ^ 31 bytes, what
-- `amqp_encode_properties` wrote for a struct of any class, with any flags in bits 1 to 15 and members
-- that fit their fields, is decoded by `amqp_decode_properties` as the same flags with the same members,
-- and the decoder ends where the encoder ended.
pub amqp_decode_properties-amqp_encode_properties :
    (shift_beyond : ℕ → ℕ → ℕ) (mem : Pool.Memory) (sizeof : ℕ → ℕ) (len class flags : ℕ)
    (x : PropertiesOf flags (case_of class encode_properties_layouts)) (buffer : Memory) (s : Spot)
    (h : State)
    → Plenty mem
    → sizeof class ≢ 0
    → len < 2 ^ 31
    → flags < 2 ^ 16
    → flags % 2 ≡ 0
    → FitsClass flags (case_of class encode_properties_layouts) x
    → amqp_encode_properties len class flags x buffer ≡ encoded s
    → Gives
        (flags, subst (λ ls. PropertiesOf flags (case_of class ls)) same_properties x)
        s.offset
        (amqp_decode_properties shift_beyond mem sizeof (amqp_bytes s.memory len) class h)
unfolding amqp_encode_properties amqp_decode_properties
amqp_decode_properties-amqp_encode_properties shift_beyond mem sizeof len class flags x buffer s h
      plenty sized small word even fit e =
    let MembersIn : PropertyLayouts → Type 0 = λ ls. PropertiesOf flags (case_of class ls) in
    let start : Spot = record { memory = buffer; offset = 0 } in
    let one = flag_words-one flags word even in
    let wrote =
      subst
        (λ ws.
          then_encode (encode_flags len ws start)
            (encode_class len flags (case_of class encode_properties_layouts) x)
          ≡ encoded s)
        one e in
    path_j
      (λ ls same.
        Gives (flags, subst MembersIn same x) s.offset
          (decode_both mem plenty sizeof shift_beyond len small s.memory class (case_of class ls)
            h))
      (subst⁻¹
        (λ y.
          Gives (flags, y) s.offset
            (decode_both mem plenty sizeof shift_beyond len small s.memory class
              (case_of class encode_properties_layouts) h))
        (subst_refl MembersIn {x = encode_properties_layouts} x)
        (class-RoundTrip mem plenty sizeof shift_beyond len small class flags
          (case_of class encode_properties_layouts) x buffer s h sized word even fit wrote))
      same_properties
