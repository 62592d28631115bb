-- ===== src/Bundled/Link/Decoding.antt =====
-- The decoder and the encoder of the two ends of a connection, by the bytes of a struct.
use pg_amqp.Base.{
  ℕ, ◌+◌, ◌^◌, ◌≤◌, ◌<◌, ◌≡◌, ◌≢◌, ap, ◌∙◌, true, Option, none, some, List, [], ◌∷◌, length, arith,
  inr, inl,
}
use mathlib.Core.Path.{subst}
use pg_amqp.Events.{Bytes}
use pg_amqp.Bundled.Buffer.{Memory, get_bytes}
use pg_amqp.Bundled.Pool
use pg_amqp.Bundled.Pool.{State}
use pg_amqp.Bundled.Encoder.{Spot, Encoding, encoded, failed}
use pg_amqp.Bundled.Encoder.Stored.{Stored, Holds}
use pg_amqp.Bundled.Reader.{amqp_bytes}
use pg_amqp.Bundled.Reader.Gives.{at, Gives, get_bytes-Holds}
use pg_amqp.Bundled.Table.ReadBack.{Plenty}
use pg_amqp.Bundled.Frame.{bytes}
use pg_amqp.Bundled.Input.{decoded}
use pg_amqp.Bundled.Fields.{Item, case_of}
use pg_amqp.Bundled.Fields.Wire.{known_fields, wire_fields, encode_fields-Stored}
use pg_amqp.Bundled.Fields.ReadBack.{AllFit}
use pg_amqp.Bundled.Methods.{
  StructOf, encode_layouts, encode_case, amqp_encode_method, decode_case, amqp_decode_method,
}
use pg_amqp.Bundled.Methods.RoundTrip.{decode_case-Gives}
use pg_amqp.Bundled.Link.{from, encoder_result, decoder_result}

pub Holds-from : (m : Memory) (o k : ℕ) (bs : Bytes) → Holds m (o + k) bs → Holds (from m o) k bs
unfolding Holds
Holds-from m o k [] h = tt
Holds-from m o k (b ∷ bs) (h, hs) =
    (h, Holds-from m o (k + 1) bs (subst (λ j. Holds m j bs) (omega arith) hs))

-- An encoder that knows all kinds and has room gives its bytes.
pub encoder_result-Stored :
    (len : ℕ) (rest : Memory) (bs : Bytes) (r : Encoding)
    → Stored len (record { memory = rest; offset = 0 }) true bs r
    → length bs ≤ len
    → encoder_result r ≡ bytes bs
unfolding encoder_result Stored
encoder_result-Stored len rest bs (encoded s) (known, moved, fits, held, io, after) room =
    let end : s.offset ≡ length bs = omega arith in
    ap bytes (ap (get_bytes s.memory 0) end ∙ get_bytes-Holds s.memory 0 bs held)
encoder_result-Stored len rest bs (failed e m) (io, inl (why, short)) room = absurd (omega arith)
encoder_result-Stored len rest bs (failed e m) (io, inr (why, unknown)) room = absurd (cc)

pub decoder_result-Gives :
    {A B : Type 0} (f : A → B) (a : A) (o : ℕ) (r : _)
    → Gives a o r
    → decoder_result f r ≡ decoded (f a)
unfolding decoder_result
decoder_result-Gives f a o r (h, e) = ap (decoder_result f) e

-- The bytes of a struct; there are none where there is no case.
abbrev pub wire_case : (c : Option (List Item)) → StructOf c → Bytes
wire_case none _ = []
wire_case (some is) x = wire_fields is x

-- A struct of a known method, with members that fit their fields and tables of known kinds.
abbrev pub Sound : (c : Option (List Item)) → StructOf c → Type 0
Sound none _ = ⊥
Sound (some is) x = AllFit is x × (known_fields is x ≡ true)

encode_case-Sound :
    (room : ℕ) (c : Option (List Item)) (x : StructOf c) (rest : Memory)
    → Sound c x
    → length (wire_case c x) ≤ room
    → encoder_result (encode_case room c x (record { memory = rest; offset = 0 }))
      ≡ bytes (wire_case c x)
unfolding encode_case
encode_case-Sound room none x rest sound fits = absurd sound
encode_case-Sound room (some is) x rest (fit, known) fits =
    let start : Spot = record { memory = rest; offset = 0 } in
    encoder_result-Stored room rest (wire_fields is x) _
      (subst (λ k. Stored room start k (wire_fields is x) (encode_case room (some is) x start))
        known (encode_fields-Stored room is x start))
      fits

pub amqp_encode_method-Sound :
    (room n : ℕ) (x : StructOf (case_of n encode_layouts)) (rest : Memory)
    → Sound (case_of n encode_layouts) x
    → length (wire_case (case_of n encode_layouts) x) ≤ room
    → encoder_result (amqp_encode_method room n x rest)
      ≡ bytes (wire_case (case_of n encode_layouts) x)
unfolding amqp_encode_method
amqp_encode_method-Sound room n x rest sound fits =
    encode_case-Sound room (case_of n encode_layouts) x rest sound fits

module _ (mem : Pool.Memory) (plenty : Plenty mem) (sizeof : ℕ → ℕ) (sized : (n : ℕ) → sizeof n ≢ 0)
    (m : Memory) (len : ℕ) (small : len < 2 ^ 31) (heap : State) where
  decode_case-Sound :
      (n : ℕ) (c : Option (List Item)) (x : StructOf c)
      → Sound c x
      → Holds m 0 (wire_case c x)
      → length (wire_case c x) ≤ len
      → Gives x (length (wire_case c x)) (decode_case mem sizeof (amqp_bytes m len) n c (at 0 heap))
  decode_case-Sound n none x sound held fits = absurd sound
  decode_case-Sound n (some is) x (fit, known) held fits =
      subst (λ o. Gives x o (decode_case mem sizeof (amqp_bytes m len) n (some is) (at 0 heap)))
        (omega arith)
        (decode_case-Gives mem plenty sizeof m len n is x 0 heap (sized n) small fit held
          (omega arith))

  pub amqp_decode_method-Sound :
      (n : ℕ) (x : StructOf (case_of n encode_layouts))
      → Sound (case_of n encode_layouts) x
      → Holds m 0 (wire_case (case_of n encode_layouts) x)
      → length (wire_case (case_of n encode_layouts) x) ≤ len
      → Gives {A = StructOf (case_of n encode_layouts)} x
          (length (wire_case (case_of n encode_layouts) x))
          (amqp_decode_method mem sizeof (amqp_bytes m len) n heap)
  unfolding amqp_decode_method
  amqp_decode_method-Sound n x sound held fits =
      decode_case-Sound n (case_of n encode_layouts) x sound held fits
