-- ===== src/Bundled/Input/Partial.antt =====
-- Where a connection stands between two calls of `amqp_handle_input`, with the first bytes of a frame.
use pg_amqp.Base.{ℕ, ◌+◌, ◌<◌, ◌≡◌, ◌⊎◌, refl, ap, [], ◌∷◌, ◌++◌, length, length-append, arith}
use mathlib.Core.Path.{subst}
use pg_amqp.Events.{Bytes}
use pg_amqp.Bundled.Buffer.{Memory, set_bytes, set_bytes-before, be16, be32}
use pg_amqp.Bundled.Encoder.Stored.{Holds, Holds-set_bytes, Holds-append, Holds-agree}
use pg_amqp.Bundled.Frame.{frame_end}
use pg_amqp.Bundled.Input.{
  Phase, idle, waiting_for_header, waiting_for_body, waiting_for_protocol_header, Inbound, Decoder,
  Received, nothing, Outcome, consumed, read_rest, read_header, read_phase, amqp_handle_input,
}
use pg_amqp.Bundled.Input.Collected.{Idle}

-- The first bytes of a frame in the buffer.
abbrev pub Holding : ℕ → Bytes → Inbound → Type 0
Holding capacity xs i = (i.buffer_len ≡ capacity) × (i.offset ≡ length xs) × Holds i.buffer 0 xs

pub Holding-more :
    (capacity : ℕ) (xs ys : Bytes) (i : Inbound)
    → Holding capacity xs i
    → Holding capacity
        (xs ++ ys)
        (record i { buffer = set_bytes i.buffer i.offset ys; offset = i.offset + length ys })
Holding-more capacity xs ys i (room, at, held) =
    let n = length-append xs ys in
    let m = set_bytes i.buffer i.offset ys in
    (
      room,
      omega arith,
      Holds-append m 0 xs ys
          (Holds-agree i.buffer m 0 xs
            (λ k lo hi. set_bytes-before i.buffer i.offset ys k (omega arith)) held)
          (subst (λ o. Holds m o ys) (omega arith) (Holds-set_bytes i.buffer i.offset ys)),
    )

-- What a call leaves that takes bytes without a frame.
abbrev pub Takes : {M P : Type 0} → ℕ → (Inbound → Type 0) → Outcome M P × Inbound → Type 0
Takes n Q r = (i : Inbound) × (r ≡ (consumed n nothing, i)) × Q i

abbrev pub front : ℕ → ℕ → Bytes → Bytes
front type channel p = type ∷ be16 channel ++ be32 (length p)

abbrev pub back : Bytes → Bytes
back p = p ++ frame_end ∷ []

abbrev pub InHeader : ℕ → Bytes → Inbound → Type 0
InHeader capacity xs i =
    Holding capacity xs i × (i.phase ≡ waiting_for_header) × (i.target_size ≡ 7)

abbrev pub InBody : ℕ → Bytes → Bytes → Inbound → Type 0
InBody capacity p xs i =
    Holding capacity xs i × (i.phase ≡ waiting_for_body) × (i.target_size ≡ length p + 8)

-- Between two calls, with the first bytes of a frame of which `p` is the payload.
abbrev pub Partial : ℕ → Bytes → Bytes → Inbound → Type 0
Partial capacity p xs i =
    (Idle i × (i.buffer_len ≡ capacity) × (xs ≡ []))
    ⊎ (InHeader capacity xs i × (length xs < 7))
    ⊎ InBody capacity p xs i

-- What a call leaves that returns a frame.
abbrev pub Returns : {M P : Type 0} → ℕ → Received M P → ℕ → Outcome M P × Inbound → Type 0
Returns capacity f n r =
    (i : Inbound) × (r ≡ (consumed n f, i)) × Idle i × (i.buffer_len ≡ capacity)

-- `amqp_handle_input` on some bytes, by the phase.
module _ {M P : Type 0} (dec : Decoder M P) (page : Memory) where
  pub handled-phase :
      (bs : Bytes) (i : Inbound) (ph : Phase)
      → 0 < length bs
      → i.phase ≡ ph
      → amqp_handle_input dec page bs i ≡ read_phase dec page ph bs i
  unfolding amqp_handle_input
  handled-phase [] i ph some e = absurd (omega arith)
  handled-phase (b ∷ bs) i ph some e = ap (λ k. read_phase dec page k (b ∷ bs) i) e

  pub by_phase :
      (ph : Phase) (bs : Bytes) (i : Inbound)
      → read_phase dec page ph bs i ≡ elim ph [
        | idle ↦ read_header dec bs (record i { buffer = page; phase = waiting_for_header })
        | waiting_for_header ↦ read_header dec bs i
        | waiting_for_body ↦ read_rest dec 0 bs i
        | waiting_for_protocol_header ↦ read_rest dec 0 bs i
      ]
  unfolding read_phase
  by_phase idle bs i = refl
  by_phase waiting_for_header bs i = refl
  by_phase waiting_for_body bs i = refl
  by_phase waiting_for_protocol_header bs i = refl
