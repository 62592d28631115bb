-- ===== src/Bundled/Input/Body.antt =====
-- The bytes of a frame behind its header, in pieces.
use pg_amqp.Base.{
  ℕ, ◌+◌, ◌-◌, ◌^◌, ◌≤◌, ◌<◌, ◌≡◌, refl, ap, ◌∙◌, sym, [], ◌∷◌, ◌++◌, length, length-append, arith,
}
use mathlib.Core.Path.{subst}
use mathlib.Core.List.{append-nil}
use pg_amqp.Events.{Bytes}
use pg_amqp.Bundled.Buffer.{Memory, set_bytes, be16, be32}
use pg_amqp.Bundled.Encoder.Stored.{Holds, Holds-split}
use pg_amqp.Bundled.Frame.{frame_end}
use pg_amqp.Bundled.Reader.Gives.{d16-Holds, d32-Holds}
use pg_amqp.Bundled.Input.{
  Inbound, Decoder, Received, nothing, consumed, d16, d32, decode_frame, finish_body, read_rest,
  return_to_idle,
}
use pg_amqp.Bundled.Input.Collected.{
  Idle, Arrived, collect-whole, collect-short, read_rest-some, finish_body-marked,
}
use pg_amqp.Bundled.Input.Partial.{Holding-more, Takes, front, back, InBody, Returns}

module _ {M P : Type 0} (dec : Decoder M P) (type channel : ℕ) (p : Bytes) (capacity : ℕ)
    (f : Received M P) (few : channel < 2 ^ 16) (room : length p + 8 ≤ capacity)
    (small : length p + 8 < 2 ^ 31)
    (decodes : (i : Inbound)
      → Arrived i type channel p
      → i.buffer_len ≡ capacity
      → decode_frame dec i ≡ consumed 0 f) where
  read_rest-none : (t : ℕ) (i : Inbound) → read_rest dec t [] i ≡ (consumed t nothing, i)
  unfolding read_rest
  read_rest-none t i = refl

  pub body-short :
      (t : ℕ) (xs c : Bytes) (i : Inbound)
      → InBody capacity p xs i
      → length xs + length c < length p + 8
      → Takes (t + length c) (InBody capacity p (xs ++ c)) (read_rest dec t c i)
  body-short t xs [] i h short = (
    i,
    read_rest-none t i ∙ ap (λ k. (consumed k nothing, i)) (omega arith),
    subst (λ ys. InBody capacity p ys i) (sym (append-nil xs)) h,
  )
  body-short t xs (b ∷ c) i (h, ph, target) short =
      let (r, at, held) = h in
      let i' = record i {
        buffer = set_bytes i.buffer i.offset (b ∷ c);
        offset = i.offset + length (b ∷ c);
      } in
      (
        i',
        read_rest-some dec t (b ∷ c) i (omega arith) ph
            ∙ collect-short (λ t rest i'. finish_body dec t i') t (b ∷ c) i (omega arith)
                (omega arith) (omega arith),
        (Holding-more capacity xs (b ∷ c) i h, ph, target),
      )

  pub front-read :
      (m : Memory)
      → Holds m 0 (front type channel p)
      → (m 0 ≡ type) × (d16 m 1 ≡ channel) × (d32 m 3 ≡ length p)
  unfolding Holds
  front-read m h =
      let (a, rest) = Holds-split m 0 (type ∷ []) (be16 channel ++ be32 (length p)) h in
      let (b, c) = Holds-split m 1 (be16 channel) (be32 (length p)) rest in
      (a.0, d16-Holds m channel 1 few b, d32-Holds m (length p) 3 (omega arith) c)

  Idle-return :
      (i : Inbound) → Idle (return_to_idle i) × ((return_to_idle i).buffer_len ≡ i.buffer_len)
  unfolding return_to_idle
  Idle-return i = ((refl, refl, refl), refl)

  front-Arrived :
      (i : Inbound)
      → Holds i.buffer 0 (front type channel p ++ back p)
      → i.target_size ≡ length p + 8
      → Arrived i type channel p
  unfolding Holds
  front-Arrived i h target =
      let (front_held, back_held) = Holds-split i.buffer 0 (front type channel p) (back p) h in
      let (a, b, c) = front-read i.buffer front_held in
      let (held, marked) = Holds-split i.buffer 7 p (frame_end ∷ []) back_held in
      let at_end : length p + 7 ≡ 7 + length p = omega arith in
      (a, b, held, ap i.buffer at_end ∙ marked.0, target)

  pub body-whole :
      (t : ℕ) (xs ys more : Bytes) (i : Inbound)
      → InBody capacity p xs i
      → front type channel p ++ back p ≡ xs ++ ys
      → 0 < length ys
      → Returns capacity f (t + length ys) (read_rest dec t (ys ++ more) i)
  body-whole t xs ys more i (h, ph, target) whole some =
      let (r, at, held) = h in
      let n0 = ap length whole in
      let n1 = length-append xs ys in
      let n2 = length-append p (frame_end ∷ []) in
      let n3 = length-append ys more in
      let sum : i.offset + length ys ≡ length p + 8 = omega arith in
      let i' = record i {
        buffer = set_bytes i.buffer i.offset ys;
        offset = i.offset + length ys;
      } in
      let (r', at', held') = Holding-more capacity xs ys i h in
      let arrived = front-Arrived i' (subst (Holds i'.buffer 0) (sym whole) held') target in
      let last : i'.target_size - 1 ≡ length p + 7 = omega arith in
      (
        return_to_idle i',
        read_rest-some dec t (ys ++ more) i (omega arith) ph
            ∙ collect-whole (λ t rest i'. finish_body dec t i') t ys more i (omega arith)
                (omega arith) (omega arith)
            ∙ finish_body-marked dec (t + length ys) 0 i' f (ap i'.buffer last ∙ arrived.3)
                (decodes i' arrived r),
        (Idle-return i').0,
        (Idle-return i').1 ∙ r,
      )
