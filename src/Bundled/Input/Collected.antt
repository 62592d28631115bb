-- ===== src/Bundled/Input/Collected.antt =====
-- The steps of `amqp_handle_input` on the bytes of one frame: fewer than are missing, or all of them with
-- others behind.
use pg_amqp.Base.{
  ◌==◌, if◌then◌else◌, ℕ, ◌+◌, ◌-◌, ◌%◌, ◌^◌, ◌≤◌, ◌<◌, ◌≡◌, ◌≢◌, refl, ap, ◌∙◌, [], ◌∷◌, ◌++◌,
  length, length-append, take-append, take-length, drop-append, arith,
}
use mathlib.Core.Path.{subst⁻¹}
use pg_amqp.Events.{Bytes}
use pg_amqp.Bundled.Buffer.{set_bytes}
use pg_amqp.Bundled.Encoder.Stored.{Holds}
use pg_amqp.Bundled.Frame.{frame_end, einval}
use pg_amqp.Bundled.Input.{
  nothing, failed, idle, waiting_for_body, Inbound, Decoder, Outcome, d16, d32, bytes_consumed,
  absorb, collect, size_frame, return_to_idle, decode_frame, return_frame, consumed, Received,
  read_rest, finish_body,
}

bytes_consumed-missing :
    (i : Inbound) (n m : ℕ)
    → i.target_size ≡ i.offset + n
    → n ≤ m
    → i.offset + n < 2 ^ 31
    → bytes_consumed i m ≡ n
unfolding bytes_consumed
bytes_consumed-missing i n m e le small =
    let missing : (i.target_size + 2 ^ 64 - i.offset) % 2 ^ 32 ≡ n = omega arith in ground arith

-- With all bytes that are missing, and any `ys` behind them.
pub collect-whole :
    {M P : Type 0} (rest : ℕ → Bytes → Inbound → Outcome M P × Inbound) (total : ℕ) (xs ys : Bytes)
    (i : Inbound)
    → i.target_size ≡ i.offset + length xs
    → i.offset + length xs ≤ i.buffer_len
    → i.offset + length xs < 2 ^ 31
    → collect rest total (xs ++ ys) i
      ≡ rest
          (total + length xs)
          ys
          (record i { buffer = set_bytes i.buffer i.offset xs; offset = i.offset + length xs })
unfolding collect absorb
collect-whole rest total xs ys i e room small =
    let n = length-append xs ys in
    let taken = bytes_consumed-missing i (length xs) (length (xs ++ ys)) e (omega arith) small in
    let t = take-append xs ys in let d = drop-append xs ys in ground arith

-- With fewer bytes than are missing.
pub collect-short :
    {M P : Type 0} (rest : ℕ → Bytes → Inbound → Outcome M P × Inbound) (total : ℕ) (xs : Bytes)
    (i : Inbound)
    → i.offset + length xs < i.target_size
    → i.target_size ≤ i.buffer_len
    → i.target_size < 2 ^ 31
    → collect rest total xs i ≡ (
      consumed (total + length xs) nothing,
      record i { buffer = set_bytes i.buffer i.offset xs; offset = i.offset + length xs },
    )
unfolding collect absorb bytes_consumed
collect-short rest total xs i short room small =
    let missing : (i.target_size + 2 ^ 64 - i.offset) % 2 ^ 32 ≡ i.target_size - i.offset =
      omega arith in
    let t = take-length xs in ground arith

-- No byte of the next frame has come.
abbrev pub Idle : Inbound → Type 0
Idle i = (i.phase ≡ idle) × (i.offset ≡ 0) × (i.target_size ≡ 7)

-- A frame with all its bytes in the buffer.
abbrev pub Arrived : Inbound → ℕ → ℕ → Bytes → Type 0
Arrived i type channel p =
    (i.buffer 0 ≡ type)
    × (d16 i.buffer 1 ≡ channel)
    × Holds i.buffer 7 p
    × (i.buffer (length p + 7) ≡ frame_end)
    × (i.target_size ≡ length p + 8)

pub size_frame-body :
    (i : Inbound) (n : ℕ)
    → i.buffer 0 ≢ 65
    → d32 i.buffer 3 ≡ n
    → n + 8 < 2 ^ 31
    → size_frame i ≡ record i { target_size = n + 8; phase = waiting_for_body }
unfolding size_frame
size_frame-body i n h e small = ground arith

read_rest-body :
    {M P : Type 0} (dec : Decoder M P) (t b : ℕ) (bs : Bytes) (i : Inbound)
    → i.phase ≡ waiting_for_body
    → read_rest dec t (b ∷ bs) i ≡ collect (λ t rest i'. finish_body dec t i') t (b ∷ bs) i
unfolding read_rest
read_rest-body dec t b bs i ph =
    let e : i ≡ record i { phase = waiting_for_body } = λ k. record i { phase = ph k } in
    subst⁻¹
      (λ j. read_rest dec t (b ∷ bs) j ≡ collect (λ t rest i'. finish_body dec t i') t (b ∷ bs) j) e
      refl

pub read_rest-some :
    {M P : Type 0} (dec : Decoder M P) (t : ℕ) (bs : Bytes) (i : Inbound)
    → 0 < length bs
    → i.phase ≡ waiting_for_body
    → read_rest dec t bs i ≡ collect (λ t rest i'. finish_body dec t i') t bs i
read_rest-some dec t [] i some ph = elim some [ ]
read_rest-some dec t (b ∷ bs) i some ph = read_rest-body dec t b bs i ph

pub finish_body-marked :
    {M P : Type 0} (dec : Decoder M P) (t n : ℕ) (i : Inbound) (f : Received M P)
    → i.buffer (i.target_size - 1) ≡ frame_end
    → decode_frame dec i ≡ consumed n f
    → finish_body dec t i ≡ (consumed t f, return_to_idle i)
unfolding finish_body return_frame
finish_body-marked dec t n i f marked h =
    ap (λ b. if b == frame_end then return_frame t i (decode_frame dec i) else (failed einval, i))
      marked
    ∙ ap (return_frame t i) h
