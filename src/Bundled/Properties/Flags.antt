-- ===== src/Bundled/Properties/Flags.antt =====
-- The words of the flags: what `encode_flags` writes and what `decode_flags` makes of it.
use pg_amqp.Base.{
  ℕ, zero, suc, ◌+◌, ◌*◌, ◌/◌, ◌%◌, ◌^◌, ◌≤◌, ◌<◌, ◌≡◌, ap, ◌∙◌, true, false, List, [], ◌∷◌, ◌++◌,
  ◌==◌, if◌then◌else◌, arith,
}
use pg_amqp.Events.{Bytes}
use pg_amqp.Bundled.Buffer.{Memory, be16}
use pg_amqp.Bundled.Pool
use pg_amqp.Bundled.Pool.{State}
use pg_amqp.Bundled.Encoder.{Spot, emit}
use pg_amqp.Bundled.Encoder.Stored.{Stored, Holds, emit-Stored, then_encode-Stored, no_bytes-Stored}
use pg_amqp.Bundled.Reader.{Reader, amqp_bytes, d_16, got, pure}
use pg_amqp.Bundled.Reader.Gives.{at, Gives, Gives-bind, d_16-Gives}
use pg_amqp.Bundled.Properties.{flag_words, encode_flags, bit_or, add_flags, decode_flags}

abbrev pub wire_words : List ℕ → Bytes
wire_words [] = []
wire_words (w ∷ ws) = be16 w ++ wire_words ws

pub encode_flags-Stored :
    (len : ℕ) (ws : List ℕ) (s : Spot) → Stored len s true (wire_words ws) (encode_flags len ws s)
unfolding encode_flags
encode_flags-Stored len [] s = no_bytes-Stored len s
encode_flags-Stored len (w ∷ ws) s =
    then_encode-Stored len s true true (be16 w) (wire_words ws) (emit len (be16 w) s)
      (encode_flags len ws) (emit-Stored len (be16 w) s) (λ t. encode_flags-Stored len ws t)

-- Flags in bits 1 to 15 are one word, which is their own.
pub flag_words-one : (flags : ℕ) → flags < 2 ^ 16 → flags % 2 ≡ 0 → flag_words 2 flags ≡ flags ∷ []
unfolding flag_words
flag_words-one flags small even =
    let none : flags / 2 ^ 16 ≡ 0 = omega arith in
    let all : flags % 2 ^ 16 / 2 * 2 ≡ flags = omega arith in ground arith

bit_or-zero : (n b : ℕ) → b < 2 ^ n → bit_or n 0 b ≡ b
unfolding bit_or
bit_or-zero zero b h = omega arith
bit_or-zero (suc n) b h =
    let twice : 2 ^ suc n ≡ 2 * 2 ^ n = omega arith in
    let rest = bit_or-zero n (b / 2) (omega arith) in
    let whole : b % 2 + 2 * (b / 2) ≡ b = omega arith in ap (λ x. b % 2 + 2 * x) rest ∙ whole

add_flags-first :
    (shift_beyond : ℕ → ℕ → ℕ) (partial : ℕ)
    → partial < 2 ^ 16
    → add_flags shift_beyond 0 0 partial ≡ partial
unfolding add_flags
add_flags-first shift_beyond partial h =
    let unshifted : partial * 2 ^ 0 % 2 ^ 32 ≡ partial = omega arith in
    ap (bit_or 32 0) unshifted ∙ bit_or-zero 32 partial (omega arith)

-- A word whose lowest bit is clear is the last one.
last_word :
    (partial flags total o : ℕ) (h : State) (more : Reader ℕ)
    → partial % 2 ≡ 0
    → total ≡ flags
    → Gives flags o ((if partial % 2 == 1 then more else pure total) (at o h))
last_word partial flags total o h more even same = (
  h,
  let clear : partial % 2 == 1 ≡ false = ground arith in
      ap (λ b. (if b then more else pure total) (at o h)) clear ∙ ap (λ x. got x (at o h)) same,
)

pub decode_flags-Gives :
    (shift_beyond : ℕ → ℕ → ℕ) (mem : Pool.Memory) (sizeof : ℕ → ℕ) (m : Memory) (len f flags o : ℕ)
    (h : State)
    → flags < 2 ^ 16
    → flags % 2 ≡ 0
    → o + 2 ≤ len
    → Holds m o (be16 flags)
    → Gives flags
        (o + 2)
        (decode_flags shift_beyond mem sizeof (amqp_bytes m len) (suc f) 0 0 (at o h))
unfolding decode_flags
decode_flags-Gives shift_beyond mem sizeof m len f flags o h small even room held =
    let total = add_flags shift_beyond 0 0 flags in
    let more = decode_flags shift_beyond mem sizeof (amqp_bytes m len) f 1 total in
    Gives-bind flags flags (o + 2) (o + 2) (d_16 m len (at o h)) _
      (d_16-Gives m len flags o h small room held)
      λ g.
        last_word flags flags total (o + 2) g more even (add_flags-first shift_beyond flags small)
