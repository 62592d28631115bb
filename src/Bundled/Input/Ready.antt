-- ===== src/Bundled/Input/Ready.antt =====
-- When a connection is ready for input, and what progress on input is.
use pg_amqp.Base.{ℕ, ◌+◌, ◌-◌, ◌%◌, ◌^◌, ◌≤◌, ◌<◌, ◌≡◌, ◌⊎◌, true, false, ltb, arith}
use pg_amqp.Bundled.Input.{
  Phase, idle, waiting_for_header, waiting_for_body, Inbound, Received, nothing, Outcome, consumed,
  failed, aborted, bytes_consumed,
}

-- Some bytes are missing, and the phase says how many there can be.
abbrev pub PhaseFits : Phase → ℕ → ℕ → Type 0
PhaseFits idle offset target = (offset ≡ 0) × (target ≡ 7)
PhaseFits waiting_for_header offset target = (offset < 7) × (target ≡ 7)
PhaseFits _ offset target = (offset < target) × (target < 2 ^ 32)

abbrev pub Ready : Inbound → Type 0
Ready i = PhaseFits i.phase i.offset i.target_size

-- A frame whose announced size has wrapped to 7 bytes or less, with its header read.
abbrev pub Wrapped : Inbound → Type 0
Wrapped i = (i.phase ≡ waiting_for_body) × (i.target_size ≤ 7) × (i.target_size ≤ i.offset)

-- Behind a frame the connection is idle and has no byte of the next one. With no frame it is ready for
-- more, as it is behind a frame of an unknown type, or the frame's size has wrapped.
abbrev pub Next : {M P : Type 0} → Received M P → Inbound → Type 0
Next nothing i = Ready i ⊎ Wrapped i
Next _ i = (i.phase ≡ idle) × Ready i

-- What a call on `len` bytes comes to, but for an error or an abort: it consumes some of them, and all
-- of them where it does not complete a frame, and then takes the next bytes.
abbrev pub Progress : {M P : Type 0} → ℕ → Outcome M P × Inbound → Type 0
Progress len (consumed n f, i) = (0 < n) × (n ≤ len) × ((n ≡ len) ⊎ (i.phase ≡ idle)) × Next f i
Progress len (failed e, i) = Unit
Progress len (aborted, i) = Unit

pub consumed-le : (i : Inbound) (n : ℕ) → bytes_consumed i n ≤ n
unfolding bytes_consumed
consumed-le i n = ground arith

-- Where the target is not reached, all bytes were taken.
pub consumed-all :
    (i : Inbound) (n : ℕ)
    → i.target_size < 2 ^ 32
    → i.offset + bytes_consumed i n < i.target_size
    → bytes_consumed i n ≡ n
unfolding bytes_consumed
consumed-all i n small short =
    let missing : (i.target_size + 2 ^ 64 - i.offset) % 2 ^ 32 ≡ i.target_size - i.offset =
      omega arith in
    ground arith

pub is_less : (a b : ℕ) → ltb a b ≡ true → a < b
is_less a b h = ground arith

pub is_equal : (a b : ℕ) → ltb b a ≡ false → ltb a b ≡ false → a ≡ b
is_equal a b h g = ground arith
