-- ===== src/Bundled/Buffer.antt =====
-- src/librabbitmq/amqp_private.h, the macros E_8 to E_64 and E_BYTES that write the outbound
-- buffer: memory as a function from the offset to the byte, the stores of big-endian integers, and
-- what reading them back gives. The test of the limit in these macros is in the functions that use
-- them.
use pg_amqp.Base.{
  ℕ, zero, suc, ◌+◌, ◌-◌, ◌/◌, ◌%◌, ◌^◌, ◌≤◌, ◌<◌, ◌==◌, ◌≡◌, refl, [], ◌∷◌, ◌++◌, length,
  if◌then◌else◌, arith,
}
use pg_amqp.Events.{Bytes}

-- The bytes at the offsets of a buffer.
abbrev pub Memory : Type 0
Memory = ℕ → ℕ

-- `size_t` subtraction.
abbrev pub sub64 : ℕ → ℕ → ℕ
sub64 a b = (a + 2 ^ 64 - b) % 2 ^ 64

abbrev pub set : Memory → ℕ → ℕ → Memory
set m o v i = if i == o then v else m i

-- `memcpy` into the buffer.
unfoldable pub set_bytes : Memory → ℕ → Bytes → Memory
set_bytes m o [] = m
set_bytes m o (b ∷ bs) = set_bytes (set m o b) (o + 1) bs

-- `n` bytes from an offset on.
unfoldable pub get_bytes : Memory → ℕ → ℕ → Bytes
get_bytes m o zero = []
get_bytes m o (suc n) = m o ∷ get_bytes m (o + 1) n

-- Big-endian integers, as `htons` and `htonl` leave them.
abbrev pub be16 : ℕ → Bytes
be16 v = v / 256 % 256 ∷ v % 256 ∷ []

abbrev pub be32 : ℕ → Bytes
be32 v = v / 2 ^ 24 % 256 ∷ v / 2 ^ 16 % 256 ∷ v / 256 % 256 ∷ v % 256 ∷ []

-- E_64: the high word and the low word.
abbrev pub be64 : ℕ → Bytes
be64 v = be32 (v / 2 ^ 32 % 2 ^ 32) ++ be32 (v % 2 ^ 32)

-- A store leaves the bytes before its offset.
pub set_bytes-before : (m : Memory) (o : ℕ) (bs : Bytes) (i : ℕ) → i < o → set_bytes m o bs i ≡ m i
unfolding set_bytes
set_bytes-before m o [] i h = refl
set_bytes-before m o (b ∷ bs) i h =
    let before = set_bytes-before (set m o b) (o + 1) bs i (omega arith) in ground arith

pub set_bytes-after :
    (m : Memory) (o : ℕ) (bs : Bytes) (i : ℕ) → o + length bs ≤ i → set_bytes m o bs i ≡ m i
unfolding set_bytes
set_bytes-after m o [] i h = refl
set_bytes-after m o (b ∷ bs) i h =
    let after = set_bytes-after (set m o b) (o + 1) bs i (omega arith) in ground arith

-- Memories that agree on a range read alike there.
pub get_bytes-agree :
    (m m' : Memory) (o n : ℕ)
    → ((i : ℕ) → o ≤ i → i < o + n → m i ≡ m' i)
    → get_bytes m o n ≡ get_bytes m' o n
unfolding get_bytes
get_bytes-agree m m' o zero same = refl
get_bytes-agree m m' o (suc n) same =
    let here = same o (omega arith) (omega arith) in
    let rest = get_bytes-agree m m' (o + 1) n (λ i lo hi. same i (omega arith) (omega arith)) in cc

-- What a store wrote is read back.
pub get_bytes-set_bytes :
    (m : Memory) (o : ℕ) (bs : Bytes) → get_bytes (set_bytes m o bs) o (length bs) ≡ bs
unfolding get_bytes set_bytes
get_bytes-set_bytes m o [] = refl
get_bytes-set_bytes m o (b ∷ bs) =
    let here = set_bytes-before (set m o b) (o + 1) bs o (omega arith) in
    let rest = get_bytes-set_bytes (set m o b) (o + 1) bs in ground arith

get_bytes-suc : (m : Memory) (o n : ℕ) → get_bytes m o (suc n) ≡ m o ∷ get_bytes m (o + 1) n
unfolding get_bytes
get_bytes-suc m o n = refl

pub get_bytes-add :
    (m : Memory) (o a b : ℕ) → get_bytes m o (a + b) ≡ get_bytes m o a ++ get_bytes m (o + a) b
unfolding get_bytes
get_bytes-add m o zero b = ground arith
get_bytes-add m o (suc a) b =
    let first = get_bytes-suc m o (a + b) in
    let rest = get_bytes-add m (o + 1) a b in
    let e1 : suc a + b ≡ suc (a + b) = omega arith in
    let e2 : o + 1 + a ≡ o + suc a = omega arith in cc
