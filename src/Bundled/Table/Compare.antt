-- ===== src/Bundled/Table/Compare.antt =====
-- src/librabbitmq/amqp_table.c, `amqp_table_entry_cmp`, the order of entries by their names, with
-- names below 2 ^ 31 bytes, whose lengths are their `int`s.
use pg_amqp.Base.{ℕ, zero, suc, ◌≡◌, refl, [], ◌∷◌, ltb, if◌then◌else◌, length, arith}
use pg_amqp.Events.{Bytes}

-- A result by its sign.
pub data Sign : Type 0 where
  less same more : Sign

abbrev pub sign : ℕ → ℕ → Sign
sign a b = if ltb a b then less else (if ltb b a then more else same)

-- `memcmp` of the first `n` bytes.
unfoldable pub memcmp : ℕ → Bytes → Bytes → Sign
memcmp zero xs ys = same
memcmp (suc n) (x ∷ xs) (y ∷ ys) =
    let rest = memcmp n xs ys in elim (sign x y) [ same ↦ rest | d ↦ d ]
memcmp (suc n) _ _ = same

unfoldable pub amqp_table_entry_cmp : Bytes → Bytes → Sign
unfolding memcmp
amqp_table_entry_cmp k1 k2 =
    let minlen = if ltb (length k2) (length k1) then length k2 else length k1 in
    elim (memcmp minlen k1 k2) [ same ↦ sign (length k1) (length k2) | d ↦ d ]

-- The order of a dictionary.
unfoldable pub dictionary : Bytes → Bytes → Sign
dictionary [] [] = same
dictionary [] (_ ∷ _) = less
dictionary (_ ∷ _) [] = more
dictionary (x ∷ xs) (y ∷ ys) =
    let rest = dictionary xs ys in if ltb x y then less else (if ltb y x then more else rest)

prefix-dictionary :
    (xs ys : Bytes) (n : ℕ)
    → n ≡ (if ltb (length ys) (length xs) then length ys else length xs)
    → elim (memcmp n xs ys) [ same ↦ sign (length xs) (length ys) | d ↦ d ] ≡ dictionary xs ys
unfolding memcmp dictionary
prefix-dictionary [] [] zero h = refl
prefix-dictionary [] [] (suc n) h = refl
prefix-dictionary [] (y ∷ ys) zero h = ground arith
prefix-dictionary [] (y ∷ ys) (suc n) h = ground arith
prefix-dictionary (x ∷ xs) [] zero h = ground arith
prefix-dictionary (x ∷ xs) [] (suc n) h = ground arith
prefix-dictionary (x ∷ xs) (y ∷ ys) zero h = absurd (ground arith)
prefix-dictionary (x ∷ xs) (y ∷ ys) (suc n) h =
    let shorter : n ≡ (if ltb (length ys) (length xs) then length ys else length xs) =
      ground arith in
    let rest = prefix-dictionary xs ys n shorter in
    let lengths : sign (length (x ∷ xs)) (length (y ∷ ys)) ≡ sign (length xs) (length ys) =
      ground arith in
    ground arith

-- `amqp_table_entry_cmp` orders entries as a dictionary orders their names.
pub amqp_table_entry_cmp-dictionary :
    (k1 k2 : Bytes) → amqp_table_entry_cmp k1 k2 ≡ dictionary k1 k2
unfolding amqp_table_entry_cmp
amqp_table_entry_cmp-dictionary k1 k2 = prefix-dictionary k1 k2 _ refl
