-- ===== src/Bundled/Pool/Clear.antt =====
-- Regions that do not overlap, and what a call of `amqp_pool_alloc` comes to.
use pg_amqp.Base.{ℕ, ◌+◌, ◌≤◌, ◌⊎◌, inl, inr, Option, none, some, List, ◌∷◌, All, arith}
use pg_amqp.Bundled.Pool.{HeapCalls, State, Region}
use pg_amqp.Bundled.Pool.Regions.{Apart, Given, InOrder}

pub Apart-sym : (a b : ℕ) → Apart a b → Apart b a
Apart-sym a b (inl h) = inr h
Apart-sym a b (inr h) = inl h

-- Regions of different blocks, or one before the other.
abbrev pub Clear : Region → Region → Type 0
Clear r q =
    Apart r.block q.block ⊎ ((r.offset + r.size ≤ q.offset) ⊎ (q.offset + q.size ≤ r.offset))

-- What a call comes to: no region and a pool that is in order, or a region of at least the amount,
-- clear of the others, and a pool that is in order with it.
abbrev pub Allocated : List Region → ℕ → Option Region × State → Type 0
Allocated rs amount (none, s) = InOrder s rs
Allocated rs amount (some r, s) = InOrder s (r ∷ rs) × All (Clear r) rs × (amount ≤ r.size)

-- The regions stay behind the used part as it grows.
pub Given-grows :
    (cs : HeapCalls) (rest : List ℕ) (b used size : ℕ) (r : Region)
    → Given cs rest (some b) used r
    → Given cs rest (some b) (used + size) r
Given-grows cs rest b used size r (old, inside, aligned, apart, inl h) =
    (old, inside, aligned, apart, inl h)
Given-grows cs rest b used size r (old, inside, aligned, apart, inr h) =
    (old, inside, aligned, apart, inr (omega arith))

pub Given-Clear :
    (cs : HeapCalls) (rest : List ℕ) (b used size : ℕ) (r : Region)
    → Given cs rest (some b) used r
    → Clear (record { block = b; offset = used; size = size }) r
Given-Clear cs rest b used size r (old, inside, aligned, apart, inl (inl h)) = inl (inr h)
Given-Clear cs rest b used size r (old, inside, aligned, apart, inl (inr h)) = inl (inl h)
Given-Clear cs rest b used size r (old, inside, aligned, apart, inr h) = inr (inr h)
