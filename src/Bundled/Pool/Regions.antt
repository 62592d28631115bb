-- ===== src/Bundled/Pool/Regions.antt =====
-- The order that a pool keeps: its pages have the size of a page, those that wait for use are apart
-- from each other, from the current page and from every region that is handed out.
use pg_amqp.Base.{
  ◌++◌, inl, All-snoc, ℕ, ◌+◌, ◌%◌, ◌≤◌, ◌<◌, ◌≡◌, ◌⊎◌, refl, Option, none, some, List, [], ◌∷◌,
  ◌==◌, if◌then◌else◌, drop, All, All-map, arith,
}
use pg_amqp.Bundled.Pool.{HeapCalls, calloc, next_block, Pool, State, Region}

abbrev pub Apart : ℕ → ℕ → Type 0
Apart a b = (a < b) ⊎ (b < a)

abbrev pub AllApart : List ℕ → Type 0
AllApart [] = Unit
AllApart (b ∷ bs) = All (Apart b) bs × AllApart bs

-- The size for which calloc was called; 0 for a block that it did not return.
abbrev pub size_of : HeapCalls → ℕ → ℕ
size_of [] b = 0
size_of (calloc n ∷ cs) b = if b == next_block cs then n else size_of cs b
size_of (_ ∷ cs) b = size_of cs b

-- A block of a pool.
abbrev pub IsBlock : HeapCalls → ℕ → ℕ → Type 0
IsBlock cs size b = (b < next_block cs) × (size_of cs b ≡ size)

-- The pages that were filled before the last recycle and wait for use.
abbrev pub waiting : Pool → List ℕ
waiting p = drop p.next_page p.pages

-- A region of another block than the current page, or of its used part.
abbrev pub Behind : Option ℕ → ℕ → Region → Type 0
Behind none used r = Unit
Behind (some b) used r = Apart r.block b ⊎ (r.offset + r.size ≤ used)

-- A region that is handed out: within its block, aligned, and out of the pool's further use.
abbrev pub Given : HeapCalls → List ℕ → Option ℕ → ℕ → Region → Type 0
Given cs rest current used r =
    (r.block < next_block cs)
    × (r.offset + r.size ≤ size_of cs r.block)
    × (r.offset % 8 ≡ 0)
    × All (Apart r.block) rest
    × Behind current used r

-- The current page, which is apart from those that wait.
abbrev pub Current : HeapCalls → List ℕ → ℕ → Option ℕ → Type 0
Current cs rest size none = Unit
Current cs rest size (some b) = IsBlock cs size b × All (Apart b) rest

-- A pool that is in order with respect to the regions handed out since the last recycle.
pub record InOrder (s : State) (rs : List Region) : Type 0 where
  pub filled : s.pool.alloc_used ≤ s.pool.pagesize
  pub aligned : s.pool.alloc_used % 8 ≡ 0
  pub owned : All (IsBlock s.calls s.pool.pagesize) s.pool.pages
  pub separate : AllApart s.pool.pages
  pub pages : All (IsBlock s.calls s.pool.pagesize) (waiting s.pool)
  pub apart : AllApart (waiting s.pool)
  pub current : Current s.calls (waiting s.pool) s.pool.pagesize s.pool.alloc_block
  pub given : All (Given s.calls (waiting s.pool) s.pool.alloc_block s.pool.alloc_used) rs

-- More calls of the heap leave the blocks.
pub IsBlock-calloc :
    (cs : HeapCalls) (n size b : ℕ) → IsBlock cs size b → IsBlock (calloc n ∷ cs) size b
IsBlock-calloc cs n size b (old, sized) = (omega arith, ground arith)

pub Current-calloc :
    (cs : HeapCalls) (rest : List ℕ) (size n : ℕ) (o : Option ℕ)
    → Current cs rest size o
    → Current (calloc n ∷ cs) rest size o
Current-calloc cs rest size n none c = tt
Current-calloc cs rest size n (some b) (block, apart) = (IsBlock-calloc cs n size b block, apart)

pub Given-calloc :
    (cs : HeapCalls) (rest : List ℕ) (current : Option ℕ) (used n : ℕ) (r : Region)
    → Given cs rest current used r
    → Given (calloc n ∷ cs) rest current used r
Given-calloc cs rest current used n r (old, inside, aligned, apart, behind) =
    let (old', same) = IsBlock-calloc cs n (size_of cs r.block) r.block (old, refl) in
    (old', omega arith, aligned, apart, behind)

-- One more block that the heap returns.
pub InOrder-calloc :
    (p : Pool) (cs : HeapCalls) (rs : List Region) (n : ℕ)
    → InOrder (record { pool = p; calls = cs }) rs
    → InOrder (record { pool = p; calls = calloc n ∷ cs }) rs
InOrder-calloc p cs rs n v = record {
  filled = v.filled;
  aligned = v.aligned;
  owned = All-map (IsBlock-calloc cs n p.pagesize) p.pages v.owned;
  separate = v.separate;
  pages = All-map (IsBlock-calloc cs n p.pagesize) (waiting p) v.pages;
  apart = v.apart;
  current = Current-calloc cs (waiting p) p.pagesize n p.alloc_block v.current;
  given = All-map (Given-calloc cs (waiting p) p.alloc_block p.alloc_used n) rs v.given;
}

pub AllApart-snoc :
    (bs : List ℕ) (b : ℕ) → AllApart bs → All (λ x. x < b) bs → AllApart (bs ++ b ∷ [])
AllApart-snoc [] b apart below = (tt, tt)
AllApart-snoc (x ∷ bs) b (first, apart) (less, below) =
    (All-snoc (Apart x) bs b first (inl less), AllApart-snoc bs b apart below)
