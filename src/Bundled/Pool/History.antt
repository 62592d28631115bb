-- ===== src/Bundled/Pool/History.antt =====
-- Any history of a pool: `amqp_pool_alloc`, `recycle_amqp_pool` and `empty_amqp_pool` in any order.
use pg_amqp.Base.{
  ℕ, ◌+◌, ◌^◌, ◌<◌, ◌≤◌, ◌≡◌, refl, ◌∙◌, Option, none, some, List, [], ◌∷◌, All, All-map, arith,
  ◌%◌,
}
use pg_amqp.Bundled.Pool.{
  HeapCalls, Memory, free, next_block, State, Region, set_pool, amqp_pool_alloc, init_amqp_pool,
  empty_blocklist, free_blocklist, recycle_amqp_pool, empty_amqp_pool,
}
use pg_amqp.Bundled.Pool.Regions.{size_of, IsBlock, InOrder}
use pg_amqp.Bundled.Pool.Clear.{Clear, Allocated}
use pg_amqp.Bundled.Pool.Alloc.{amqp_pool_alloc-Allocated}

-- Calls of the heap that leave the blocks that it returned.
abbrev Same : HeapCalls → HeapCalls → Type 0
Same cs cs' = (next_block cs' ≡ next_block cs) × ((b : ℕ) → size_of cs' b ≡ size_of cs b)

empty_blocklist-Same : (bs : List ℕ) (cs : HeapCalls) → Same cs (empty_blocklist bs cs)
unfolding empty_blocklist
empty_blocklist-Same [] cs = (refl, λ b. refl)
empty_blocklist-Same (b ∷ bs) cs = empty_blocklist-Same bs (free b ∷ cs)

free_blocklist-Same : (bs : List ℕ) (cs : HeapCalls) → Same cs (free_blocklist bs cs)
unfolding free_blocklist
free_blocklist-Same [] cs = (refl, λ b. refl)
free_blocklist-Same (b ∷ bs) cs = empty_blocklist-Same (b ∷ bs) cs

IsBlock-Same :
    (cs cs' : HeapCalls) (size b : ℕ) → Same cs cs' → IsBlock cs size b → IsBlock cs' size b
IsBlock-Same cs cs' size b (next, sizes) (old, sized) = (omega arith, sizes b ∙ sized)

-- After a recycle all pages wait, and no region counts as handed out.
recycle-InOrder : (rs : List Region) (s : State) → InOrder s rs → InOrder (recycle_amqp_pool s) []
unfolding recycle_amqp_pool
recycle-InOrder rs s v =
    let same = free_blocklist-Same s.pool.large_blocks s.calls in
    let cs' = free_blocklist s.pool.large_blocks s.calls in
    let owned =
      All-map (λ b h. IsBlock-Same s.calls cs' s.pool.pagesize b same h) s.pool.pages v.owned in
    record {
      filled = omega arith;
      aligned = refl;
      owned = owned;
      separate = v.separate;
      pages = owned;
      apart = v.separate;
      current = tt;
      given = tt;
    }

-- Nor is there a page after the pool is emptied.
empty-InOrder : (rs : List Region) (s : State) → InOrder s rs → InOrder (empty_amqp_pool s) []
unfolding empty_amqp_pool recycle_amqp_pool
empty-InOrder rs s v = record {
  filled = omega arith;
  aligned = refl;
  owned = tt;
  separate = tt;
  pages = tt;
  apart = tt;
  current = tt;
  given = tt;
}

init-InOrder : (pagesize : ℕ) (cs : HeapCalls) → InOrder (set_pool (init_amqp_pool pagesize) cs) []
unfolding init_amqp_pool
init-InOrder pagesize cs = record {
  filled = omega arith;
  aligned = refl;
  owned = tt;
  separate = tt;
  pages = tt;
  apart = tt;
  current = tt;
  given = tt;
}

pub data Request : Type 0 where
  allocate : ℕ → Request
  recycle empty : Request

-- The regions handed out since the last recycle or emptying, the latest first, each with the amount
-- that was asked.
abbrev pub Grant : Type 0
Grant = ℕ × Region

abbrev pub Held : Type 0
Held = List Grant × State

abbrev hold : ℕ → List Grant → Option Region × State → Held
hold n rs (none, s) = (rs, s)
hold n rs (some r, s) = ((n, r) ∷ rs, s)

unfoldable pub serve : Memory → List Request → Held → Held
serve mem [] h = h
serve mem (allocate n ∷ qs) (rs, s) = serve mem qs (hold n rs (amqp_pool_alloc mem n s))
serve mem (recycle ∷ qs) (rs, s) = serve mem qs ([], recycle_amqp_pool s)
serve mem (empty ∷ qs) (rs, s) = serve mem qs ([], empty_amqp_pool s)

-- An amount whose rounding does not wrap.
abbrev pub Small : Request → Type 0
Small (allocate n) = n + 7 < 2 ^ 64
Small _ = Unit

abbrev pub AllClear : List Region → Type 0
AllClear [] = Unit
AllClear (r ∷ rs) = All (Clear r) rs × AllClear rs

abbrev pub regions : List Grant → List Region
regions [] = []
regions ((n, r) ∷ gs) = r ∷ regions gs

-- A region has the bytes that were asked.
abbrev pub Enough : Grant → Type 0
Enough (n, r) = n ≤ r.size

-- A region that lies in a block of its pool and starts at a multiple of 8.
abbrev pub Placed : State → Region → Type 0
Placed s r = (r.offset + r.size ≤ size_of s.calls r.block) × (r.offset % 8 ≡ 0)

-- What holds of the regions that are held.
Fine : Held → Type 0
Fine (gs, s) = InOrder s (regions gs) × AllClear (regions gs) × All Enough gs

hold-Fine :
    (gs : List Grant) (amount : ℕ) (r : Option Region × State)
    → AllClear (regions gs)
    → All Enough gs
    → Allocated (regions gs) amount r
    → Fine (hold amount gs r)
unfolding Fine
hold-Fine gs amount (none, s) clear enough kept = (kept, clear, enough)
hold-Fine gs amount (some r, s) clear enough (kept, first, room) =
    (kept, (first, clear), (room, enough))

serve-Fine :
    (mem : Memory) (qs : List Request) (gs : List Grant) (s : State)
    → Fine (gs, s)
    → All Small qs
    → Fine (serve mem qs (gs, s))
unfolding serve Fine
serve-Fine mem [] gs s fine small = fine
serve-Fine mem (allocate n ∷ qs) gs s (v, clear, enough) (small, rest) =
    let a = amqp_pool_alloc mem n s in
    let next =
      hold-Fine gs n a clear enough (amqp_pool_alloc-Allocated mem (regions gs) n s v small) in
    serve-Fine mem qs (hold n gs a).0 (hold n gs a).1 next rest
serve-Fine mem (recycle ∷ qs) gs s (v, clear, enough) (small, rest) =
    serve-Fine mem qs [] (recycle_amqp_pool s) (recycle-InOrder (regions gs) s v, tt, tt) rest
serve-Fine mem (empty ∷ qs) gs s (v, clear, enough) (small, rest) =
    serve-Fine mem qs [] (empty_amqp_pool s) (empty-InOrder (regions gs) s v, tt, tt) rest

-- Whatever is asked of a new pool, in amounts whose rounding does not wrap: each region handed out
-- since the last recycle or emptying has at least the bytes that were asked for it, lies in its block
-- and starts at a multiple of 8, and no two of them overlap.
pub serve-Placed :
    (mem : Memory) (pagesize : ℕ) (qs : List Request)
    → All Small qs
    → let h = serve mem qs ([], set_pool (init_amqp_pool pagesize) []) in
      All Enough h.0 × All (Placed h.1) (regions h.0) × AllClear (regions h.0)
unfolding Fine
serve-Placed mem pagesize qs small =
    let s = set_pool (init_amqp_pool pagesize) [] in
    let h = serve mem qs ([], s) in
    let (v, clear, enough) = serve-Fine mem qs [] s (init-InOrder pagesize [], tt, tt) small in
    (enough, All-map (λ r g. (g.1, g.2)) (regions h.0) v.given, clear)
