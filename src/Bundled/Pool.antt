-- ===== src/Bundled/Pool.antt =====
-- src/librabbitmq/amqp_mem.c, the pool from which frames and decoded values are allocated: pages of
-- one size that are filled from the front and used again after a recycle, and large blocks. Blocks
-- are numbered in the order in which calloc returns them; the arrays of block pointers are lists.
pub mod Regions
pub mod Clear
pub mod Disjoint
pub mod Alloc
pub mod History
pub mod Filled
use pg_amqp.Base.{
  ℕ, zero, suc, ◌+◌, ◌*◌, ◌/◌, ◌%◌, ◌^◌, Bool, true, false, not, Option, none, some, List, [], ◌∷◌,
  ◌++◌, ltb, leb, ◌==◌, if◌then◌else◌, length, get_elem?,
}

-- What the pool asks of malloc, calloc, realloc and free, the latest first.
pub data HeapCall : Type 0 where
  calloc : ℕ → HeapCall
  out_of_memory grow : HeapCall
  free : ℕ → HeapCall
  free_list : HeapCall

abbrev pub HeapCalls : Type 0
HeapCalls = List HeapCall

-- Whether the next allocation, of so many bytes, succeeds.
abbrev pub Memory : Type 0
Memory = HeapCalls → ℕ → Bool

-- The number of the next block.
abbrev pub next_block : HeapCalls → ℕ
next_block [] = 0
next_block (calloc n ∷ cs) = next_block cs + 1
next_block (_ ∷ cs) = next_block cs

-- `amqp_pool_t`; a block list is the blocks, the first one first.
pub record Pool : Type 0 where
  pub pagesize : ℕ
  pub pages : List ℕ
  pub large_blocks : List ℕ
  pub next_page : ℕ
  pub alloc_block : Option ℕ
  pub alloc_used : ℕ

-- A pool and the calls it made.
pub record State : Type 0 where
  pub pool : Pool
  pub calls : HeapCalls

-- A pointer that was returned, with the bytes that it stands for.
pub record Region : Type 0 where
  pub block : ℕ
  pub offset : ℕ
  pub size : ℕ

-- sizeof(void *)
abbrev pub pointer_size : ℕ
pointer_size = 8

unfoldable pub init_amqp_pool : ℕ → Pool
init_amqp_pool pagesize = record {
  pagesize = if pagesize == 0 then 4096 else pagesize;
  pages = [];
  large_blocks = [];
  next_page = 0;
  alloc_block = none;
  alloc_used = 0;
}

-- The frees of `empty_blocklist`.
unfoldable pub empty_blocklist : List ℕ → HeapCalls → HeapCalls
empty_blocklist [] cs = cs
empty_blocklist (b ∷ bs) cs = empty_blocklist bs (free b ∷ cs)

unfoldable pub free_blocklist : List ℕ → HeapCalls → HeapCalls
unfolding empty_blocklist
free_blocklist [] cs = cs
free_blocklist (b ∷ bs) cs = free_list ∷ empty_blocklist (b ∷ bs) cs

unfoldable pub recycle_amqp_pool : State → State
unfolding free_blocklist
recycle_amqp_pool s = record {
  pool = record (s.pool) { large_blocks = []; next_page = 0; alloc_block = none; alloc_used = 0 };
  calls = free_blocklist s.pool.large_blocks s.calls;
}

unfoldable pub empty_amqp_pool : State → State
unfolding recycle_amqp_pool free_blocklist
empty_amqp_pool s =
    let r = recycle_amqp_pool s in
    record { pool = record (r.pool) { pages = [] }; calls = free_blocklist r.pool.pages r.calls }

-- `(amount + 7) & (~7)`, on `size_t`
abbrev pub rounded : ℕ → ℕ
rounded amount = (amount + 7) % 2 ^ 64 / 8 * 8

abbrev pub set_pool : Pool → HeapCalls → State
set_pool p cs = record { pool = p; calls = cs }

module _ (mem : Memory) where
  -- `record_pool_block`: whether the array could grow by one pointer.
  abbrev pub can_record : List ℕ → HeapCalls → Bool
  can_record bs cs = mem cs (pointer_size * (length bs + 1))

  -- `amount > pool->pagesize`
  unfoldable pub alloc_large : ℕ → State → Option Region × State
  alloc_large amount s =
      let b = next_block s.calls in
      let found = calloc amount ∷ s.calls in
      if mem s.calls amount
      then (if can_record s.pool.large_blocks found
          then (
            some (record { block = b; offset = 0; size = amount }),
            set_pool (record (s.pool) { large_blocks = s.pool.large_blocks ++ (b ∷ []) })
                (grow ∷ found),
          )
          else (none, set_pool s.pool (out_of_memory ∷ found)))
      else (none, set_pool s.pool (out_of_memory ∷ s.calls))

  -- A page that calloc returns.
  unfoldable pub alloc_new_page : ℕ → State → Option Region × State
  alloc_new_page amount s =
      let b = next_block s.calls in
      let p = record (s.pool) { alloc_block = some b } in
      let pages = s.pool.pages ++ (b ∷ []) in
      let found = calloc s.pool.pagesize ∷ s.calls in
      if mem s.calls s.pool.pagesize
      then (if can_record s.pool.pages found
          then (
            some (record { block = b; offset = 0; size = amount }),
            set_pool (record p { pages = pages; next_page = length pages; alloc_used = amount })
                (grow ∷ found),
          )
          else (none, set_pool p (out_of_memory ∷ found)))
      else (none, set_pool (record p { alloc_block = none }) (out_of_memory ∷ s.calls))

  -- The next page: one that is there, or a new one.
  unfoldable pub alloc_page : ℕ → Option ℕ → State → Option Region × State
  unfolding alloc_new_page
  alloc_page amount none s = alloc_new_page amount s
  alloc_page amount (some b) s = (
    some (record { block = b; offset = 0; size = amount }),
    set_pool
        (record (s.pool) {
          alloc_block = some b;
          next_page = s.pool.next_page + 1;
          alloc_used = amount;
        })
        s.calls,
  )

  -- By `pool->alloc_block`.
  unfoldable pub alloc_small : ℕ → Option ℕ → State → Option Region × State
  unfolding alloc_page
  alloc_small amount none s = alloc_page amount (get_elem? s.pool.pages s.pool.next_page) s
  alloc_small amount (some b) s =
      if leb (s.pool.alloc_used + amount) s.pool.pagesize
      then (
        some (record { block = b; offset = s.pool.alloc_used; size = amount }),
        set_pool (record (s.pool) { alloc_used = s.pool.alloc_used + amount }) s.calls,
      )
      else alloc_page amount (get_elem? s.pool.pages s.pool.next_page) s

  -- `amqp_pool_alloc`
  unfoldable pub amqp_pool_alloc : ℕ → State → Option Region × State
  unfolding alloc_large alloc_small
  amqp_pool_alloc amount s =
      let size = rounded amount in
      if amount == 0
      then (none, s)
      else (if ltb s.pool.pagesize size
          then alloc_large size s
          else alloc_small size s.pool.alloc_block s)
