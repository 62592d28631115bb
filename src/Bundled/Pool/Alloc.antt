-- ===== src/Bundled/Pool/Alloc.antt =====
-- `amqp_pool_alloc` on all its paths, and any number of calls of it.
use pg_amqp.Base.{
  ℕ, ◌+◌, ◌%◌, ◌^◌, ◌≤◌, ◌<◌, ◌≡◌, inl, inr, refl, true, false, Option, none, some, List, [], ◌∷◌,
  ◌++◌, ltb, leb, ◌==◌, if◌then◌else◌, length, get_elem?, All-map, arith, chosen, chosen_by,
  drop-beyond,
}
use pg_amqp.Bundled.Pool.{
  HeapCalls, Memory, calloc, out_of_memory, grow, next_block, Pool, State, Region, rounded,
  can_record, set_pool, alloc_large, alloc_new_page, alloc_page, alloc_small, amqp_pool_alloc,
}
use pg_amqp.Bundled.Pool.Regions.{waiting, Behind, Current, InOrder, InOrder-calloc}
use pg_amqp.Bundled.Pool.Clear.{Allocated}
use pg_amqp.Bundled.Pool.Disjoint.{
  bump-Allocated, reuse-Allocated, fresh-Allocated, unrecorded-InOrder, no_page-InOrder,
}

fits_page : (a b : ℕ) → leb a b ≡ true → a ≤ b
fits_page a b h = ground arith

-- A new block is behind the current page.
Current-Behind :
    (cs : HeapCalls) (rest : List ℕ) (pagesize used size : ℕ) (o : Option ℕ)
    → Current cs rest pagesize o
    → Behind o used (record { block = next_block cs; offset = 0; size = size })
Current-Behind cs rest pagesize used size none c = tt
Current-Behind cs rest pagesize used size (some b) ((old, sized), apart) = inl (inr old)

module _ (mem : Memory) (rs : List Region) (size : ℕ) (whole : size % 8 ≡ 0) where
  alloc_page-Allocated :
      (p : Pool) (cs : HeapCalls) (found : Option ℕ)
      → InOrder (set_pool p cs) rs
      → get_elem? p.pages p.next_page ≡ found
      → size ≤ p.pagesize
      → Allocated rs size (alloc_page mem size found (set_pool p cs))
  unfolding alloc_page alloc_new_page
  alloc_page-Allocated p cs (some b) v at_next fits =
      reuse-Allocated rs size whole mem p cs v b at_next fits
  alloc_page-Allocated p cs none v at_next fits =
      let b = next_block cs in
      let pages = p.pages ++ (b ∷ []) in
      let q = record p { alloc_block = some b } in
      let found = calloc p.pagesize ∷ cs in
      chosen (Allocated rs size) (mem cs p.pagesize)
        (if can_record mem p.pages found
          then (
            some (record { block = b; offset = 0; size = size }),
            set_pool (record q { pages = pages; next_page = length pages; alloc_used = size })
                (grow ∷ found),
          )
          else (none, set_pool q (out_of_memory ∷ found)))
        (none, set_pool (record q { alloc_block = none }) (out_of_memory ∷ cs))
        (chosen (Allocated rs size) (can_record mem p.pages found)
          (
            some (record { block = b; offset = 0; size = size }),
            set_pool (record q { pages = pages; next_page = length pages; alloc_used = size })
                (grow ∷ found),
          )
          (none, set_pool q (out_of_memory ∷ found)) (fresh-Allocated rs size whole mem p cs v fits)
          (unrecorded-InOrder rs size whole mem p cs v (drop-beyond p.pages p.next_page at_next)))
        (no_page-InOrder rs size whole mem p cs v)

  alloc_small-Allocated :
      (p : Pool) (cs : HeapCalls) (o : Option ℕ)
      → InOrder (set_pool (record p { alloc_block = o }) cs) rs
      → size ≤ p.pagesize
      → Allocated rs size (alloc_small mem size o (set_pool (record p { alloc_block = o }) cs))
  unfolding alloc_small
  alloc_small-Allocated p cs none v fits =
      alloc_page-Allocated (record p { alloc_block = none }) cs (get_elem? p.pages p.next_page) v
        refl fits
  alloc_small-Allocated p cs (some b) v fits =
      let q = record p { alloc_block = some b } in
      let next = alloc_page-Allocated q cs (get_elem? p.pages p.next_page) v refl fits in
      chosen_by (Allocated rs size) (leb (p.alloc_used + size) p.pagesize)
        (
          some (record { block = b; offset = p.alloc_used; size = size }),
          set_pool (record q { alloc_used = p.alloc_used + size }) cs,
        )
        (alloc_page mem size (get_elem? p.pages p.next_page) (set_pool q cs))
        (λ h. bump-Allocated rs size whole p cs b v (fits_page (p.alloc_used + size) p.pagesize h))
        (λ h. next)

  alloc_large-Allocated :
      (p : Pool) (cs : HeapCalls)
      → InOrder (set_pool p cs) rs
      → Allocated rs size (alloc_large mem size (set_pool p cs))
  unfolding alloc_large
  alloc_large-Allocated p cs v =
      let b = next_block cs in
      let found = calloc size ∷ cs in
      let w = InOrder-calloc p cs rs size v in
      chosen (Allocated rs size) (mem cs size)
        (if can_record mem p.large_blocks found
          then (
            some (record { block = b; offset = 0; size = size }),
            set_pool (record p { large_blocks = p.large_blocks ++ (b ∷ []) }) (grow ∷ found),
          )
          else (none, set_pool p (out_of_memory ∷ found)))
        (none, set_pool p (out_of_memory ∷ cs))
        (chosen (Allocated rs size) (can_record mem p.large_blocks found)
          (
            some (record { block = b; offset = 0; size = size }),
            set_pool (record p { large_blocks = p.large_blocks ++ (b ∷ []) }) (grow ∷ found),
          )
          (none, set_pool p (out_of_memory ∷ found))
          (
            record {
              filled = v.filled;
              aligned = v.aligned;
              owned = w.owned;
              separate = w.separate;
              pages = w.pages;
              apart = v.apart;
              current = w.current;
              given = (
                (
                  omega arith,
                  ground arith,
                  refl,
                  All-map (λ x h. inr h.0) (waiting p) v.pages,
                  Current-Behind cs (waiting p) p.pagesize p.alloc_used size p.alloc_block
                      v.current,
                ),
                w.given,
              );
            },
            All-map (λ r h. inl (inr h.0)) rs v.given,
            omega arith,
          )
          (record {
            filled = v.filled;
            aligned = v.aligned;
            owned = w.owned;
            separate = w.separate;
            pages = w.pages;
            apart = v.apart;
            current = w.current;
            given = w.given;
          }))
        (record {
          filled = v.filled;
          aligned = v.aligned;
          owned = v.owned;
          separate = v.separate;
          pages = v.pages;
          apart = v.apart;
          current = v.current;
          given = v.given;
        })

-- The rounded amount, where it does not wrap.
rounded-fits :
    (amount : ℕ) → amount + 7 < 2 ^ 64 → (amount ≤ rounded amount) × (rounded amount % 8 ≡ 0)
rounded-fits amount small = (omega arith, omega arith)

fewer-Allocated :
    (rs : List Region) (amount size : ℕ) (r : Option Region × State)
    → amount ≤ size
    → Allocated rs size r
    → Allocated rs amount r
fewer-Allocated rs amount size (none, s) h a = a
fewer-Allocated rs amount size (some r, s) h (kept, clear, room) = (kept, clear, omega arith)

below_page : (a b : ℕ) → ltb b a ≡ false → a ≤ b
below_page a b h = ground arith

-- Of a pool that is in order, `amqp_pool_alloc` returns NULL, or a region of at least the amount
-- that lies in its block, starts at a multiple of 8 and overlaps no region handed out before; the pool
-- stays in order.
pub amqp_pool_alloc-Allocated :
    (mem : Memory) (rs : List Region) (amount : ℕ) (s : State)
    → InOrder s rs
    → amount + 7 < 2 ^ 64
    → Allocated rs amount (amqp_pool_alloc mem amount s)
unfolding amqp_pool_alloc
amqp_pool_alloc-Allocated mem rs amount s v small =
    let size = rounded amount in
    let (more, whole) = rounded-fits amount small in
    chosen (Allocated rs amount) (amount == 0) (none, s)
      (if ltb s.pool.pagesize size
        then alloc_large mem size s
        else alloc_small mem size s.pool.alloc_block s)
      v
      (chosen_by (Allocated rs amount) (ltb s.pool.pagesize size) (alloc_large mem size s)
        (alloc_small mem size s.pool.alloc_block s)
        (λ h.
          fewer-Allocated rs amount size (alloc_large mem size s) more
            (alloc_large-Allocated mem rs size whole s.pool s.calls v))
        (λ h. fewer-Allocated rs amount size (alloc_small mem size s.pool.alloc_block s) more (
          alloc_small-Allocated mem rs size whole s.pool s.calls s.pool.alloc_block v
            (below_page size s.pool.pagesize h))))
