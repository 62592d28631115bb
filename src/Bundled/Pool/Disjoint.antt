-- ===== src/Bundled/Pool/Disjoint.antt =====
-- `amqp_pool_alloc` hands out regions that do not overlap.
use pg_amqp.Base.{
  All-snoc, ℕ, ◌+◌, ◌%◌, ◌≤◌, ◌<◌, ◌≡◌, inl, inr, refl, none, some, List, [], ◌∷◌, ◌++◌, length,
  get_elem?, All, All-map, arith, drop-get_elem, drop-length,
}
use mathlib.Core.Path.{subst, subst⁻¹}
use pg_amqp.Bundled.Pool.{
  HeapCalls, Memory, calloc, out_of_memory, grow, next_block, Pool, Region, set_pool, alloc_page,
}
use pg_amqp.Bundled.Pool.Regions.{
  AllApart-snoc, Apart, AllApart, size_of, IsBlock, waiting, InOrder, Given-calloc, InOrder-calloc,
}
use pg_amqp.Bundled.Pool.Clear.{Apart-sym, Allocated, Given-grows, Given-Clear}

module _ (rs : List Region) (size : ℕ) (whole : size % 8 ≡ 0) where
  -- The next part of the current page.
  pub bump-Allocated :
      (p : Pool) (cs : HeapCalls) (b : ℕ)
      → InOrder (record { pool = record p { alloc_block = some b }; calls = cs }) rs
      → p.alloc_used + size ≤ p.pagesize
      → Allocated rs size (
        some (record { block = b; offset = p.alloc_used; size = size }),
        record {
          pool = record p { alloc_block = some b; alloc_used = p.alloc_used + size };
          calls = cs;
        },
      )
  bump-Allocated p cs b v fits =
      let ((old, sized), apart) = v.current in
      (
        record {
          filled = fits;
          aligned = (let a = v.aligned in omega arith);
          owned = v.owned;
          separate = v.separate;
          pages = v.pages;
          apart = v.apart;
          current = v.current;
          given = (
            (old, omega arith, v.aligned, apart, inr (omega arith)),
            All-map (Given-grows cs (waiting p) b p.alloc_used size) rs v.given,
          );
        },
        All-map (Given-Clear cs (waiting p) b p.alloc_used size) rs v.given,
        omega arith,
      )

  -- A page that waited, or a new one: it is apart from all regions.
  page-Allocated :
      (q : Pool) (cs : HeapCalls) (b : ℕ)
      → size ≤ q.pagesize
      → All (IsBlock cs q.pagesize) q.pages
      → AllApart q.pages
      → IsBlock cs q.pagesize b
      → All (Apart b) (waiting q)
      → All (IsBlock cs q.pagesize) (waiting q)
      → AllApart (waiting q)
      → All
          (λ r.
            (r.block < next_block cs)
            × (r.offset + r.size ≤ size_of cs r.block)
            × (r.offset % 8 ≡ 0)
            × All (Apart r.block) (b ∷ waiting q))
          rs
      → Allocated rs size (
        some (record { block = b; offset = 0; size = size }),
        record { pool = record q { alloc_block = some b; alloc_used = size }; calls = cs },
      )
  page-Allocated q cs b fits owned separate (old, sized) apart pages distinct given = (
    record {
      filled = fits;
      aligned = whole;
      owned = owned;
      separate = separate;
      pages = pages;
      apart = distinct;
      current = ((old, sized), apart);
      given = (
        (old, omega arith, refl, apart, inr (omega arith)),
        All-map (λ r h. (h.0, h.1, h.2, h.3.1, inl h.3.0)) rs given,
      );
    },
    All-map (λ r h. inl (Apart-sym r.block b h.3.0)) rs given,
    omega arith,
  )

  module _ (mem : Memory) (p : Pool) (cs : HeapCalls) (v : InOrder (set_pool p cs) rs) where
    pub reuse-Allocated :
        (b : ℕ)
        → get_elem? p.pages p.next_page ≡ some b
        → size ≤ p.pagesize
        → Allocated rs size (alloc_page mem size (some b) (set_pool p cs))
    unfolding alloc_page
    reuse-Allocated b at_next fits =
        let eq = drop-get_elem p.pages p.next_page b at_next in
        let (block, pages) = subst (λ l. All (IsBlock cs p.pagesize) l) eq v.pages in
        let (apart, distinct) = subst AllApart eq v.apart in
        page-Allocated (record p { next_page = p.next_page + 1 }) cs b fits v.owned v.separate block
          apart pages distinct
          (All-map (λ r h. (h.0, h.1, h.2, subst (λ l. All (Apart r.block) l) eq h.3)) rs v.given)

    -- A new page, in the array of pages.
    pub fresh-Allocated :
        size ≤ p.pagesize
        → let b = next_block cs in
          Allocated rs size (
            some (record { block = b; offset = 0; size = size }),
            set_pool
                (record p {
                  pages = p.pages ++ (b ∷ []);
                  next_page = length (p.pages ++ (b ∷ []));
                  alloc_block = some b;
                  alloc_used = size;
                })
                (grow ∷ calloc p.pagesize ∷ cs),
          )
    fresh-Allocated fits =
        let b = next_block cs in
        let pages = p.pages ++ (b ∷ []) in
        let q = record p { pages = pages; next_page = length pages } in
        let none_waits = drop-length pages in
        let w = InOrder-calloc p cs rs p.pagesize v in
        page-Allocated q (grow ∷ calloc p.pagesize ∷ cs) b fits
          (All-snoc (IsBlock (calloc p.pagesize ∷ cs) p.pagesize) p.pages b w.owned
            (omega arith, ground arith))
          (AllApart-snoc p.pages b v.separate (All-map (λ x h. h.0) p.pages v.owned))
          (omega arith, ground arith) (subst⁻¹ (λ l. All (Apart b) l) none_waits tt)
          (subst⁻¹ (λ l. All (IsBlock (calloc p.pagesize ∷ cs) p.pagesize) l) none_waits tt)
          (subst⁻¹ AllApart none_waits tt)
          (All-map
            (λ r h.
              let (old, inside, aligned, apart, behind) =
                Given-calloc cs (waiting p) p.alloc_block p.alloc_used p.pagesize r h in
              (old, inside, aligned, (inl h.0, subst⁻¹ (λ l. All (Apart r.block) l) none_waits tt)))
            rs v.given)

    -- A new page that the array of pages has no room for.
    pub unrecorded-InOrder :
        waiting p ≡ []
        → InOrder
            (set_pool
              (record p { alloc_block = some (next_block cs) })
              (out_of_memory ∷ calloc p.pagesize ∷ cs))
            rs
    unrecorded-InOrder none_waits =
        let w = InOrder-calloc p cs rs p.pagesize v in
        record {
          filled = v.filled;
          aligned = v.aligned;
          owned = w.owned;
          separate = w.separate;
          pages = w.pages;
          apart = v.apart;
          current = (
            (omega arith, ground arith),
            subst⁻¹ (λ l. All (Apart (next_block cs)) l) none_waits tt,
          );
          given =
              All-map
                (λ r h.
                  let (old, inside, aligned, apart, behind) =
                    Given-calloc cs (waiting p) p.alloc_block p.alloc_used p.pagesize r h in
                  (old, inside, aligned, apart, inl (inl h.0)))
                rs v.given;
        }

    -- No new page.
    pub no_page-InOrder :
        InOrder (set_pool (record p { alloc_block = none }) (out_of_memory ∷ cs)) rs
    no_page-InOrder = record {
      filled = v.filled;
      aligned = v.aligned;
      owned = v.owned;
      separate = v.separate;
      pages = v.pages;
      apart = v.apart;
      current = tt;
      given = All-map (λ r h. (h.0, h.1, h.2, h.3, tt)) rs v.given;
    }
