-- ===== src/Bundled/Pool/Filled.antt =====
-- `amqp_pool_alloc` returns NULL only for no bytes or where an allocation fails.
use pg_amqp.Base.{
  ℕ, ◌≡◌, ◌⊎◌, inl, inr, Option, none, some, false, ltb, leb, ◌==◌, if◌then◌else◌, arith, chosen_by,
  chosen, ◌+◌,
}
use pg_amqp.Bundled.Pool.{
  HeapCalls, Memory, State, Region, rounded, alloc_page, alloc_new_page, alloc_small, alloc_large,
  amqp_pool_alloc,
}

-- An allocation fails at some time.
abbrev pub RunsOut : Memory → Type 0
RunsOut mem = (cs : HeapCalls) × (n : ℕ) × (mem cs n ≡ false)

module _ (mem : Memory) where
  -- Where the pool has no region for some bytes, an allocation fails.
  abbrev pub Filled : ℕ → Option Region × State → Type 0
  Filled n (none, h) = (n ≡ 0) ⊎ RunsOut mem
  Filled n (some r, h) = Unit

  new_block-Filled :
      (n : ℕ) (cs ds : HeapCalls) (k l : ℕ) (r : Region) (x y z : State)
      → Filled n (if mem cs k then (if mem ds l then (some r, x) else (none, y)) else (none, z))
  new_block-Filled n cs ds k l r x y z =
      chosen_by (Filled n) (mem cs k) _ _
        (λ _. chosen_by (Filled n) (mem ds l) _ _ (λ _. tt) (λ h. inr (ds, l, h)))
        (λ h. inr (cs, k, h))

  alloc_page-Filled : (n size : ℕ) (o : Option ℕ) (h : State) → Filled n (alloc_page mem size o h)
  unfolding alloc_page alloc_new_page
  alloc_page-Filled n size none h = new_block-Filled n _ _ _ _ _ _ _ _
  alloc_page-Filled n size (some b) h = tt

  alloc_small-Filled : (n size : ℕ) (o : Option ℕ) (h : State) → Filled n (alloc_small mem size o h)
  unfolding alloc_small
  alloc_small-Filled n size none h = alloc_page-Filled n size _ h
  alloc_small-Filled n size (some b) h =
      chosen (Filled n) (leb (h.pool.alloc_used + size) h.pool.pagesize) _ _ tt
        (alloc_page-Filled n size _ h)

  pub amqp_pool_alloc-Filled : (n : ℕ) (h : State) → Filled n (amqp_pool_alloc mem n h)
  unfolding amqp_pool_alloc alloc_large
  amqp_pool_alloc-Filled n h =
      chosen_by (Filled n) (n == 0) _ _ (λ z. inl (ground arith))
        (λ _.
          chosen (Filled n) (ltb h.pool.pagesize (rounded n)) _ _
            (new_block-Filled n _ _ _ _ _ _ _ _) (alloc_small-Filled n (rounded n) _ h))
