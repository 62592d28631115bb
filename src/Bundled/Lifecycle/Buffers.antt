-- ===== src/Bundled/Lifecycle/Buffers.antt =====
-- The sizes that a connection agrees on, and that its pools are released at the right time.
use pg_amqp.Base.{ℕ, ◌<◌, ◌≡◌, ◌⊎◌, refl, true, false, none, [], arith, chosen, chosen_by, ◌∷◌}
use pg_amqp.Bundled.Pool.{
  Memory, Pool, grow, out_of_memory, empty_amqp_pool, recycle_amqp_pool, set_pool, init_amqp_pool,
}
use pg_amqp.Bundled.Lifecycle.{
  ConnectionState, Ending, done, no_memory, aborted, is_idle, resize, amqp_tune_connection,
  empty_pools, amqp_release_buffers_ok, recycle_pools, amqp_release_buffers,
  amqp_maybe_release_buffers,
}

-- A pool from the front again, with the pages it had.
abbrev pub Recycled : Pool → Pool → Type 0
Recycled p q =
    (q.pages ≡ p.pages) × (q.next_page ≡ 0) × (q.alloc_block ≡ none) × (q.large_blocks ≡ [])

-- What a release comes to.
abbrev pub Released : ConnectionState → Ending × ConnectionState → Type 0
Released s r =
    (r.0 ≡ done)
    × (((amqp_release_buffers_ok s ≡ false) × (r.1 ≡ s))
        ⊎ ((amqp_release_buffers_ok s ≡ true)
            × Recycled s.frame_pool r.1.frame_pool
            × Recycled s.decoding_pool r.1.decoding_pool))

-- Only an idle connection is tuned. Then the frame size is that of both buffers and of the frame
-- pool's pages, or there is no memory and both pools are empty.
abbrev pub Tuned : ConnectionState → ℕ → Ending × ConnectionState → Type 0
Tuned s n (done, s') =
    (is_idle s.inbound.phase ≡ true)
    × (s'.frame_max ≡ n)
    × (s'.inbound.buffer_len ≡ n)
    × (s'.outbound_len ≡ n)
    × (s'.frame_pool.pagesize ≡ n)
Tuned s n (no_memory, s') =
    (is_idle s.inbound.phase ≡ true) × (s'.frame_pool.pages ≡ []) × (s'.decoding_pool.pages ≡ [])
Tuned s n (aborted, s') = (is_idle s.inbound.phase ≡ false) × (s' ≡ s)

-- `amqp_maybe_release_buffers` never aborts: it does nothing, or, where the connection is idle and no
-- frame waits, lets both pools start from the front with the pages that they have.
pub amqp_maybe_release_buffers-Released :
    (s : ConnectionState) → Released s (amqp_maybe_release_buffers s)
unfolding amqp_maybe_release_buffers amqp_release_buffers amqp_release_buffers_ok recycle_pools
    recycle_amqp_pool
amqp_maybe_release_buffers-Released s = ground arith

-- With a frame size that is not 0, `amqp_tune_connection` aborts and changes nothing where the
-- connection is not idle; else the frame size becomes that of both buffers and of the frame pool's
-- pages, or there is no memory and both pools are left empty.
pub amqp_tune_connection-Tuned :
    (mem : Memory) (channel_max frame_max heartbeat : ℕ) (s : ConnectionState)
    → 0 < frame_max
    → Tuned s frame_max (amqp_tune_connection mem channel_max frame_max heartbeat s)
unfolding amqp_tune_connection resize empty_pools empty_amqp_pool init_amqp_pool
amqp_tune_connection-Tuned mem channel_max frame_max heartbeat s some_size =
    let f = empty_amqp_pool (set_pool s.frame_pool s.calls) in
    let sized : ConnectionState = record s {
      channel_max = channel_max;
      frame_max = frame_max;
      heartbeat = heartbeat;
      frame_pool = init_amqp_pool frame_max;
      calls = f.calls;
      inbound = record (s.inbound) { buffer_len = frame_max };
      outbound_len = frame_max;
    } in
    let page : (init_amqp_pool frame_max).pagesize ≡ frame_max = ground arith in
    chosen_by (Tuned s frame_max) (is_idle s.inbound.phase)
      (resize mem channel_max frame_max heartbeat s) (aborted, s)
      (λ at_rest.
        chosen (Tuned s frame_max) (mem f.calls frame_max)
          (done, record sized { calls = grow ∷ f.calls })
          (no_memory, empty_pools (record sized { calls = out_of_memory ∷ f.calls }))
          (at_rest, refl, refl, refl, page) (at_rest, refl, refl))
      (λ busy. (busy, refl))
