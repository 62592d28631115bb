-- ===== src/Bundled/Lifecycle.antt =====
-- src/librabbitmq/amqp_connection.c, the sizes and the buffers of a connection: `amqp_tune_connection`,
-- the release of its pools, and its socket.
pub mod Buffers
pub mod Creation
use pg_amqp.Base.{ℕ, Bool, true, false, not, ◌&&◌, if◌then◌else◌, ℤ, ◌∷◌}
use pg_amqp.Bundled.Pool.{
  HeapCalls, Memory, grow, out_of_memory, Pool, State, set_pool, init_amqp_pool, recycle_amqp_pool,
  empty_amqp_pool,
}
use pg_amqp.Bundled.Input.{
  Phase, idle, waiting_for_header, waiting_for_body, waiting_for_protocol_header, Inbound,
}

-- `struct amqp_connection_state_t_`, without the socket's input buffer; `frames_queued` is whether
-- `first_queued_frame` is not NULL. Both pools take their blocks from one heap.
pub record ConnectionState : Type 0 where
  pub frame_pool : Pool
  pub decoding_pool : Pool
  pub calls : HeapCalls
  pub inbound : Inbound
  pub outbound_len : ℕ
  pub channel_max : ℕ
  pub frame_max : ℕ
  pub heartbeat : ℕ
  pub sockfd : ℤ
  pub frames_queued : Bool

-- How a function ends: by its result 0, by -ENOMEM, where the connection is destroyed, or by an abort.
pub data Ending : Type 0 where
  done no_memory aborted : Ending

abbrev pub is_idle : Phase → Bool
is_idle idle = true
is_idle _ = false

unfoldable pub amqp_set_sockfd : ℤ → ConnectionState → ConnectionState
amqp_set_sockfd fd s = record s { sockfd = fd }

-- The pools of `amqp_destroy_connection`.
unfoldable pub empty_pools : ConnectionState → ConnectionState
empty_pools s =
    let f = empty_amqp_pool (set_pool s.frame_pool s.calls) in
    let d = empty_amqp_pool (set_pool s.decoding_pool f.calls) in
    record s { frame_pool = f.pool; decoding_pool = d.pool; calls = d.calls }

module _ (mem : Memory) where
  -- `amqp_tune_connection` behind ENFORCE_STATE.
  unfoldable pub resize : ℕ → ℕ → ℕ → ConnectionState → Ending × ConnectionState
  unfolding empty_pools
  resize channel_max frame_max heartbeat s =
      let f = empty_amqp_pool (set_pool s.frame_pool s.calls) in
      let sized : ConnectionState = record s {
        channel_max = channel_max;
        frame_max = frame_max;
        heartbeat = heartbeat;
        frame_pool = init_amqp_pool frame_max;
        calls = f.calls;
        inbound = record (s.inbound) { buffer_len = frame_max };
        outbound_len = frame_max;
      } in
      if mem f.calls frame_max
      then (done, record sized { calls = grow ∷ f.calls })
      else (no_memory, empty_pools (record sized { calls = out_of_memory ∷ f.calls }))

  unfoldable pub amqp_tune_connection : ℕ → ℕ → ℕ → ConnectionState → Ending × ConnectionState
  unfolding resize
  amqp_tune_connection channel_max frame_max heartbeat s =
      if is_idle s.inbound.phase then resize channel_max frame_max heartbeat s else (aborted, s)

unfoldable pub amqp_release_buffers_ok : ConnectionState → Bool
amqp_release_buffers_ok s = is_idle s.inbound.phase && not s.frames_queued

-- The two calls of `recycle_amqp_pool`.
unfoldable pub recycle_pools : ConnectionState → ConnectionState
recycle_pools s =
    let f = recycle_amqp_pool (set_pool s.frame_pool s.calls) in
    let d = recycle_amqp_pool (set_pool s.decoding_pool f.calls) in
    record s { frame_pool = f.pool; decoding_pool = d.pool; calls = d.calls }

unfoldable pub amqp_release_buffers : ConnectionState → Ending × ConnectionState
unfolding recycle_pools
amqp_release_buffers s =
    if not (is_idle s.inbound.phase)
    then (aborted, s)
    else (if s.frames_queued then (aborted, s) else (done, recycle_pools s))

unfoldable pub amqp_maybe_release_buffers : ConnectionState → Ending × ConnectionState
unfolding amqp_release_buffers amqp_release_buffers_ok
amqp_maybe_release_buffers s =
    if amqp_release_buffers_ok s then amqp_release_buffers s else (done, s)
