-- ===== src/Connection.antt =====
-- src/pg_amqp.c, the functions on an established connection: `local_amqp_set_timeout`,
-- `local_amqp_disconnect_bs` and `local_amqp_drain_returns`.
pub mod Keeps
pub mod Drain
use pg_amqp.Base.{
  ℕ, ◌*◌, ◌/◌, ◌%◌, Bool, true, false, Option, none, some, List, [], ◌∷◌, if◌then◌else◌,
}
use pg_amqp.Events.{
  Conn, TimeVal, Frame, basic_return, connection_blocked, connection_unblocked, channel_close,
  other_method, other_type, Status, rcvtimeo, sndtimeo, unroutable, blocked_publishers, setsockopt,
  set_rpc_timeout, wait_frame, wait_frame_end, maybe_release_buffers, destroy_connection,
}
use pg_amqp.Events
use pg_amqp.World.{World, WaitEnd, timed_out, failed}
use pg_amqp.Broker.{Ctx, emit, elog, set_blocked}

pub time_val : ℕ → TimeVal
time_val ms = record { sec = ms / 1000; usec = ms % 1000 * 1000 }

-- SO_RCVTIMEO and SO_SNDTIMEO, where there is a descriptor.
unfoldable pub set_socket_timeouts : TimeVal → Option ℕ → Ctx → Ctx
set_socket_timeouts tv none c = c
set_socket_timeouts tv (some fd) c =
    emit (setsockopt fd (sndtimeo tv)) (emit (setsockopt fd (rcvtimeo tv)) c)

unfoldable pub set_conn_timeout : TimeVal → Option Conn → Ctx → Ctx
set_conn_timeout tv none c = c
set_conn_timeout tv (some k) c = emit (set_rpc_timeout k tv) c

-- `local_amqp_set_timeout`
unfoldable pub set_timeout : ℕ → Ctx → Ctx
unfolding set_socket_timeouts set_conn_timeout
set_timeout ms c =
    set_conn_timeout (time_val ms) c.bs.conn (set_socket_timeouts (time_val ms) c.bs.sockfd c)

-- AMQP_GRACEFUL_CLOSE_MS
abbrev pub graceful_close_ms : ℕ
graceful_close_ms = 500

unfoldable pub graceful_close : Conn → Ctx → Ctx
graceful_close k c =
    emit (Events.connection_close k)
      (emit (set_rpc_timeout k (record { sec = 0; usec = graceful_close_ms * 1000 })) c)

-- The body of `if(bs && bs->conn)` in `local_amqp_disconnect_bs`, by what `bs->conn` is.
unfoldable pub disconnect_conn : Bool → Option Conn → Ctx → Ctx
unfolding graceful_close
disconnect_conn graceful none c = c
disconnect_conn graceful (some k) c =
    let closed = emit (destroy_connection k) (if graceful then graceful_close k c else c) in
    record closed {
      bs = record (c.bs) { conn = none; sockfd = none; uncommitted = 0; blocked = false };
    }

-- `local_amqp_disconnect_bs`
unfoldable pub disconnect_bs : Bool → Ctx → Ctx
unfolding disconnect_conn
disconnect_bs graceful c = disconnect_conn graceful c.bs.conn c

abbrev pub status_of : WaitEnd → Status
status_of timed_out = Status.timeout
status_of (failed n) = Status.error n

-- One frame of `local_amqp_drain_returns`: the new context, and whether the connection goes on.
unfoldable pub drain_frame : Conn → Frame → Ctx → Bool × Ctx
drain_frame k (basic_return m) c =
    (true, emit (maybe_release_buffers k) (elog (unroutable c.bs.broker_id m) c))
drain_frame k connection_blocked c = (
  true,
  emit (maybe_release_buffers k)
      (set_blocked true (if c.bs.blocked then c else elog (blocked_publishers c.bs.broker_id) c)),
)
drain_frame k connection_unblocked c = (true, emit (maybe_release_buffers k) (set_blocked false c))
drain_frame k channel_close c = (false, emit (maybe_release_buffers k) c)
drain_frame k Frame.connection_close c = (false, emit (maybe_release_buffers k) c)
drain_frame k (other_method n) c = (true, emit (maybe_release_buffers k) c)
drain_frame k (other_type n) c = (true, emit (maybe_release_buffers k) c)

-- The loop of `local_amqp_drain_returns` over the frames that the poll finds; true is the result 0,
-- false is -1.
unfoldable pub drain_frames : Conn → List Frame → WaitEnd → Ctx → Bool × Ctx
drain_frames k [] timed_out c = (true, emit (wait_frame_end k (status_of timed_out)) c)
drain_frames k [] (failed n) c = (false, emit (wait_frame_end k (status_of (failed n))) c)
drain_frames k (f ∷ fs) e c =
    let (alive, c') = drain_frame k f (emit (wait_frame k f) c) in
    let rest = drain_frames k fs e c' in if alive then rest else (false, c')

module _ (w : World) where
  unfoldable pub drain_conn : Option Conn → Ctx → Bool × Ctx
  unfolding drain_frames
  drain_conn none c = (false, c)
  drain_conn (some k) c = let p = w.pending k c.trace in drain_frames k p.frames p.ending c

  -- `local_amqp_drain_returns`
  unfoldable pub drain_returns : Ctx → Bool × Ctx
  unfolding drain_conn
  drain_returns c = drain_conn c.bs.conn c
