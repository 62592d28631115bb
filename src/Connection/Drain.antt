-- ===== src/Connection/Drain.antt =====
-- `local_amqp_drain_returns` against a description that looks at the pending frames as a whole: those
-- before the first close count, the others are not read.
use pg_amqp.Base.{
  ◌≡◌, Bool, true, false, not, ◌&&◌, ◌||◌, some, List, [], ◌∷◌, arith, if◌then◌else◌,
}
use pg_amqp.Events.{
  Conn, Frame, Return, Trace, basic_return, connection_blocked, connection_unblocked, channel_close,
  warn, unroutable, wait_frame,
}
use pg_amqp.World.{World, WaitEnd, timed_out, failed}
use pg_amqp.Broker.{Ctx, emit}
use pg_amqp.Connection.{drain_frame, drain_frames, drain_returns}

abbrev pub is_close : Frame → Bool
is_close channel_close = true
is_close Frame.connection_close = true
is_close _ = false

abbrev pub any_close : List Frame → Bool
any_close [] = false
any_close (f ∷ fs) = is_close f || any_close fs

-- The frames before the first close.
abbrev pub before_close : List Frame → List Frame
before_close [] = []
before_close (f ∷ fs) = if is_close f then [] else f ∷ before_close fs

-- The flag that the last connection.blocked or connection.unblocked sets.
abbrev pub blocked_after : Bool → List Frame → Bool
blocked_after b [] = b
blocked_after b (connection_blocked ∷ fs) = blocked_after true fs
blocked_after b (connection_unblocked ∷ fs) = blocked_after false fs
blocked_after b (_ ∷ fs) = blocked_after b fs

-- The returned messages, the latest first, before those in `ms`.
abbrev pub returns_after : List Return → List Frame → List Return
returns_after ms [] = ms
returns_after ms (basic_return m ∷ fs) = returns_after (m ∷ ms) fs
returns_after ms (_ ∷ fs) = returns_after ms fs

-- The returned messages that WARNINGs of a log report, the latest first.
abbrev pub reported : Trace → List Return
reported [] = []
reported (warn (unroutable _ m) ∷ t) = m ∷ reported t
reported (_ ∷ t) = reported t

abbrev pub is_timeout : WaitEnd → Bool
is_timeout timed_out = true
is_timeout (failed _) = false

-- What a drain of the frames `fs`, which end by `e`, comes to.
pub record Drained (fs : List Frame) (e : WaitEnd) (c : Ctx) (r : Bool) (c' : Ctx) : Type 0 where
  pub usable : r ≡ (not (any_close fs) && is_timeout e)
  pub flag : c'.bs.blocked ≡ blocked_after c.bs.blocked (before_close fs)
  pub reports : reported c'.trace ≡ returns_after (reported c.trace) (before_close fs)

drain_frames-Drained :
    (k : Conn) (fs : List Frame) (e : WaitEnd) (c : Ctx)
    → Drained fs e c (drain_frames k fs e c).0 (drain_frames k fs e c).1
unfolding drain_frames drain_frame
drain_frames-Drained k [] timed_out c = ground arith
drain_frames-Drained k [] (failed n) c = ground arith
drain_frames-Drained k (f ∷ fs) e c =
    let waited = emit (wait_frame k f) c in
    ground (arith, drain_frames-Drained k fs e (drain_frame k f waited).1)

-- A drain finds the connection usable just where no pending frame closes it and the poll ends by its
-- timeout. It reports each message that was returned before the first close, and no other, and
-- leaves the flag as the last alarm before the close has set it.
pub drain_returns-Drained :
    (w : World) (k : Conn) (c : Ctx)
    → c.bs.conn ≡ some k
    → let p = w.pending k c.trace in
      let (r, c') = drain_returns w c in Drained p.frames p.ending c r c'
unfolding drain_returns
drain_returns-Drained w k c e =
    ground
      (arith, drain_frames-Drained k (w.pending k c.trace).frames (w.pending k c.trace).ending c)
