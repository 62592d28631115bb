-- ===== src/Timeouts/Calls.antt =====
-- The functions on one broker set the timeout of every blocking call before it.
use pg_amqp.Base.{ℕ, ◌≡◌, Bool, Option, none, some, List, [], ◌∷◌, arith}
use pg_amqp.Events.{Conn, Frame, wait_frame}
use pg_amqp.World.{World, WaitEnd, timed_out, failed}
use pg_amqp.Broker.{Settings, Ctx, emit}
use pg_amqp.Connection.{
  time_val, set_timeout, disconnect_bs, drain_frame, drain_frames, drain_conn, drain_returns,
}
use pg_amqp.Timeouts.{last_set, AllTimed}

module _ (cfg : Settings) where
  abbrev pub KeepsTimed : (Ctx → Ctx) → Type 0
  KeepsTimed f = (c : Ctx) → AllTimed cfg c.trace → AllTimed cfg (f c).trace

  -- Nothing is called that needs a timeout, and the one of `k` stays.
  pub record Unhurried (k : Conn) (c c' : Ctx) : Type 0 where
    pub timed : AllTimed cfg c.trace → AllTimed cfg c'.trace
    pub same_timeout : last_set k c'.trace ≡ last_set k c.trace

  drain_frame-Unhurried : (k j : Conn) (f : Frame) (c : Ctx) → Unhurried k c (drain_frame j f c).1
  unfolding drain_frame
  drain_frame-Unhurried k j f c = ground arith

  drain_frames-Unhurried :
      (k j : Conn) (fs : List Frame) (e : WaitEnd) (c : Ctx)
      → Unhurried k c (drain_frames j fs e c).1
  unfolding drain_frames
  drain_frames-Unhurried k j [] timed_out c = ground arith
  drain_frames-Unhurried k j [] (failed n) c = ground arith
  drain_frames-Unhurried k j (f ∷ fs) e c =
      let waited = emit (wait_frame j f) c in
      ground (
        arith,
        drain_frame-Unhurried k j f waited,
        drain_frames-Unhurried k j fs e (drain_frame j f waited).1,
      )

  drain_conn-Unhurried :
      (w : World) (k : Conn) (o : Option Conn) (c : Ctx) → Unhurried k c (drain_conn w o c).1
  unfolding drain_conn
  drain_conn-Unhurried w k none c = ground arith
  drain_conn-Unhurried w k (some j) c = drain_frames-Unhurried k j _ _ c

  pub drain_returns-Unhurried :
      (w : World) (k : Conn) (c : Ctx) → Unhurried k c (drain_returns w c).1
  unfolding drain_returns
  drain_returns-Unhurried w k c = drain_conn-Unhurried w k c.bs.conn c

  -- Setting a timeout puts it in force, and calls nothing else.
  pub set_timeout-last_set :
      (ms : ℕ) (k : Conn) (c : Ctx)
      → c.bs.conn ≡ some k
      → last_set k (set_timeout ms c).trace ≡ some (time_val ms)
  unfolding set_timeout
  set_timeout-last_set ms k c e = ground arith

  pub set_timeout-AllTimed :
      (ms : ℕ) (c : Ctx) → AllTimed cfg c.trace → AllTimed cfg (set_timeout ms c).trace
  unfolding set_timeout
  set_timeout-AllTimed ms c h = ground arith

  pub disconnect_bs-AllTimed :
      (graceful : Bool) (c : Ctx)
      → AllTimed cfg c.trace
      → AllTimed cfg (disconnect_bs graceful c).trace
  unfolding disconnect_bs
  disconnect_bs-AllTimed graceful c h = ground arith
