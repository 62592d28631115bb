-- ===== src/Connection/Keeps.antt =====
-- What `local_amqp_set_timeout`, `local_amqp_drain_returns` and `local_amqp_disconnect_bs` leave
-- alone.
use pg_amqp.Base.{ℕ, ◌≡◌, refl, Option, none, some, List, [], ◌∷◌, arith}
use pg_amqp.Events.{Conn, Frame, wait_frame}
use pg_amqp.World.{World, WaitEnd, timed_out, failed}
use pg_amqp.Broker.{Ctx, emit}
use pg_amqp.Readings.{Quiet}
use pg_amqp.Connection.{set_timeout, drain_frame, drain_frames, drain_conn, drain_returns}

-- The fields that only a change of the connection's fate touches, and the counts.
pub record Keeps (id channel : ℕ) (c c' : Ctx) : Type 0 where
  pub same_id : c'.bs.broker_id ≡ c.bs.broker_id
  pub same_conn : c'.bs.conn ≡ c.bs.conn
  pub same_uncommitted : c'.bs.uncommitted ≡ c.bs.uncommitted
  pub same_inerror : c'.bs.inerror ≡ c.bs.inerror
  pub same_idx : c'.bs.idx ≡ c.bs.idx
  pub same_failures : c'.bs.consecutive_failures ≡ c.bs.consecutive_failures
  pub same_last : c'.bs.last_failed_connect ≡ c.bs.last_failed_connect
  pub same_hosts : c'.bs.hosts ≡ c.bs.hosts
  pub same_nhosts : c'.bs.nhosts ≡ c.bs.nhosts
  pub quiet : Quiet id channel c.trace c'.trace

module _ (id channel : ℕ) where
  pub Keeps-refl : (c : Ctx) → Keeps id channel c c
  Keeps-refl c = ground arith

  pub Keeps-trans :
      (a b c : Ctx) → Keeps id channel a b → Keeps id channel b c → Keeps id channel a c
  Keeps-trans a b c p q = ground arith

  pub set_timeout-Keeps : (ms : ℕ) (c : Ctx) → Keeps id channel c (set_timeout ms c)
  unfolding set_timeout
  set_timeout-Keeps ms c = ground arith

  pub drain_frame-Keeps :
      (k : Conn) (f : Frame) (c : Ctx) → Keeps id channel c (drain_frame k f c).1
  unfolding drain_frame
  drain_frame-Keeps k f c = ground arith

  pub drain_frames-Keeps :
      (k : Conn) (fs : List Frame) (e : WaitEnd) (c : Ctx)
      → Keeps id channel c (drain_frames k fs e c).1
  unfolding drain_frames
  drain_frames-Keeps k [] timed_out c = ground arith
  drain_frames-Keeps k [] (failed n) c = ground arith
  drain_frames-Keeps k (f ∷ fs) e c =
      let waited = emit (wait_frame k f) c in
      ground
        (arith, drain_frame-Keeps k f waited, drain_frames-Keeps k fs e (drain_frame k f waited).1)

  drain_conn-Keeps :
      (w : World) (o : Option Conn) (c : Ctx) → Keeps id channel c (drain_conn w o c).1
  unfolding drain_conn
  drain_conn-Keeps w none c = Keeps-refl c
  drain_conn-Keeps w (some k) c = drain_frames-Keeps k _ _ c

  pub drain_returns-Keeps : (w : World) (c : Ctx) → Keeps id channel c (drain_returns w c).1
  unfolding drain_returns
  drain_returns-Keeps w c = drain_conn-Keeps w c.bs.conn c

drain_frame-sockfd :
    (k : Conn) (f : Frame) (c : Ctx) → (drain_frame k f c).1.bs.sockfd ≡ c.bs.sockfd
unfolding drain_frame
drain_frame-sockfd k f c = ground arith

drain_frames-sockfd :
    (k : Conn) (fs : List Frame) (e : WaitEnd) (c : Ctx)
    → (drain_frames k fs e c).1.bs.sockfd ≡ c.bs.sockfd
unfolding drain_frames
drain_frames-sockfd k [] timed_out c = refl
drain_frames-sockfd k [] (failed n) c = refl
drain_frames-sockfd k (f ∷ fs) e c =
    let waited = emit (wait_frame k f) c in
    ground
      (arith, drain_frame-sockfd k f waited, drain_frames-sockfd k fs e (drain_frame k f waited).1)

drain_conn-sockfd :
    (w : World) (o : Option Conn) (c : Ctx) → (drain_conn w o c).1.bs.sockfd ≡ c.bs.sockfd
unfolding drain_conn
drain_conn-sockfd w none c = refl
drain_conn-sockfd w (some k) c = drain_frames-sockfd k _ _ c

-- A drain leaves the descriptor too.
pub drain_returns-sockfd : (w : World) (c : Ctx) → (drain_returns w c).1.bs.sockfd ≡ c.bs.sockfd
unfolding drain_returns
drain_returns-sockfd w c = drain_conn-sockfd w c.bs.conn c
