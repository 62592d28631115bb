-- ===== src/Xact/SilentLoss.antt =====
-- Where src/pg_amqp.c drops buffered messages and reports nothing: an exchange declaration that the
-- broker refuses, and an autonomous publish that finds the connection dead.
use pg_amqp.Base.{◌≡◌, refl, ◌∷◌, Bool, false, none, some, arith}
use pg_amqp.Events.{Conn, exchange_declare, get_rpc_reply}
use pg_amqp.World.{World}
use pg_amqp.Broker.{Settings, Ctx, emit}
use pg_amqp.Broker.Invariant.{IsWf}
use pg_amqp.Readings.{lost, commits}
use pg_amqp.Connection.{disconnect_bs, drain_returns}
use pg_amqp.Connection.Keeps.{drain_returns-Keeps}
use pg_amqp.Connect.{get_bs, is_normal}
use pg_amqp.Publish.{
  DeclareArgs, PublishArgs, declare_on, declare_with, declare_exchange, declaration_of, too_large,
  publish_opt, publish_pass, publish_with, publish_on, redo_or,
}
use pg_amqp.Publish.Accounting.{disconnect_bs-Dropped, drained-IsWf, publish_pass-Published}
use pg_amqp.Xact.{commit_one}

module _ (w : World) (cfg : Settings) where
  -- With nothing buffered and no error pending a commit does nothing.
  commit_one-idle : (c : Ctx) → c.bs.uncommitted ≡ 0 → c.bs.inerror ≡ false → commit_one w cfg c ≡ c
  unfolding commit_one
  commit_one-idle c e ok = ground arith

  -- An exchange declaration that the broker refuses, on a connection with no error pending, takes
  -- every buffered message with it: no WARNING counts them, and the commit that follows does
  -- nothing for this broker.
  pub declare_exchange-loses :
      (a : DeclareArgs) (k : Conn) (c : Ctx)
      → c.bs.conn ≡ some k
      → c.bs.inerror ≡ false
      → is_normal (w.get_rpc_reply k (exchange_declare k 1 (declaration_of a) ∷ c.trace)) ≡ false
      → let (r, c') = declare_exchange w cfg a c in
        (r ≡ false)
        × (c'.bs.uncommitted ≡ 0)
        × (lost c.bs.broker_id c'.trace ≡ lost c.bs.broker_id c.trace)
        × (commits c'.trace ≡ commits c.trace)
        × (commit_one w cfg c' ≡ c')
  unfolding declare_exchange declare_with declare_on get_bs disconnect_bs
  declare_exchange-loses a k c e ok refused =
      let called = emit (exchange_declare k 1 (declaration_of a)) c in
      let replied = emit (get_rpc_reply k (w.get_rpc_reply k called.trace)) called in
      ground (arith, commit_one-idle (disconnect_bs false replied))

  -- On a live connection `local_amqp_get_bs` does nothing.
  get_bs-connected : (k : Conn) (c : Ctx) → c.bs.conn ≡ some k → get_bs w cfg c ≡ c
  unfolding get_bs
  get_bs-connected k c e = ground arith

  -- On channel 1 a dead connection is always retried.
  redone :
      (a : PublishArgs) (f : Ctx → Bool × Ctx) (k : Conn) (c : Ctx)
      → c.bs.conn ≡ some k
      → (drain_returns w c).0 ≡ false
      → publish_pass w cfg 1 a (some f) c ≡ f (disconnect_bs false (drain_returns w c).1)
  unfolding publish_pass publish_with publish_on redo_or get_bs
  redone a f k c e dead = ground arith

  -- Where an autonomous publish finds the connection dead, the retry begins with an empty buffer.
  pub autonomous_publish-loses :
      (a : PublishArgs) (k : Conn) (c : Ctx)
      → c.bs.conn ≡ some k
      → IsWf c.bs
      → too_large cfg.max_body_bytes a ≡ false
      → (drain_returns w c).0 ≡ false
      → let (_, c') = publish_opt w cfg 1 a c in
        (c'.bs.uncommitted ≡ 0)
        × (lost c.bs.broker_id c'.trace ≡ lost c.bs.broker_id c.trace)
        × (commits c'.trace ≡ commits c.trace)
  unfolding publish_opt
  autonomous_publish-loses a k c e v small dead =
      let id = c.bs.broker_id in
      let drained = (drain_returns w c).1 in
      let again = publish_pass w cfg 1 a none in
      ground (
        arith,
        get_bs-connected k c e,
        redone a again k c,
        drain_returns-Keeps id 1 w c,
        disconnect_bs-Dropped id 1 drained,
        drained-IsWf id 1 w cfg a k c,
        publish_pass-Published id 1 w cfg a 0 none refl (disconnect_bs false drained),
      )
