-- ===== src/Timeouts/Publish.antt =====
-- The SQL functions on one broker set the timeout of every blocking call before it.
use pg_amqp.Base.{ℕ, Bool, true, false, Option, none, some, arith}
use pg_amqp.Events.{Conn, exchange_declare, basic_publish, get_rpc_reply}
use pg_amqp.World.{World}
use pg_amqp.Broker.{Settings, Ctx, emit, set_inerror}
use pg_amqp.Connection.{disconnect_bs, drain_returns}
use pg_amqp.Hosts.{free_hosts}
use pg_amqp.Connect.{get_bs}
use pg_amqp.Publish.{
  PublishArgs, DeclareArgs, warn_mode, message_of, redo_or, fail_drained, send, publish_open,
  publish_on, publish_with, publish_pass, publish_opt, declaration_of, declare_on, declare_with,
  declare_exchange, disconnect,
}
use pg_amqp.Timeouts.{AllTimed}
use pg_amqp.Timeouts.Calls.{KeepsTimed, drain_returns-Unhurried, disconnect_bs-AllTimed}
use pg_amqp.Timeouts.Connect.{get_bs-Timed}

module _ (w : World) (cfg : Settings) where
  abbrev Timely : (Ctx → Bool × Ctx) → Type 0
  Timely f = KeepsTimed cfg (λ c. (f c).1)

  abbrev RedoTimely : Option (Ctx → Bool × Ctx) → Type 0
  RedoTimely none = Unit
  RedoTimely (some f) = Timely f

  module _ (channel : ℕ) (a : PublishArgs) where
    redo_or-Timed :
        (redo : Option (Ctx → Bool × Ctx)) (fail : Ctx → Ctx)
        → RedoTimely redo
        → KeepsTimed cfg fail
        → Timely (redo_or redo channel fail)
    unfolding redo_or
    redo_or-Timed none fail r f c t = f c t
    redo_or-Timed (some redo) fail r f c t =
        ground (arith, f c t, disconnect_bs-AllTimed cfg false c t, r (disconnect_bs false c))

    send-Timed :
        (k : Conn) (c : Ctx)
        → AllTimed cfg c.trace
        → AllTimed cfg (send w cfg channel a k c).1.trace
    unfolding send
    send-Timed k c t =
        let m = message_of a in
        let s = w.basic_publish k channel m c.trace in
        let written = emit (basic_publish k channel m s) c in
        ground (arith, drain_returns-Unhurried cfg w k written)

    publish_open-Timed :
        (redo : Option (Ctx → Bool × Ctx)) (k : Conn)
        → RedoTimely redo
        → Timely (publish_open w cfg channel a redo k)
    unfolding publish_open warn_mode
    publish_open-Timed redo k r c t =
        let noted = warn_mode a.delivery_mode c in
        let written = (send w cfg channel a k noted).1 in
        ground
          (arith, send-Timed k noted, redo_or-Timed redo (set_inerror true) r (λ d u. u) written)

    fail_drained-Timed : KeepsTimed cfg (fail_drained channel)
    fail_drained-Timed c t = ground arith

    publish_on-Timed :
        (redo : Option (Ctx → Bool × Ctx)) (k : Conn)
        → RedoTimely redo
        → Timely (publish_on w cfg channel a redo k)
    unfolding publish_on
    publish_on-Timed redo k r c t =
        let drained = (drain_returns w c).1 in
        ground (
          arith,
          drain_returns-Unhurried cfg w k c,
          publish_open-Timed redo k r drained,
          redo_or-Timed redo (fail_drained channel) r fail_drained-Timed drained,
        )

    publish_with-Timed :
        (redo : Option (Ctx → Bool × Ctx)) (o : Option Conn)
        → RedoTimely redo
        → Timely (publish_with w cfg channel a redo o)
    unfolding publish_with
    publish_with-Timed redo none r c t = t
    publish_with-Timed redo (some k) r c t = ground (arith, publish_on-Timed redo k r c)

    publish_pass-Timed :
        (redo : Option (Ctx → Bool × Ctx))
        → RedoTimely redo
        → Timely (publish_pass w cfg channel a redo)
    unfolding publish_pass
    publish_pass-Timed redo r c t =
        let got = get_bs w cfg c in
        publish_with-Timed redo got.bs.conn r got (get_bs-Timed cfg w c t)

    pub publish_opt-Timed : Timely (publish_opt w cfg channel a)
    unfolding publish_opt
    publish_opt-Timed c t = ground (
      arith,
      publish_pass-Timed (some (publish_pass w cfg channel a none)) (publish_pass-Timed none tt) c
          t,
    )

  module _ (a : DeclareArgs) where
    declare_on-Timed : (k : Conn) → Timely (declare_on w cfg a k)
    unfolding declare_on
    declare_on-Timed k c t =
        let called = emit (exchange_declare k 1 (declaration_of a)) c in
        let replied = emit (get_rpc_reply k (w.get_rpc_reply k called.trace)) called in
        ground (arith, disconnect_bs-AllTimed cfg false replied)

    declare_with-Timed : (o : Option Conn) → Timely (declare_with w cfg a o)
    unfolding declare_with
    declare_with-Timed none c t = t
    declare_with-Timed (some k) c t = declare_on-Timed k c t

    pub declare_exchange-Timed : Timely (declare_exchange w cfg a)
    unfolding declare_exchange
    declare_exchange-Timed c t =
        let got = get_bs w cfg c in declare_with-Timed got.bs.conn got (get_bs-Timed cfg w c t)

pub disconnect-Timed : (cfg : Settings) → KeepsTimed cfg disconnect
unfolding disconnect free_hosts
disconnect-Timed cfg c t = ground (arith, disconnect_bs-AllTimed cfg true c)
