-- ===== src/Publish.antt =====
-- src/pg_amqp.c, the SQL functions on a broker: `pg_amqp_publish_opt` for both channels,
-- `pg_amqp_exchange_declare` and `local_amqp_disconnect`. The arguments are those of the SQL call;
-- an absent one is NULL.
pub mod Accounting
pub mod Reset
use pg_amqp.Base.{
  ℕ, ◌+◌, String, Bool, true, false, not, ◌&&◌, ◌||◌, Option, none, some, [], ltb, ◌==◌,
  if◌then◌else◌, or_else, codes, length, ℤ, equals,
}
use pg_amqp.Events.{
  Bytes, Conn, Status, Properties, Message, Declaration, basic_publish, body_too_large, blocking,
  ignored_delivery_mode, exchange_declare, get_rpc_reply,
}
use pg_amqp.World.{World}
use pg_amqp.Broker.{BrokerState, Settings, Ctx, emit, elog, set_inerror, set_uncommitted}
use pg_amqp.Connection.{disconnect_bs, drain_returns}
use pg_amqp.Hosts.{free_hosts}
use pg_amqp.Connect.{get_bs, is_ok, is_normal}

-- The arguments of amqp.publish and amqp.autonomous_publish behind the broker's id. `mandatory` is
-- absent also where the call has no ninth argument.
pub record PublishArgs : Type 0 where
  pub exchange : Option Bytes
  pub routing_key : Option Bytes
  pub body : Option Bytes
  pub delivery_mode : Option ℤ
  pub content_type : Option Bytes
  pub reply_to : Option Bytes
  pub correlation_id : Option Bytes
  pub mandatory : Option Bool

abbrev pub valid_mode : ℤ → Bool
valid_mode m = equals m 1 || equals m 2

-- The delivery mode that is set: one that is 1 or 2.
unfoldable pub mode_of : Option ℤ → Option ℤ
mode_of none = none
mode_of (some m) = if valid_mode m then some m else none

unfoldable pub warn_mode : Option ℤ → Ctx → Ctx
warn_mode none c = c
warn_mode (some m) c = if valid_mode m then c else elog (ignored_delivery_mode m) c

unfoldable pub properties_of : PublishArgs → Properties
unfolding mode_of
properties_of a = record {
  delivery_mode = mode_of a.delivery_mode;
  content_type = a.content_type;
  reply_to = a.reply_to;
  correlation_id = a.correlation_id;
}

-- `properties._flags == 0`
unfoldable pub is_empty : Properties → Bool
is_empty p = elim p.delivery_mode [
  | some _ ↦ false
  | none ↦ elim p.content_type [
    | some _ ↦ false
    | none ↦ elim p.reply_to [
      | some _ ↦ false
      | none ↦ elim p.correlation_id [ some _ ↦ false | none ↦ true ]
    ]
  ]
]

abbrev pub default_exchange : String
default_exchange = "amq.direct"

unfoldable pub message_of : PublishArgs → Message
unfolding properties_of is_empty
message_of a =
    let p = properties_of a in
    record {
      exchange = or_else a.exchange (codes default_exchange);
      routing_key = or_else a.routing_key [];
      mandatory = or_else a.mandatory false;
      immediate = false;
      properties = if is_empty p then none else some p;
      body = or_else a.body [];
    }

-- The body-size guard.
unfoldable pub too_large : ℕ → PublishArgs → Bool
too_large limit a = elim a.body [ none ↦ false | some b ↦ ltb 0 limit && ltb limit (length b) ]

-- `channel == 1 || bs->uncommitted == 0`
abbrev pub may_redo : ℕ → BrokerState → Bool
may_redo channel bs = channel == 1 || bs.uncommitted == 0

-- `if(once_more && …) { once_more = 0; …; goto redo; }`, or the failure that follows it. `redo` is
-- what the jump runs, and is absent once `once_more` is 0.
unfoldable pub redo_or : Option (Ctx → Bool × Ctx) → ℕ → (Ctx → Ctx) → Ctx → Bool × Ctx
redo_or none channel fail c = (false, fail c)
redo_or (some redo) channel fail c =
    let again = redo (disconnect_bs false c) in
    if may_redo channel c.bs then again else (false, fail c)

abbrev pub fail_drained : ℕ → Ctx → Ctx
fail_drained channel c = if channel == 2 then set_inerror true c else c

-- "channel two is transactional"
abbrev pub count_buffered : ℕ → Ctx → Ctx
count_buffered channel c = if channel == 2 then set_uncommitted (c.bs.uncommitted + 1) c else c

module _ (w : World) (cfg : Settings) (channel : ℕ) (a : PublishArgs) where
  -- `amqp_basic_publish`, and the poll for a returned message on channel 1.
  unfoldable pub send : Conn → Ctx → Status × Ctx
  unfolding message_of
  send k c =
      let m = message_of a in
      let s = w.basic_publish k channel m c.trace in
      let sent = emit (basic_publish k channel m s) c in
      let (_, polled) = drain_returns w sent in
      (s, if channel == 1 && m.mandatory then polled else sent)

  -- From the test of `bs->blocked` on.
  unfoldable pub publish_open : Option (Ctx → Bool × Ctx) → Conn → Ctx → Bool × Ctx
  unfolding send redo_or warn_mode
  publish_open redo k c =
      if c.bs.blocked
      then (false, elog (blocking c.bs.broker_id) c)
      else (let (s, c') = send k (warn_mode a.delivery_mode c) in
          if is_ok s
          then (true, count_buffered channel c')
          else redo_or redo channel (set_inerror true) c')

  unfoldable pub publish_on : Option (Ctx → Bool × Ctx) → Conn → Ctx → Bool × Ctx
  unfolding publish_open redo_or
  publish_on redo k c =
      let (alive, c') = drain_returns w c in
      if alive then publish_open redo k c' else redo_or redo channel (fail_drained channel) c'

  -- The test behind `local_amqp_get_bs`, by what `bs->conn` is.
  unfoldable pub publish_with : Option (Ctx → Bool × Ctx) → Option Conn → Ctx → Bool × Ctx
  unfolding publish_on
  publish_with redo none c = (false, c)
  publish_with redo (some k) c =
      if channel == 1 || not c.bs.inerror then publish_on redo k c else (false, c)

  -- From the label `redo` on.
  unfoldable pub publish_pass : Option (Ctx → Bool × Ctx) → Ctx → Bool × Ctx
  unfolding publish_with
  publish_pass redo c = let c' = get_bs w cfg c in publish_with redo c'.bs.conn c'

  -- `pg_amqp_publish_opt`
  unfoldable pub publish_opt : Ctx → Bool × Ctx
  unfolding publish_pass too_large
  publish_opt c =
      if too_large cfg.max_body_bytes a
      then (false, elog (body_too_large (length (or_else a.body [])) cfg.max_body_bytes) c)
      else publish_pass (some (publish_pass none)) c

-- The arguments of amqp.exchange_declare behind the broker's id.
pub record DeclareArgs : Type 0 where
  pub exchange : Option Bytes
  pub exchange_type : Option Bytes
  pub passive : Option Bool
  pub durable : Option Bool
  pub auto_delete : Option Bool

unfoldable pub declaration_of : DeclareArgs → Declaration
declaration_of a = record {
  exchange = or_else a.exchange [];
  exchange_type = or_else a.exchange_type [];
  passive = or_else a.passive false;
  durable = or_else a.durable false;
  auto_delete = or_else a.auto_delete false;
  internal = false;
}

module _ (w : World) (cfg : Settings) (a : DeclareArgs) where
  unfoldable pub declare_on : Conn → Ctx → Bool × Ctx
  unfolding declaration_of
  declare_on k c =
      let called = emit (exchange_declare k 1 (declaration_of a)) c in
      let r = w.get_rpc_reply k called.trace in
      let c' = emit (get_rpc_reply k r) called in
      if is_normal r then (true, c') else (false, disconnect_bs false c')

  -- The test behind `local_amqp_get_bs`.
  unfoldable pub declare_with : Option Conn → Ctx → Bool × Ctx
  unfolding declare_on
  declare_with none c = (false, c)
  declare_with (some k) c = declare_on k c

  -- `pg_amqp_exchange_declare`
  unfoldable pub declare_exchange : Ctx → Bool × Ctx
  unfolding declare_with
  declare_exchange c = let c' = get_bs w cfg c in declare_with c'.bs.conn c'

-- `local_amqp_disconnect`
unfoldable pub disconnect : Ctx → Ctx
disconnect c =
    let c' = disconnect_bs true c in
    free_hosts (record c' {
      bs = record (c'.bs) {
        inerror = false;
        idx = 0;
        consecutive_failures = 0;
        last_failed_connect = 0;
      };
    })
