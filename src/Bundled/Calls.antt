-- ===== src/Bundled/Calls.antt =====
-- src/librabbitmq/amqp_api.c, the calls that send a request and wait for its reply, and
-- `amqp_basic_ack`. A struct comes with the number of its method.
pub mod Waits
pub mod Replies
use pg_amqp.Base.{
  ℕ, zero, suc, ◌+◌, ◌-◌, ◌/◌, ◌%◌, ◌^◌, Bool, false, Option, none, some, [], ◌∷◌, ◌++◌, ltb,
  if◌then◌else◌, ℤ, pos, negsuc, ◌==◌, List,
}
use pg_amqp.Events.{Bytes}
use pg_amqp.Bundled.Buffer.{Memory}
use pg_amqp.Bundled.Frame.{Codec, Writer, Out, Result, ok, fail}
use pg_amqp.Bundled.Publish.{amqp_send_method}
use pg_amqp.Bundled.Input.{Decoder}
use pg_amqp.Bundled.Table.{Table}
use pg_amqp.Bundled.Receive.{Receiver, RpcReply, normal, amqp_simple_rpc}
use pg_amqp.Bundled.Link.{Struct, PropertyStruct}

-- What a call leaves: the struct of the reply or NULL, what `amqp_get_rpc_reply` holds, and the
-- connection.
pub record Called : Type 0 where
  pub result : Option Struct
  pub rpc_reply : RpcReply Struct
  pub receiver : Receiver Struct PropertyStruct
  pub out : Out

-- RPC_REPLY
abbrev pub reply_struct : RpcReply Struct → Option Struct
reply_struct (normal id d) = some d
reply_struct _ = none

-- `snprintf` with "%d" of an `int`, and its conversion to 16 bits.
unfoldable pub digits : ℕ → ℕ → Bytes
digits zero n = []
digits (suc f) n =
    let front = digits f (n / 10) in (if ltb n 10 then [] else front) ++ (48 + n % 10) ∷ []

unfoldable pub codestr : ℤ → Bytes
unfolding digits
codestr (pos n) = digits 10 n
codestr (negsuc n) = 45 ∷ digits 10 (suc n)

abbrev pub uint16_of : ℤ → ℕ
uint16_of (pos n) = n % 2 ^ 16
uint16_of (negsuc n) = 2 ^ 16 - 1 - n % 2 ^ 16

module _ (dec : Decoder Struct PropertyStruct) (page : Receiver Struct PropertyStruct → Memory)
    (cd : Codec Struct PropertyStruct) (fn : Writer) (frame_max : ℕ) where
  -- AMQP_MULTIPLE_RESPONSE_RPC; AMQP_SIMPLE_RPC has one reply.
  unfoldable pub simple_rpc : ℕ → List ℕ → Struct → Receiver Struct PropertyStruct → Out → Called
  unfolding amqp_simple_rpc
  simple_rpc channel replies request r o =
      let (a, r', o') =
        amqp_simple_rpc dec page channel replies cd fn frame_max request.0 request r o in
      record { result = reply_struct a; rpc_reply = a; receiver = r'; out = o' }

  module _ (channel : ℕ) where
    unfoldable pub amqp_channel_open : Receiver Struct PropertyStruct → Out → Called
    unfolding simple_rpc
    amqp_channel_open = simple_rpc channel (1310731 ∷ []) (1310730, ([], tt))

    unfoldable pub amqp_channel_close : ℤ → Receiver Struct PropertyStruct → Out → Called
    unfolding simple_rpc codestr
    amqp_channel_close code =
        simple_rpc channel (1310761 ∷ []) (1310760, (uint16_of code, (codestr code, (0, (0, tt)))))

    unfoldable pub amqp_exchange_declare :
        (exchange type : Bytes) (passive durable auto_delete : Bool) (arguments : Table)
        → Receiver Struct PropertyStruct
        → Out
        → Called
    unfolding simple_rpc
    amqp_exchange_declare exchange type passive durable auto_delete arguments =
        simple_rpc channel (2621451 ∷ []) (
          2621450,
          (
            0,
            (
              exchange,
              (type, ((passive, (durable, (auto_delete, (false, (false, tt))))), (arguments, tt))),
            ),
          ),
        )

    unfoldable pub amqp_exchange_delete :
        Bytes → Bool → Bool → Receiver Struct PropertyStruct → Out → Called
    unfolding simple_rpc
    amqp_exchange_delete exchange if_unused nowait =
        simple_rpc channel (2621461 ∷ [])
          (2621460, (0, (exchange, ((if_unused, (nowait, tt)), tt))))

    unfoldable pub amqp_queue_declare :
        (queue : Bytes) (passive durable exclusive auto_delete : Bool) (arguments : Table)
        → Receiver Struct PropertyStruct
        → Out
        → Called
    unfolding simple_rpc
    amqp_queue_declare queue passive durable exclusive auto_delete arguments =
        simple_rpc channel (3276811 ∷ []) (
          3276810,
          (
            0,
            (
              queue,
              ((passive, (durable, (exclusive, (auto_delete, (false, tt))))), (arguments, tt)),
            ),
          ),
        )

    unfoldable pub amqp_queue_bind :
        Bytes → Bytes → Bytes → Table → Receiver Struct PropertyStruct → Out → Called
    unfolding simple_rpc
    amqp_queue_bind queue exchange routing_key arguments =
        simple_rpc channel (3276821 ∷ [])
          (3276820, (0, (queue, (exchange, (routing_key, ((false, tt), (arguments, tt)))))))

    unfoldable pub amqp_queue_unbind :
        Bytes → Bytes → Bytes → Table → Receiver Struct PropertyStruct → Out → Called
    unfolding simple_rpc
    amqp_queue_unbind queue exchange binding_key arguments =
        simple_rpc channel (3276851 ∷ [])
          (3276850, (0, (queue, (exchange, (binding_key, (arguments, tt))))))

    unfoldable pub amqp_basic_consume :
        Bytes → Bytes → Bool → Bool → Bool → Receiver Struct PropertyStruct → Out → Called
    unfolding simple_rpc
    amqp_basic_consume queue consumer_tag no_local no_ack exclusive =
        simple_rpc channel (3932181 ∷ []) (
          3932180,
          (0, (queue, (consumer_tag, ((no_local, (no_ack, (exclusive, (false, tt)))), tt)))),
        )

    -- AMQP_CHECK_RESULT of the send, then 0.
    unfoldable pub amqp_basic_ack : ℕ → Bool → Out → Result × Out
    unfolding amqp_send_method
    amqp_basic_ack delivery_tag multiple o =
        let (a, o') =
          amqp_send_method cd fn frame_max channel 3932240
            (3932240, (delivery_tag, ((multiple, tt), tt))) o in
        (elim a [ fail e ↦ fail e | ok _ ↦ ok 0 ], o')

    -- The ticket is the number of the channel here.
    unfoldable pub amqp_queue_purge : Bytes → Bool → Receiver Struct PropertyStruct → Out → Called
    unfolding simple_rpc
    amqp_queue_purge queue no_wait =
        simple_rpc channel (3276831 ∷ []) (3276830, (channel, (queue, ((no_wait, tt), tt))))

    -- The reply is what the call returns.
    unfoldable pub amqp_basic_get : Bytes → Bool → Receiver Struct PropertyStruct → Out → Called
    unfolding simple_rpc
    amqp_basic_get queue no_ack =
        simple_rpc channel (3932231 ∷ 3932232 ∷ [])
          (3932230, (channel, (queue, ((no_ack, tt), tt))))

    unfoldable pub amqp_tx_select : Receiver Struct PropertyStruct → Out → Called
    unfolding simple_rpc
    amqp_tx_select = simple_rpc channel (5898251 ∷ []) (5898250, tt)

    unfoldable pub amqp_tx_commit : Receiver Struct PropertyStruct → Out → Called
    unfolding simple_rpc
    amqp_tx_commit = simple_rpc channel (5898261 ∷ []) (5898260, tt)

    unfoldable pub amqp_tx_rollback : Receiver Struct PropertyStruct → Out → Called
    unfolding simple_rpc
    amqp_tx_rollback = simple_rpc channel (5898271 ∷ []) (5898270, tt)

    unfoldable pub amqp_basic_qos : ℕ → ℕ → Bool → Receiver Struct PropertyStruct → Out → Called
    unfolding simple_rpc
    amqp_basic_qos prefetch_size prefetch_count global =
        simple_rpc channel (3932171 ∷ [])
          (3932170, (prefetch_size, (prefetch_count, ((global, tt), tt))))

  unfoldable pub amqp_connection_close : ℤ → Receiver Struct PropertyStruct → Out → Called
  unfolding simple_rpc codestr
  amqp_connection_close code =
      simple_rpc 0 (655421 ∷ []) (655420, (uint16_of code, (codestr code, (0, (0, tt)))))
