-- ===== src/Bundled/Methods/StructsMessages.antt =====
-- src/librabbitmq/amqp_framing.h: the numbers of the methods and the members of their structs, for
-- the classes basic and file.
use pg_amqp.Base.{[], ◌∷◌, ◌++◌}
use pg_amqp.Bundled.Fields.{Structs, uint16, uint32, uint64, amqp_bytes_t, amqp_boolean_t}

abbrev pub struct_basic : Structs
struct_basic =
    -- AMQP_BASIC_QOS_METHOD
    (3932170, uint32 "prefetch_size" ∷ uint16 "prefetch_count" ∷ amqp_boolean_t "global" ∷ [])
    ∷
        -- AMQP_BASIC_QOS_OK_METHOD
        (3932171, [])
    ∷
        -- AMQP_BASIC_CONSUME_METHOD
        (
          3932180,
          uint16 "ticket"
              ∷ amqp_bytes_t "queue"
              ∷ amqp_bytes_t "consumer_tag"
              ∷ amqp_boolean_t "no_local"
              ∷ amqp_boolean_t "no_ack"
              ∷ amqp_boolean_t "exclusive"
              ∷ amqp_boolean_t "nowait"
              ∷ [],
        )
    ∷
        -- AMQP_BASIC_CONSUME_OK_METHOD
        (3932181, amqp_bytes_t "consumer_tag" ∷ [])
    ∷
        -- AMQP_BASIC_CANCEL_METHOD
        (3932190, amqp_bytes_t "consumer_tag" ∷ amqp_boolean_t "nowait" ∷ [])
    ∷
        -- AMQP_BASIC_CANCEL_OK_METHOD
        (3932191, amqp_bytes_t "consumer_tag" ∷ [])
    ∷
        -- AMQP_BASIC_PUBLISH_METHOD
        (
          3932200,
          uint16 "ticket"
              ∷ amqp_bytes_t "exchange"
              ∷ amqp_bytes_t "routing_key"
              ∷ amqp_boolean_t "mandatory"
              ∷ amqp_boolean_t "immediate"
              ∷ [],
        )
    ∷ []

abbrev pub struct_basic_delivery : Structs
struct_basic_delivery =
    -- AMQP_BASIC_RETURN_METHOD
    (
      3932210,
      uint16 "reply_code"
          ∷ amqp_bytes_t "reply_text"
          ∷ amqp_bytes_t "exchange"
          ∷ amqp_bytes_t "routing_key"
          ∷ [],
    )
    ∷
        -- AMQP_BASIC_DELIVER_METHOD
        (
          3932220,
          amqp_bytes_t "consumer_tag"
              ∷ uint64 "delivery_tag"
              ∷ amqp_boolean_t "redelivered"
              ∷ amqp_bytes_t "exchange"
              ∷ amqp_bytes_t "routing_key"
              ∷ [],
        )
    ∷
        -- AMQP_BASIC_GET_METHOD
        (3932230, uint16 "ticket" ∷ amqp_bytes_t "queue" ∷ amqp_boolean_t "no_ack" ∷ [])
    ∷
        -- AMQP_BASIC_GET_OK_METHOD
        (
          3932231,
          uint64 "delivery_tag"
              ∷ amqp_boolean_t "redelivered"
              ∷ amqp_bytes_t "exchange"
              ∷ amqp_bytes_t "routing_key"
              ∷ uint32 "message_count"
              ∷ [],
        )
    ∷
        -- AMQP_BASIC_GET_EMPTY_METHOD
        (3932232, amqp_bytes_t "cluster_id" ∷ [])
    ∷
        -- AMQP_BASIC_ACK_METHOD
        (3932240, uint64 "delivery_tag" ∷ amqp_boolean_t "multiple" ∷ [])
    ∷
        -- AMQP_BASIC_REJECT_METHOD
        (3932250, uint64 "delivery_tag" ∷ amqp_boolean_t "requeue" ∷ [])
    ∷
        -- AMQP_BASIC_RECOVER_METHOD
        (3932260, amqp_boolean_t "requeue" ∷ [])
    ∷ []

abbrev pub struct_file : Structs
struct_file =
    -- AMQP_FILE_QOS_METHOD
    (4587530, uint32 "prefetch_size" ∷ uint16 "prefetch_count" ∷ amqp_boolean_t "global" ∷ [])
    ∷
        -- AMQP_FILE_QOS_OK_METHOD
        (4587531, [])
    ∷
        -- AMQP_FILE_CONSUME_METHOD
        (
          4587540,
          uint16 "ticket"
              ∷ amqp_bytes_t "queue"
              ∷ amqp_bytes_t "consumer_tag"
              ∷ amqp_boolean_t "no_local"
              ∷ amqp_boolean_t "no_ack"
              ∷ amqp_boolean_t "exclusive"
              ∷ amqp_boolean_t "nowait"
              ∷ [],
        )
    ∷
        -- AMQP_FILE_CONSUME_OK_METHOD
        (4587541, amqp_bytes_t "consumer_tag" ∷ [])
    ∷
        -- AMQP_FILE_CANCEL_METHOD
        (4587550, amqp_bytes_t "consumer_tag" ∷ amqp_boolean_t "nowait" ∷ [])
    ∷
        -- AMQP_FILE_CANCEL_OK_METHOD
        (4587551, amqp_bytes_t "consumer_tag" ∷ [])
    ∷
        -- AMQP_FILE_OPEN_METHOD
        (4587560, amqp_bytes_t "identifier" ∷ uint64 "content_size" ∷ [])
    ∷
        -- AMQP_FILE_OPEN_OK_METHOD
        (4587561, uint64 "staged_size" ∷ [])
    ∷ []

abbrev pub struct_file_transfer : Structs
struct_file_transfer =
    -- AMQP_FILE_STAGE_METHOD
    (4587570, [])
    ∷
        -- AMQP_FILE_PUBLISH_METHOD
        (
          4587580,
          uint16 "ticket"
              ∷ amqp_bytes_t "exchange"
              ∷ amqp_bytes_t "routing_key"
              ∷ amqp_boolean_t "mandatory"
              ∷ amqp_boolean_t "immediate"
              ∷ amqp_bytes_t "identifier"
              ∷ [],
        )
    ∷
        -- AMQP_FILE_RETURN_METHOD
        (
          4587590,
          uint16 "reply_code"
              ∷ amqp_bytes_t "reply_text"
              ∷ amqp_bytes_t "exchange"
              ∷ amqp_bytes_t "routing_key"
              ∷ [],
        )
    ∷
        -- AMQP_FILE_DELIVER_METHOD
        (
          4587600,
          amqp_bytes_t "consumer_tag"
              ∷ uint64 "delivery_tag"
              ∷ amqp_boolean_t "redelivered"
              ∷ amqp_bytes_t "exchange"
              ∷ amqp_bytes_t "routing_key"
              ∷ amqp_bytes_t "identifier"
              ∷ [],
        )
    ∷
        -- AMQP_FILE_ACK_METHOD
        (4587610, uint64 "delivery_tag" ∷ amqp_boolean_t "multiple" ∷ [])
    ∷
        -- AMQP_FILE_REJECT_METHOD
        (4587620, uint64 "delivery_tag" ∷ amqp_boolean_t "requeue" ∷ [])
    ∷ []

abbrev pub struct_messages : Structs
struct_messages = struct_basic ++ struct_basic_delivery ++ struct_file ++ struct_file_transfer
