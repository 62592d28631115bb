-- ===== src/Bundled/Methods/StructsCore.antt =====
-- src/librabbitmq/amqp_framing.h: the numbers of the methods and the members of their structs, for
-- the classes connection, channel, access,
-- exchange and queue.
use pg_amqp.Base.{[], ◌∷◌, ◌++◌}
use pg_amqp.Bundled.Fields.{
  Structs, uint8, uint16, uint32, amqp_bytes_t, amqp_table_t, amqp_boolean_t,
}

abbrev pub struct_connection : Structs
struct_connection =
    -- AMQP_CONNECTION_START_METHOD
    (
      655370,
      uint8 "version_major"
          ∷ uint8 "version_minor"
          ∷ amqp_table_t "server_properties"
          ∷ amqp_bytes_t "mechanisms"
          ∷ amqp_bytes_t "locales"
          ∷ [],
    )
    ∷
        -- AMQP_CONNECTION_START_OK_METHOD
        (
          655371,
          amqp_table_t "client_properties"
              ∷ amqp_bytes_t "mechanism"
              ∷ amqp_bytes_t "response"
              ∷ amqp_bytes_t "locale"
              ∷ [],
        )
    ∷
        -- AMQP_CONNECTION_SECURE_METHOD
        (655380, amqp_bytes_t "challenge" ∷ [])
    ∷
        -- AMQP_CONNECTION_SECURE_OK_METHOD
        (655381, amqp_bytes_t "response" ∷ [])
    ∷
        -- AMQP_CONNECTION_TUNE_METHOD
        (655390, uint16 "channel_max" ∷ uint32 "frame_max" ∷ uint16 "heartbeat" ∷ [])
    ∷
        -- AMQP_CONNECTION_TUNE_OK_METHOD
        (655391, uint16 "channel_max" ∷ uint32 "frame_max" ∷ uint16 "heartbeat" ∷ [])
    ∷
        -- AMQP_CONNECTION_OPEN_METHOD
        (
          655400,
          amqp_bytes_t "virtual_host" ∷ amqp_bytes_t "capabilities" ∷ amqp_boolean_t "insist" ∷ [],
        )
    ∷
        -- AMQP_CONNECTION_OPEN_OK_METHOD
        (655401, amqp_bytes_t "known_hosts" ∷ [])
    ∷
        -- AMQP_CONNECTION_REDIRECT_METHOD
        (655410, amqp_bytes_t "host" ∷ amqp_bytes_t "known_hosts" ∷ [])
    ∷
        -- AMQP_CONNECTION_CLOSE_METHOD
        (
          655420,
          uint16 "reply_code"
              ∷ amqp_bytes_t "reply_text"
              ∷ uint16 "class_id"
              ∷ uint16 "method_id"
              ∷ [],
        )
    ∷
        -- AMQP_CONNECTION_CLOSE_OK_METHOD
        (655421, [])
    ∷ []

abbrev pub struct_channel : Structs
struct_channel =
    -- AMQP_CHANNEL_OPEN_METHOD
    (1310730, amqp_bytes_t "out_of_band" ∷ [])
    ∷
        -- AMQP_CHANNEL_OPEN_OK_METHOD
        (1310731, [])
    ∷
        -- AMQP_CHANNEL_FLOW_METHOD
        (1310740, amqp_boolean_t "active" ∷ [])
    ∷
        -- AMQP_CHANNEL_FLOW_OK_METHOD
        (1310741, amqp_boolean_t "active" ∷ [])
    ∷
        -- AMQP_CHANNEL_ALERT_METHOD
        (1310750, uint16 "reply_code" ∷ amqp_bytes_t "reply_text" ∷ amqp_table_t "details" ∷ [])
    ∷
        -- AMQP_CHANNEL_CLOSE_METHOD
        (
          1310760,
          uint16 "reply_code"
              ∷ amqp_bytes_t "reply_text"
              ∷ uint16 "class_id"
              ∷ uint16 "method_id"
              ∷ [],
        )
    ∷
        -- AMQP_CHANNEL_CLOSE_OK_METHOD
        (1310761, [])
    ∷ []

abbrev pub struct_access : Structs
struct_access =
    -- AMQP_ACCESS_REQUEST_METHOD
    (
      1966090,
      amqp_bytes_t "realm"
          ∷ amqp_boolean_t "exclusive"
          ∷ amqp_boolean_t "passive"
          ∷ amqp_boolean_t "active"
          ∷ amqp_boolean_t "write"
          ∷ amqp_boolean_t "read"
          ∷ [],
    )
    ∷
        -- AMQP_ACCESS_REQUEST_OK_METHOD
        (1966091, uint16 "ticket" ∷ [])
    ∷ []

abbrev pub struct_exchange : Structs
struct_exchange =
    -- AMQP_EXCHANGE_DECLARE_METHOD
    (
      2621450,
      uint16 "ticket"
          ∷ amqp_bytes_t "exchange"
          ∷ amqp_bytes_t "type"
          ∷ amqp_boolean_t "passive"
          ∷ amqp_boolean_t "durable"
          ∷ amqp_boolean_t "auto_delete"
          ∷ amqp_boolean_t "internal"
          ∷ amqp_boolean_t "nowait"
          ∷ amqp_table_t "arguments"
          ∷ [],
    )
    ∷
        -- AMQP_EXCHANGE_DECLARE_OK_METHOD
        (2621451, [])
    ∷
        -- AMQP_EXCHANGE_DELETE_METHOD
        (
          2621460,
          uint16 "ticket"
              ∷ amqp_bytes_t "exchange"
              ∷ amqp_boolean_t "if_unused"
              ∷ amqp_boolean_t "nowait"
              ∷ [],
        )
    ∷
        -- AMQP_EXCHANGE_DELETE_OK_METHOD
        (2621461, [])
    ∷ []

abbrev pub struct_queue : Structs
struct_queue =
    -- AMQP_QUEUE_DECLARE_METHOD
    (
      3276810,
      uint16 "ticket"
          ∷ amqp_bytes_t "queue"
          ∷ amqp_boolean_t "passive"
          ∷ amqp_boolean_t "durable"
          ∷ amqp_boolean_t "exclusive"
          ∷ amqp_boolean_t "auto_delete"
          ∷ amqp_boolean_t "nowait"
          ∷ amqp_table_t "arguments"
          ∷ [],
    )
    ∷
        -- AMQP_QUEUE_DECLARE_OK_METHOD
        (3276811, amqp_bytes_t "queue" ∷ uint32 "message_count" ∷ uint32 "consumer_count" ∷ [])
    ∷
        -- AMQP_QUEUE_BIND_METHOD
        (
          3276820,
          uint16 "ticket"
              ∷ amqp_bytes_t "queue"
              ∷ amqp_bytes_t "exchange"
              ∷ amqp_bytes_t "routing_key"
              ∷ amqp_boolean_t "nowait"
              ∷ amqp_table_t "arguments"
              ∷ [],
        )
    ∷
        -- AMQP_QUEUE_BIND_OK_METHOD
        (3276821, [])
    ∷
        -- AMQP_QUEUE_PURGE_METHOD
        (3276830, uint16 "ticket" ∷ amqp_bytes_t "queue" ∷ amqp_boolean_t "nowait" ∷ [])
    ∷
        -- AMQP_QUEUE_PURGE_OK_METHOD
        (3276831, uint32 "message_count" ∷ [])
    ∷
        -- AMQP_QUEUE_DELETE_METHOD
        (
          3276840,
          uint16 "ticket"
              ∷ amqp_bytes_t "queue"
              ∷ amqp_boolean_t "if_unused"
              ∷ amqp_boolean_t "if_empty"
              ∷ amqp_boolean_t "nowait"
              ∷ [],
        )
    ∷
        -- AMQP_QUEUE_DELETE_OK_METHOD
        (3276841, uint32 "message_count" ∷ [])
    ∷
        -- AMQP_QUEUE_UNBIND_METHOD
        (
          3276850,
          uint16 "ticket"
              ∷ amqp_bytes_t "queue"
              ∷ amqp_bytes_t "exchange"
              ∷ amqp_bytes_t "routing_key"
              ∷ amqp_table_t "arguments"
              ∷ [],
        )
    ∷
        -- AMQP_QUEUE_UNBIND_OK_METHOD
        (3276851, [])
    ∷ []

abbrev pub struct_core : Structs
struct_core =
    struct_connection ++ struct_channel ++ struct_access ++ struct_exchange ++ struct_queue
