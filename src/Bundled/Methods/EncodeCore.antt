-- ===== src/Bundled/Methods/EncodeCore.antt =====
-- src/librabbitmq/amqp_framing.c, `amqp_encode_method`: what each case of the switch writes, in
-- order, and the field it takes it from, for the classes connection, channel, access,
-- exchange and queue.
use pg_amqp.Base.{[], ◌∷◌, ◌++◌}
use pg_amqp.Bundled.Fields.{Layouts, octet, short, long, shortstr, longstr, table, bits}

abbrev pub encode_connection : Layouts
encode_connection =
    -- AMQP_CONNECTION_START_METHOD
    (
      655370,
      octet "version_major"
          ∷ octet "version_minor"
          ∷ table "server_properties"
          ∷ longstr "mechanisms"
          ∷ longstr "locales"
          ∷ [],
    )
    ∷
        -- AMQP_CONNECTION_START_OK_METHOD
        (
          655371,
          table "client_properties"
              ∷ shortstr "mechanism"
              ∷ longstr "response"
              ∷ shortstr "locale"
              ∷ [],
        )
    ∷
        -- AMQP_CONNECTION_SECURE_METHOD
        (655380, longstr "challenge" ∷ [])
    ∷
        -- AMQP_CONNECTION_SECURE_OK_METHOD
        (655381, longstr "response" ∷ [])
    ∷
        -- AMQP_CONNECTION_TUNE_METHOD
        (655390, short "channel_max" ∷ long "frame_max" ∷ short "heartbeat" ∷ [])
    ∷
        -- AMQP_CONNECTION_TUNE_OK_METHOD
        (655391, short "channel_max" ∷ long "frame_max" ∷ short "heartbeat" ∷ [])
    ∷
        -- AMQP_CONNECTION_OPEN_METHOD
        (655400, shortstr "virtual_host" ∷ shortstr "capabilities" ∷ bits ("insist" ∷ []) ∷ [])
    ∷
        -- AMQP_CONNECTION_OPEN_OK_METHOD
        (655401, shortstr "known_hosts" ∷ [])
    ∷
        -- AMQP_CONNECTION_REDIRECT_METHOD
        (655410, shortstr "host" ∷ shortstr "known_hosts" ∷ [])
    ∷
        -- AMQP_CONNECTION_CLOSE_METHOD
        (
          655420,
          short "reply_code" ∷ shortstr "reply_text" ∷ short "class_id" ∷ short "method_id" ∷ [],
        )
    ∷
        -- AMQP_CONNECTION_CLOSE_OK_METHOD
        (655421, [])
    ∷ []

abbrev pub encode_channel : Layouts
encode_channel =
    -- AMQP_CHANNEL_OPEN_METHOD
    (1310730, shortstr "out_of_band" ∷ [])
    ∷
        -- AMQP_CHANNEL_OPEN_OK_METHOD
        (1310731, [])
    ∷
        -- AMQP_CHANNEL_FLOW_METHOD
        (1310740, bits ("active" ∷ []) ∷ [])
    ∷
        -- AMQP_CHANNEL_FLOW_OK_METHOD
        (1310741, bits ("active" ∷ []) ∷ [])
    ∷
        -- AMQP_CHANNEL_ALERT_METHOD
        (1310750, short "reply_code" ∷ shortstr "reply_text" ∷ table "details" ∷ [])
    ∷
        -- AMQP_CHANNEL_CLOSE_METHOD
        (
          1310760,
          short "reply_code" ∷ shortstr "reply_text" ∷ short "class_id" ∷ short "method_id" ∷ [],
        )
    ∷
        -- AMQP_CHANNEL_CLOSE_OK_METHOD
        (1310761, [])
    ∷ []

abbrev pub encode_access : Layouts
encode_access =
    -- AMQP_ACCESS_REQUEST_METHOD
    (
      1966090,
      shortstr "realm" ∷ bits ("exclusive" ∷ "passive" ∷ "active" ∷ "write" ∷ "read" ∷ []) ∷ [],
    )
    ∷
        -- AMQP_ACCESS_REQUEST_OK_METHOD
        (1966091, short "ticket" ∷ [])
    ∷ []

abbrev pub encode_exchange : Layouts
encode_exchange =
    -- AMQP_EXCHANGE_DECLARE_METHOD
    (
      2621450,
      short "ticket"
          ∷ shortstr "exchange"
          ∷ shortstr "type"
          ∷ bits ("passive" ∷ "durable" ∷ "auto_delete" ∷ "internal" ∷ "nowait" ∷ [])
          ∷ table "arguments"
          ∷ [],
    )
    ∷
        -- AMQP_EXCHANGE_DECLARE_OK_METHOD
        (2621451, [])
    ∷
        -- AMQP_EXCHANGE_DELETE_METHOD
        (2621460, short "ticket" ∷ shortstr "exchange" ∷ bits ("if_unused" ∷ "nowait" ∷ []) ∷ [])
    ∷
        -- AMQP_EXCHANGE_DELETE_OK_METHOD
        (2621461, [])
    ∷ []

abbrev pub encode_queue : Layouts
encode_queue =
    -- AMQP_QUEUE_DECLARE_METHOD
    (
      3276810,
      short "ticket"
          ∷ shortstr "queue"
          ∷ bits ("passive" ∷ "durable" ∷ "exclusive" ∷ "auto_delete" ∷ "nowait" ∷ [])
          ∷ table "arguments"
          ∷ [],
    )
    ∷
        -- AMQP_QUEUE_DECLARE_OK_METHOD
        (3276811, shortstr "queue" ∷ long "message_count" ∷ long "consumer_count" ∷ [])
    ∷
        -- AMQP_QUEUE_BIND_METHOD
        (
          3276820,
          short "ticket"
              ∷ shortstr "queue"
              ∷ shortstr "exchange"
              ∷ shortstr "routing_key"
              ∷ bits ("nowait" ∷ [])
              ∷ table "arguments"
              ∷ [],
        )
    ∷
        -- AMQP_QUEUE_BIND_OK_METHOD
        (3276821, [])
    ∷
        -- AMQP_QUEUE_PURGE_METHOD
        (3276830, short "ticket" ∷ shortstr "queue" ∷ bits ("nowait" ∷ []) ∷ [])
    ∷
        -- AMQP_QUEUE_PURGE_OK_METHOD
        (3276831, long "message_count" ∷ [])
    ∷
        -- AMQP_QUEUE_DELETE_METHOD
        (
          3276840,
          short "ticket" ∷ shortstr "queue" ∷ bits ("if_unused" ∷ "if_empty" ∷ "nowait" ∷ []) ∷ [],
        )
    ∷
        -- AMQP_QUEUE_DELETE_OK_METHOD
        (3276841, long "message_count" ∷ [])
    ∷
        -- AMQP_QUEUE_UNBIND_METHOD
        (
          3276850,
          short "ticket"
              ∷ shortstr "queue"
              ∷ shortstr "exchange"
              ∷ shortstr "routing_key"
              ∷ table "arguments"
              ∷ [],
        )
    ∷
        -- AMQP_QUEUE_UNBIND_OK_METHOD
        (3276851, [])
    ∷ []

abbrev pub encode_core : Layouts
encode_core =
    encode_connection ++ encode_channel ++ encode_access ++ encode_exchange ++ encode_queue
