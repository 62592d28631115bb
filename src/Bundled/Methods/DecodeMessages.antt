-- ===== src/Bundled/Methods/DecodeMessages.antt =====
-- src/librabbitmq/amqp_framing.c, `amqp_decode_method`: what each case of the switch reads, in
-- order, and the field it stores to, for the classes basic and file.
use pg_amqp.Base.{[], ◌∷◌, ◌++◌}
use pg_amqp.Bundled.Fields.{Layouts, short, long, longlong, shortstr, bits}

abbrev pub decode_basic : Layouts
decode_basic =
    -- AMQP_BASIC_QOS_METHOD
    (3932170, long "prefetch_size" ∷ short "prefetch_count" ∷ bits ("global" ∷ []) ∷ [])
    ∷
        -- AMQP_BASIC_QOS_OK_METHOD
        (3932171, [])
    ∷
        -- AMQP_BASIC_CONSUME_METHOD
        (
          3932180,
          short "ticket"
              ∷ shortstr "queue"
              ∷ shortstr "consumer_tag"
              ∷ bits ("no_local" ∷ "no_ack" ∷ "exclusive" ∷ "nowait" ∷ [])
              ∷ [],
        )
    ∷
        -- AMQP_BASIC_CONSUME_OK_METHOD
        (3932181, shortstr "consumer_tag" ∷ [])
    ∷
        -- AMQP_BASIC_CANCEL_METHOD
        (3932190, shortstr "consumer_tag" ∷ bits ("nowait" ∷ []) ∷ [])
    ∷
        -- AMQP_BASIC_CANCEL_OK_METHOD
        (3932191, shortstr "consumer_tag" ∷ [])
    ∷
        -- AMQP_BASIC_PUBLISH_METHOD
        (
          3932200,
          short "ticket"
              ∷ shortstr "exchange"
              ∷ shortstr "routing_key"
              ∷ bits ("mandatory" ∷ "immediate" ∷ [])
              ∷ [],
        )
    ∷ []

abbrev pub decode_basic_delivery : Layouts
decode_basic_delivery =
    -- AMQP_BASIC_RETURN_METHOD
    (
      3932210,
      short "reply_code"
          ∷ shortstr "reply_text"
          ∷ shortstr "exchange"
          ∷ shortstr "routing_key"
          ∷ [],
    )
    ∷
        -- AMQP_BASIC_DELIVER_METHOD
        (
          3932220,
          shortstr "consumer_tag"
              ∷ longlong "delivery_tag"
              ∷ bits ("redelivered" ∷ [])
              ∷ shortstr "exchange"
              ∷ shortstr "routing_key"
              ∷ [],
        )
    ∷
        -- AMQP_BASIC_GET_METHOD
        (3932230, short "ticket" ∷ shortstr "queue" ∷ bits ("no_ack" ∷ []) ∷ [])
    ∷
        -- AMQP_BASIC_GET_OK_METHOD
        (
          3932231,
          longlong "delivery_tag"
              ∷ bits ("redelivered" ∷ [])
              ∷ shortstr "exchange"
              ∷ shortstr "routing_key"
              ∷ long "message_count"
              ∷ [],
        )
    ∷
        -- AMQP_BASIC_GET_EMPTY_METHOD
        (3932232, shortstr "cluster_id" ∷ [])
    ∷
        -- AMQP_BASIC_ACK_METHOD
        (3932240, longlong "delivery_tag" ∷ bits ("multiple" ∷ []) ∷ [])
    ∷
        -- AMQP_BASIC_REJECT_METHOD
        (3932250, longlong "delivery_tag" ∷ bits ("requeue" ∷ []) ∷ [])
    ∷
        -- AMQP_BASIC_RECOVER_METHOD
        (3932260, bits ("requeue" ∷ []) ∷ [])
    ∷ []

abbrev pub decode_file : Layouts
decode_file =
    -- AMQP_FILE_QOS_METHOD
    (4587530, long "prefetch_size" ∷ short "prefetch_count" ∷ bits ("global" ∷ []) ∷ [])
    ∷
        -- AMQP_FILE_QOS_OK_METHOD
        (4587531, [])
    ∷
        -- AMQP_FILE_CONSUME_METHOD
        (
          4587540,
          short "ticket"
              ∷ shortstr "queue"
              ∷ shortstr "consumer_tag"
              ∷ bits ("no_local" ∷ "no_ack" ∷ "exclusive" ∷ "nowait" ∷ [])
              ∷ [],
        )
    ∷
        -- AMQP_FILE_CONSUME_OK_METHOD
        (4587541, shortstr "consumer_tag" ∷ [])
    ∷
        -- AMQP_FILE_CANCEL_METHOD
        (4587550, shortstr "consumer_tag" ∷ bits ("nowait" ∷ []) ∷ [])
    ∷
        -- AMQP_FILE_CANCEL_OK_METHOD
        (4587551, shortstr "consumer_tag" ∷ [])
    ∷
        -- AMQP_FILE_OPEN_METHOD
        (4587560, shortstr "identifier" ∷ longlong "content_size" ∷ [])
    ∷
        -- AMQP_FILE_OPEN_OK_METHOD
        (4587561, longlong "staged_size" ∷ [])
    ∷ []

abbrev pub decode_file_transfer : Layouts
decode_file_transfer =
    -- AMQP_FILE_STAGE_METHOD
    (4587570, [])
    ∷
        -- AMQP_FILE_PUBLISH_METHOD
        (
          4587580,
          short "ticket"
              ∷ shortstr "exchange"
              ∷ shortstr "routing_key"
              ∷ bits ("mandatory" ∷ "immediate" ∷ [])
              ∷ shortstr "identifier"
              ∷ [],
        )
    ∷
        -- AMQP_FILE_RETURN_METHOD
        (
          4587590,
          short "reply_code"
              ∷ shortstr "reply_text"
              ∷ shortstr "exchange"
              ∷ shortstr "routing_key"
              ∷ [],
        )
    ∷
        -- AMQP_FILE_DELIVER_METHOD
        (
          4587600,
          shortstr "consumer_tag"
              ∷ longlong "delivery_tag"
              ∷ bits ("redelivered" ∷ [])
              ∷ shortstr "exchange"
              ∷ shortstr "routing_key"
              ∷ shortstr "identifier"
              ∷ [],
        )
    ∷
        -- AMQP_FILE_ACK_METHOD
        (4587610, longlong "delivery_tag" ∷ bits ("multiple" ∷ []) ∷ [])
    ∷
        -- AMQP_FILE_REJECT_METHOD
        (4587620, longlong "delivery_tag" ∷ bits ("requeue" ∷ []) ∷ [])
    ∷ []

abbrev pub decode_messages : Layouts
decode_messages = decode_basic ++ decode_basic_delivery ++ decode_file ++ decode_file_transfer
