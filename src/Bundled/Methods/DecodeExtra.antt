-- ===== src/Bundled/Methods/DecodeExtra.antt =====
-- src/librabbitmq/amqp_framing.c, `amqp_decode_method`: what each case of the switch reads, in
-- order, and the field it stores to, for the classes stream, tx, dtx, tunnel and test.
use pg_amqp.Base.{[], ◌∷◌, ◌++◌}
use pg_amqp.Bundled.Fields.{Layouts, octet, short, long, longlong, shortstr, longstr, table, bits}

abbrev pub decode_stream : Layouts
decode_stream =
    -- AMQP_STREAM_QOS_METHOD
    (
      5242890,
      long "prefetch_size"
          ∷ short "prefetch_count"
          ∷ long "consume_rate"
          ∷ bits ("global" ∷ [])
          ∷ [],
    )
    ∷
        -- AMQP_STREAM_QOS_OK_METHOD
        (5242891, [])
    ∷
        -- AMQP_STREAM_CONSUME_METHOD
        (
          5242900,
          short "ticket"
              ∷ shortstr "queue"
              ∷ shortstr "consumer_tag"
              ∷ bits ("no_local" ∷ "exclusive" ∷ "nowait" ∷ [])
              ∷ [],
        )
    ∷
        -- AMQP_STREAM_CONSUME_OK_METHOD
        (5242901, shortstr "consumer_tag" ∷ [])
    ∷
        -- AMQP_STREAM_CANCEL_METHOD
        (5242910, shortstr "consumer_tag" ∷ bits ("nowait" ∷ []) ∷ [])
    ∷
        -- AMQP_STREAM_CANCEL_OK_METHOD
        (5242911, shortstr "consumer_tag" ∷ [])
    ∷
        -- AMQP_STREAM_PUBLISH_METHOD
        (
          5242920,
          short "ticket"
              ∷ shortstr "exchange"
              ∷ shortstr "routing_key"
              ∷ bits ("mandatory" ∷ "immediate" ∷ [])
              ∷ [],
        )
    ∷
        -- AMQP_STREAM_RETURN_METHOD
        (
          5242930,
          short "reply_code"
              ∷ shortstr "reply_text"
              ∷ shortstr "exchange"
              ∷ shortstr "routing_key"
              ∷ [],
        )
    ∷
        -- AMQP_STREAM_DELIVER_METHOD
        (
          5242940,
          shortstr "consumer_tag"
              ∷ longlong "delivery_tag"
              ∷ shortstr "exchange"
              ∷ shortstr "queue"
              ∷ [],
        )
    ∷ []

abbrev pub decode_tx : Layouts
decode_tx =
    -- AMQP_TX_SELECT_METHOD
    (5898250, [])
    ∷
        -- AMQP_TX_SELECT_OK_METHOD
        (5898251, [])
    ∷
        -- AMQP_TX_COMMIT_METHOD
        (5898260, [])
    ∷
        -- AMQP_TX_COMMIT_OK_METHOD
        (5898261, [])
    ∷
        -- AMQP_TX_ROLLBACK_METHOD
        (5898270, [])
    ∷
        -- AMQP_TX_ROLLBACK_OK_METHOD
        (5898271, [])
    ∷ []

abbrev pub decode_dtx : Layouts
decode_dtx =
    -- AMQP_DTX_SELECT_METHOD
    (6553610, [])
    ∷
        -- AMQP_DTX_SELECT_OK_METHOD
        (6553611, [])
    ∷
        -- AMQP_DTX_START_METHOD
        (6553620, shortstr "dtx_identifier" ∷ [])
    ∷
        -- AMQP_DTX_START_OK_METHOD
        (6553621, [])
    ∷ []

abbrev pub decode_tunnel : Layouts
decode_tunnel =
    -- AMQP_TUNNEL_REQUEST_METHOD
    (7208970, table "meta_data" ∷ []) ∷ []

abbrev pub decode_test : Layouts
decode_test =
    -- AMQP_TEST_INTEGER_METHOD
    (
      7864330,
      octet "integer_1"
          ∷ short "integer_2"
          ∷ long "integer_3"
          ∷ longlong "integer_4"
          ∷ octet "operation"
          ∷ [],
    )
    ∷
        -- AMQP_TEST_INTEGER_OK_METHOD
        (7864331, longlong "result" ∷ [])
    ∷
        -- AMQP_TEST_STRING_METHOD
        (7864340, shortstr "string_1" ∷ longstr "string_2" ∷ octet "operation" ∷ [])
    ∷
        -- AMQP_TEST_STRING_OK_METHOD
        (7864341, longstr "result" ∷ [])
    ∷
        -- AMQP_TEST_TABLE_METHOD
        (7864350, table "table" ∷ octet "integer_op" ∷ octet "string_op" ∷ [])
    ∷
        -- AMQP_TEST_TABLE_OK_METHOD
        (7864351, longlong "integer_result" ∷ longstr "string_result" ∷ [])
    ∷
        -- AMQP_TEST_CONTENT_METHOD
        (7864360, [])
    ∷
        -- AMQP_TEST_CONTENT_OK_METHOD
        (7864361, long "content_checksum" ∷ [])
    ∷ []

abbrev pub decode_extra : Layouts
decode_extra = decode_stream ++ decode_tx ++ decode_dtx ++ decode_tunnel ++ decode_test
