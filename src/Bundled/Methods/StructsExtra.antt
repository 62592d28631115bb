-- ===== src/Bundled/Methods/StructsExtra.antt =====
-- src/librabbitmq/amqp_framing.h: the numbers of the methods and the members of their structs, for
-- the classes stream, tx, dtx, tunnel and test.
use pg_amqp.Base.{[], ◌∷◌, ◌++◌}
use pg_amqp.Bundled.Fields.{
  Structs, uint8, uint16, uint32, uint64, amqp_bytes_t, amqp_table_t, amqp_boolean_t,
}

abbrev pub struct_stream : Structs
struct_stream =
    -- AMQP_STREAM_QOS_METHOD
    (
      5242890,
      uint32 "prefetch_size"
          ∷ uint16 "prefetch_count"
          ∷ uint32 "consume_rate"
          ∷ amqp_boolean_t "global"
          ∷ [],
    )
    ∷
        -- AMQP_STREAM_QOS_OK_METHOD
        (5242891, [])
    ∷
        -- AMQP_STREAM_CONSUME_METHOD
        (
          5242900,
          uint16 "ticket"
              ∷ amqp_bytes_t "queue"
              ∷ amqp_bytes_t "consumer_tag"
              ∷ amqp_boolean_t "no_local"
              ∷ amqp_boolean_t "exclusive"
              ∷ amqp_boolean_t "nowait"
              ∷ [],
        )
    ∷
        -- AMQP_STREAM_CONSUME_OK_METHOD
        (5242901, amqp_bytes_t "consumer_tag" ∷ [])
    ∷
        -- AMQP_STREAM_CANCEL_METHOD
        (5242910, amqp_bytes_t "consumer_tag" ∷ amqp_boolean_t "nowait" ∷ [])
    ∷
        -- AMQP_STREAM_CANCEL_OK_METHOD
        (5242911, amqp_bytes_t "consumer_tag" ∷ [])
    ∷
        -- AMQP_STREAM_PUBLISH_METHOD
        (
          5242920,
          uint16 "ticket"
              ∷ amqp_bytes_t "exchange"
              ∷ amqp_bytes_t "routing_key"
              ∷ amqp_boolean_t "mandatory"
              ∷ amqp_boolean_t "immediate"
              ∷ [],
        )
    ∷
        -- AMQP_STREAM_RETURN_METHOD
        (
          5242930,
          uint16 "reply_code"
              ∷ amqp_bytes_t "reply_text"
              ∷ amqp_bytes_t "exchange"
              ∷ amqp_bytes_t "routing_key"
              ∷ [],
        )
    ∷
        -- AMQP_STREAM_DELIVER_METHOD
        (
          5242940,
          amqp_bytes_t "consumer_tag"
              ∷ uint64 "delivery_tag"
              ∷ amqp_bytes_t "exchange"
              ∷ amqp_bytes_t "queue"
              ∷ [],
        )
    ∷ []

abbrev pub struct_tx : Structs
struct_tx =
    -- AMQP_TX_SELECT_METHOD
    (5898250, [])
    ∷
        -- AMQP_TX_SELECT_OK_METHOD
        (5898251, [])
    ∷
        -- AMQP_TX_COMMIT_METHOD
        (5898260, [])
    ∷
        -- AMQP_TX_COMMIT_OK_METHOD
        (5898261, [])
    ∷
        -- AMQP_TX_ROLLBACK_METHOD
        (5898270, [])
    ∷
        -- AMQP_TX_ROLLBACK_OK_METHOD
        (5898271, [])
    ∷ []

abbrev pub struct_dtx : Structs
struct_dtx =
    -- AMQP_DTX_SELECT_METHOD
    (6553610, [])
    ∷
        -- AMQP_DTX_SELECT_OK_METHOD
        (6553611, [])
    ∷
        -- AMQP_DTX_START_METHOD
        (6553620, amqp_bytes_t "dtx_identifier" ∷ [])
    ∷
        -- AMQP_DTX_START_OK_METHOD
        (6553621, [])
    ∷ []

abbrev pub struct_tunnel : Structs
struct_tunnel =
    -- AMQP_TUNNEL_REQUEST_METHOD
    (7208970, amqp_table_t "meta_data" ∷ []) ∷ []

abbrev pub struct_test : Structs
struct_test =
    -- AMQP_TEST_INTEGER_METHOD
    (
      7864330,
      uint8 "integer_1"
          ∷ uint16 "integer_2"
          ∷ uint32 "integer_3"
          ∷ uint64 "integer_4"
          ∷ uint8 "operation"
          ∷ [],
    )
    ∷
        -- AMQP_TEST_INTEGER_OK_METHOD
        (7864331, uint64 "result" ∷ [])
    ∷
        -- AMQP_TEST_STRING_METHOD
        (7864340, amqp_bytes_t "string_1" ∷ amqp_bytes_t "string_2" ∷ uint8 "operation" ∷ [])
    ∷
        -- AMQP_TEST_STRING_OK_METHOD
        (7864341, amqp_bytes_t "result" ∷ [])
    ∷
        -- AMQP_TEST_TABLE_METHOD
        (7864350, amqp_table_t "table" ∷ uint8 "integer_op" ∷ uint8 "string_op" ∷ [])
    ∷
        -- AMQP_TEST_TABLE_OK_METHOD
        (7864351, uint64 "integer_result" ∷ amqp_bytes_t "string_result" ∷ [])
    ∷
        -- AMQP_TEST_CONTENT_METHOD
        (7864360, [])
    ∷
        -- AMQP_TEST_CONTENT_OK_METHOD
        (7864361, uint32 "content_checksum" ∷ [])
    ∷ []

abbrev pub struct_extra : Structs
struct_extra = struct_stream ++ struct_tx ++ struct_dtx ++ struct_tunnel ++ struct_test
