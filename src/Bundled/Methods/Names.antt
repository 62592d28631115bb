-- ===== src/Bundled/Methods/Names.antt =====
-- src/librabbitmq/amqp_framing.c, the cases of `amqp_method_name` and of `amqp_method_has_content`.
use pg_amqp.Base.{ℕ, String, List, [], ◌∷◌}

abbrev pub method_names : List (ℕ × String)
method_names =
    (655370, "AMQP_CONNECTION_START_METHOD")
    ∷ (655371, "AMQP_CONNECTION_START_OK_METHOD")
    ∷ (655380, "AMQP_CONNECTION_SECURE_METHOD")
    ∷ (655381, "AMQP_CONNECTION_SECURE_OK_METHOD")
    ∷ (655390, "AMQP_CONNECTION_TUNE_METHOD")
    ∷ (655391, "AMQP_CONNECTION_TUNE_OK_METHOD")
    ∷ (655400, "AMQP_CONNECTION_OPEN_METHOD")
    ∷ (655401, "AMQP_CONNECTION_OPEN_OK_METHOD")
    ∷ (655410, "AMQP_CONNECTION_REDIRECT_METHOD")
    ∷ (655420, "AMQP_CONNECTION_CLOSE_METHOD")
    ∷ (655421, "AMQP_CONNECTION_CLOSE_OK_METHOD")
    ∷ (1310730, "AMQP_CHANNEL_OPEN_METHOD")
    ∷ (1310731, "AMQP_CHANNEL_OPEN_OK_METHOD")
    ∷ (1310740, "AMQP_CHANNEL_FLOW_METHOD")
    ∷ (1310741, "AMQP_CHANNEL_FLOW_OK_METHOD")
    ∷ (1310750, "AMQP_CHANNEL_ALERT_METHOD")
    ∷ (1310760, "AMQP_CHANNEL_CLOSE_METHOD")
    ∷ (1310761, "AMQP_CHANNEL_CLOSE_OK_METHOD")
    ∷ (1966090, "AMQP_ACCESS_REQUEST_METHOD")
    ∷ (1966091, "AMQP_ACCESS_REQUEST_OK_METHOD")
    ∷ (2621450, "AMQP_EXCHANGE_DECLARE_METHOD")
    ∷ (2621451, "AMQP_EXCHANGE_DECLARE_OK_METHOD")
    ∷ (2621460, "AMQP_EXCHANGE_DELETE_METHOD")
    ∷ (2621461, "AMQP_EXCHANGE_DELETE_OK_METHOD")
    ∷ (3276810, "AMQP_QUEUE_DECLARE_METHOD")
    ∷ (3276811, "AMQP_QUEUE_DECLARE_OK_METHOD")
    ∷ (3276820, "AMQP_QUEUE_BIND_METHOD")
    ∷ (3276821, "AMQP_QUEUE_BIND_OK_METHOD")
    ∷ (3276830, "AMQP_QUEUE_PURGE_METHOD")
    ∷ (3276831, "AMQP_QUEUE_PURGE_OK_METHOD")
    ∷ (3276840, "AMQP_QUEUE_DELETE_METHOD")
    ∷ (3276841, "AMQP_QUEUE_DELETE_OK_METHOD")
    ∷ (3276850, "AMQP_QUEUE_UNBIND_METHOD")
    ∷ (3276851, "AMQP_QUEUE_UNBIND_OK_METHOD")
    ∷ (3932170, "AMQP_BASIC_QOS_METHOD")
    ∷ (3932171, "AMQP_BASIC_QOS_OK_METHOD")
    ∷ (3932180, "AMQP_BASIC_CONSUME_METHOD")
    ∷ (3932181, "AMQP_BASIC_CONSUME_OK_METHOD")
    ∷ (3932190, "AMQP_BASIC_CANCEL_METHOD")
    ∷ (3932191, "AMQP_BASIC_CANCEL_OK_METHOD")
    ∷ (3932200, "AMQP_BASIC_PUBLISH_METHOD")
    ∷ (3932210, "AMQP_BASIC_RETURN_METHOD")
    ∷ (3932220, "AMQP_BASIC_DELIVER_METHOD")
    ∷ (3932230, "AMQP_BASIC_GET_METHOD")
    ∷ (3932231, "AMQP_BASIC_GET_OK_METHOD")
    ∷ (3932232, "AMQP_BASIC_GET_EMPTY_METHOD")
    ∷ (3932240, "AMQP_BASIC_ACK_METHOD")
    ∷ (3932250, "AMQP_BASIC_REJECT_METHOD")
    ∷ (3932260, "AMQP_BASIC_RECOVER_METHOD")
    ∷ (4587530, "AMQP_FILE_QOS_METHOD")
    ∷ (4587531, "AMQP_FILE_QOS_OK_METHOD")
    ∷ (4587540, "AMQP_FILE_CONSUME_METHOD")
    ∷ (4587541, "AMQP_FILE_CONSUME_OK_METHOD")
    ∷ (4587550, "AMQP_FILE_CANCEL_METHOD")
    ∷ (4587551, "AMQP_FILE_CANCEL_OK_METHOD")
    ∷ (4587560, "AMQP_FILE_OPEN_METHOD")
    ∷ (4587561, "AMQP_FILE_OPEN_OK_METHOD")
    ∷ (4587570, "AMQP_FILE_STAGE_METHOD")
    ∷ (4587580, "AMQP_FILE_PUBLISH_METHOD")
    ∷ (4587590, "AMQP_FILE_RETURN_METHOD")
    ∷ (4587600, "AMQP_FILE_DELIVER_METHOD")
    ∷ (4587610, "AMQP_FILE_ACK_METHOD")
    ∷ (4587620, "AMQP_FILE_REJECT_METHOD")
    ∷ (5242890, "AMQP_STREAM_QOS_METHOD")
    ∷ (5242891, "AMQP_STREAM_QOS_OK_METHOD")
    ∷ (5242900, "AMQP_STREAM_CONSUME_METHOD")
    ∷ (5242901, "AMQP_STREAM_CONSUME_OK_METHOD")
    ∷ (5242910, "AMQP_STREAM_CANCEL_METHOD")
    ∷ (5242911, "AMQP_STREAM_CANCEL_OK_METHOD")
    ∷ (5242920, "AMQP_STREAM_PUBLISH_METHOD")
    ∷ (5242930, "AMQP_STREAM_RETURN_METHOD")
    ∷ (5242940, "AMQP_STREAM_DELIVER_METHOD")
    ∷ (5898250, "AMQP_TX_SELECT_METHOD")
    ∷ (5898251, "AMQP_TX_SELECT_OK_METHOD")
    ∷ (5898260, "AMQP_TX_COMMIT_METHOD")
    ∷ (5898261, "AMQP_TX_COMMIT_OK_METHOD")
    ∷ (5898270, "AMQP_TX_ROLLBACK_METHOD")
    ∷ (5898271, "AMQP_TX_ROLLBACK_OK_METHOD")
    ∷ (6553610, "AMQP_DTX_SELECT_METHOD")
    ∷ (6553611, "AMQP_DTX_SELECT_OK_METHOD")
    ∷ (6553620, "AMQP_DTX_START_METHOD")
    ∷ (6553621, "AMQP_DTX_START_OK_METHOD")
    ∷ (7208970, "AMQP_TUNNEL_REQUEST_METHOD")
    ∷ (7864330, "AMQP_TEST_INTEGER_METHOD")
    ∷ (7864331, "AMQP_TEST_INTEGER_OK_METHOD")
    ∷ (7864340, "AMQP_TEST_STRING_METHOD")
    ∷ (7864341, "AMQP_TEST_STRING_OK_METHOD")
    ∷ (7864350, "AMQP_TEST_TABLE_METHOD")
    ∷ (7864351, "AMQP_TEST_TABLE_OK_METHOD")
    ∷ (7864360, "AMQP_TEST_CONTENT_METHOD")
    ∷ (7864361, "AMQP_TEST_CONTENT_OK_METHOD")
    ∷ []

abbrev pub methods_with_content : List (ℕ × Unit {0})
methods_with_content =
    -- AMQP_BASIC_PUBLISH_METHOD
    (3932200, tt)
    ∷
        -- AMQP_BASIC_RETURN_METHOD
        (3932210, tt)
    ∷
        -- AMQP_BASIC_DELIVER_METHOD
        (3932220, tt)
    ∷
        -- AMQP_BASIC_GET_OK_METHOD
        (3932231, tt)
    ∷
        -- AMQP_FILE_STAGE_METHOD
        (4587570, tt)
    ∷
        -- AMQP_FILE_RETURN_METHOD
        (4587590, tt)
    ∷
        -- AMQP_STREAM_PUBLISH_METHOD
        (5242920, tt)
    ∷
        -- AMQP_STREAM_RETURN_METHOD
        (5242930, tt)
    ∷
        -- AMQP_STREAM_DELIVER_METHOD
        (5242940, tt)
    ∷
        -- AMQP_TUNNEL_REQUEST_METHOD
        (7208970, tt)
    ∷
        -- AMQP_TEST_CONTENT_METHOD
        (7864360, tt)
    ∷
        -- AMQP_TEST_CONTENT_OK_METHOD
        (7864361, tt)
    ∷ []
