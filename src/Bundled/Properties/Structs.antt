-- ===== src/Bundled/Properties/Structs.antt =====
-- src/librabbitmq/amqp_framing.h: the classes, and the members of the structs of their properties behind
-- `_flags`, with the bits of their flags.
use pg_amqp.Base.{ℕ, List, [], ◌∷◌}
use pg_amqp.Bundled.Fields.{Member, uint8, uint64, amqp_bytes_t, amqp_table_t}

abbrev pub properties_basic : List (ℕ × Member)
properties_basic =
    (15, amqp_bytes_t "content_type")
    ∷ (14, amqp_bytes_t "content_encoding")
    ∷ (13, amqp_table_t "headers")
    ∷ (12, uint8 "delivery_mode")
    ∷ (11, uint8 "priority")
    ∷ (10, amqp_bytes_t "correlation_id")
    ∷ (9, amqp_bytes_t "reply_to")
    ∷ (8, amqp_bytes_t "expiration")
    ∷ (7, amqp_bytes_t "message_id")
    ∷ (6, uint64 "timestamp")
    ∷ (5, amqp_bytes_t "type")
    ∷ (4, amqp_bytes_t "user_id")
    ∷ (3, amqp_bytes_t "app_id")
    ∷ (2, amqp_bytes_t "cluster_id")
    ∷ []

abbrev pub properties_file : List (ℕ × Member)
properties_file =
    (15, amqp_bytes_t "content_type")
    ∷ (14, amqp_bytes_t "content_encoding")
    ∷ (13, amqp_table_t "headers")
    ∷ (12, uint8 "priority")
    ∷ (11, amqp_bytes_t "reply_to")
    ∷ (10, amqp_bytes_t "message_id")
    ∷ (9, amqp_bytes_t "filename")
    ∷ (8, uint64 "timestamp")
    ∷ (7, amqp_bytes_t "cluster_id")
    ∷ []

abbrev pub properties_stream : List (ℕ × Member)
properties_stream =
    (15, amqp_bytes_t "content_type")
    ∷ (14, amqp_bytes_t "content_encoding")
    ∷ (13, amqp_table_t "headers")
    ∷ (12, uint8 "priority")
    ∷ (11, uint64 "timestamp")
    ∷ []

abbrev pub properties_tunnel : List (ℕ × Member)
properties_tunnel =
    (15, amqp_table_t "headers")
    ∷ (14, amqp_bytes_t "proxy_name")
    ∷ (13, amqp_bytes_t "data_name")
    ∷ (12, uint8 "durable")
    ∷ (11, uint8 "broadcast")
    ∷ []

abbrev pub properties_structs : List (ℕ × List (ℕ × Member))
properties_structs =
    (10, [])
    ∷ (20, [])
    ∷ (30, [])
    ∷ (40, [])
    ∷ (50, [])
    ∷ (60, properties_basic)
    ∷ (70, properties_file)
    ∷ (80, properties_stream)
    ∷ (90, [])
    ∷ (100, [])
    ∷ (110, properties_tunnel)
    ∷ (120, [])
    ∷ []
