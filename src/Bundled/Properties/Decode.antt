-- ===== src/Bundled/Properties/Decode.antt =====
-- src/librabbitmq/amqp_framing.c, `amqp_decode_properties`: what each case of the switch reads, in
-- order, each under the flag with the given bit.
use pg_amqp.Base.{ℕ, List, [], ◌∷◌}
use pg_amqp.Bundled.Fields.{PropertyLayouts, Item, octet, shortstr, longlong, table}

abbrev pub decode_properties_basic : List (ℕ × Item)
decode_properties_basic =
    (15, shortstr "content_type")
    ∷ (14, shortstr "content_encoding")
    ∷ (13, table "headers")
    ∷ (12, octet "delivery_mode")
    ∷ (11, octet "priority")
    ∷ (10, shortstr "correlation_id")
    ∷ (9, shortstr "reply_to")
    ∷ (8, shortstr "expiration")
    ∷ (7, shortstr "message_id")
    ∷ (6, longlong "timestamp")
    ∷ (5, shortstr "type")
    ∷ (4, shortstr "user_id")
    ∷ (3, shortstr "app_id")
    ∷ (2, shortstr "cluster_id")
    ∷ []

abbrev pub decode_properties_file : List (ℕ × Item)
decode_properties_file =
    (15, shortstr "content_type")
    ∷ (14, shortstr "content_encoding")
    ∷ (13, table "headers")
    ∷ (12, octet "priority")
    ∷ (11, shortstr "reply_to")
    ∷ (10, shortstr "message_id")
    ∷ (9, shortstr "filename")
    ∷ (8, longlong "timestamp")
    ∷ (7, shortstr "cluster_id")
    ∷ []

abbrev pub decode_properties_stream : List (ℕ × Item)
decode_properties_stream =
    (15, shortstr "content_type")
    ∷ (14, shortstr "content_encoding")
    ∷ (13, table "headers")
    ∷ (12, octet "priority")
    ∷ (11, longlong "timestamp")
    ∷ []

abbrev pub decode_properties_tunnel : List (ℕ × Item)
decode_properties_tunnel =
    (15, table "headers")
    ∷ (14, shortstr "proxy_name")
    ∷ (13, shortstr "data_name")
    ∷ (12, octet "durable")
    ∷ (11, octet "broadcast")
    ∷ []

abbrev pub decode_properties_layouts : PropertyLayouts
decode_properties_layouts =
    (10, [])
    ∷ (20, [])
    ∷ (30, [])
    ∷ (40, [])
    ∷ (50, [])
    ∷ (60, decode_properties_basic)
    ∷ (70, decode_properties_file)
    ∷ (80, decode_properties_stream)
    ∷ (90, [])
    ∷ (100, [])
    ∷ (110, decode_properties_tunnel)
    ∷ (120, [])
    ∷ []
