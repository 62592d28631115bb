-- ===== src/Tests/Codec.antt =====
-- The codec of the bundled library at concrete inputs: src/librabbitmq/amqp_table.c and
-- amqp_framing.c.
use pg_amqp.Base.{◌≡◌, refl, true, false, present, [], ◌∷◌, arith}
use mathlib.Core.Path.{subst}
use mathlib.Core.Option
use pg_amqp.Bundled.Buffer.{Memory, set_bytes}
use pg_amqp.Bundled.Pool
use pg_amqp.Bundled.Pool.{State, set_pool, init_amqp_pool, amqp_pool_alloc}
use pg_amqp.Bundled.Encoder.{Spot, Encoding, encoded, failed, emit}
use pg_amqp.Bundled.Encoder.Stored.{Stored}
use pg_amqp.Bundled.Reader.{amqp_bytes}
use pg_amqp.Bundled.Reader.Ends.{Ensures, Passes}
use pg_amqp.Bundled.Reader.Gives.{at, Gives}
use pg_amqp.Bundled.Table.{
  Table, i32, u64, table, no_entries, entry, encode_entries, emit_size, amqp_encode_table,
}
use pg_amqp.Bundled.Table.Wire.{wire, known_entries, amqp_encode_table-Stored}
use pg_amqp.Bundled.Table.Decode.{amqp_decode_table}
use pg_amqp.Bundled.Table.Ends.{amqp_decode_table-Ends}
use pg_amqp.Bundled.Table.ReadBack.{InRange}
use pg_amqp.Bundled.Table.RoundTrip.{amqp_decode_table-amqp_encode_table}
use pg_amqp.Bundled.Fields.{members, case_of, encode_fields, encode_item}
use pg_amqp.Bundled.Methods.{
  StructOf, encode_layouts, decode_layouts, structs, amqp_method_name, encode_case,
  amqp_encode_method, amqp_decode_method,
}
use pg_amqp.Bundled.Methods.Agree.{same_layouts, amqp_methods-Agree}
use pg_amqp.Bundled.Methods.Ends.{amqp_decode_method-Ends, amqp_decode_method-agree}
use pg_amqp.Bundled.Methods.RoundTrip.{amqp_decode_method-amqp_encode_method}

abbrev pub blank : Memory
blank = λ i. 0

abbrev start : Spot
start = record { memory = blank; offset = 2 }

abbrev pub heap : State
heap = set_pool (init_amqp_pool 4096) []

abbrev pub plenty : Pool.Memory
plenty = λ cs n. true

-- A name with an integer, and one with a table inside.
abbrev two_entries : Table
two_entries =
    entry (97 ∷ []) (i32 7)
      (entry (98 ∷ []) (table (entry (99 ∷ []) (u64 9) no_entries)) no_entries)

abbrev pub left : Encoding → Spot
left (encoded s) = s
left (failed e m) = start

abbrev written : Spot
written = left (amqp_encode_table 64 two_entries start)

amqp_encode_table-Stored_example :
    Stored 64 start
      (known_entries two_entries)
      (wire two_entries)
      (amqp_encode_table 64 two_entries start)
amqp_encode_table-Stored_example = amqp_encode_table-Stored 64 two_entries start (omega arith)

-- A size of four bytes with one entry whose kind is not known.
abbrev malformed : Memory
malformed = set_bytes blank 0 (0 ∷ 0 ∷ 0 ∷ 3 ∷ 1 ∷ 97 ∷ 120 ∷ [])

amqp_decode_table-Ends_example :
    Ensures plenty (Passes 7 0 4) (amqp_decode_table plenty (amqp_bytes malformed 7) (at 0 heap))
amqp_decode_table-Ends_example = amqp_decode_table-Ends plenty malformed 7 (at 0 heap) (omega arith)

amqp_decode_table-amqp_encode_table_example :
    Gives two_entries written.offset
      (amqp_decode_table plenty (amqp_bytes written.memory 64) (at 2 heap))
unfolding InRange amqp_encode_table encode_entries emit emit_size
amqp_decode_table-amqp_encode_table_example =
    amqp_decode_table-amqp_encode_table plenty 64 two_entries start written heap (λ cs n. refl)
      (omega arith) (omega arith, omega arith, (omega arith, (omega arith, omega arith, tt), tt))
      refl

-- AMQP_BASIC_PUBLISH_METHOD
amqp_methods-Agree_example :
    (Option.map members (case_of 3932200 encode_layouts) ≡ case_of 3932200 structs)
    × (case_of 3932200 decode_layouts ≡ case_of 3932200 encode_layouts)
    × (present (amqp_method_name 3932200) ≡ present (case_of 3932200 decode_layouts))
amqp_methods-Agree_example = amqp_methods-Agree 3932200

amqp_decode_method-Ends_example :
    Ensures plenty
      (Passes 7 0 0)
      (amqp_decode_method plenty (λ n. 48) (amqp_bytes malformed 7) 3932200 heap)
amqp_decode_method-Ends_example =
    amqp_decode_method-Ends plenty (λ n. 48) malformed 7 3932200 heap (omega arith) (omega arith)

amqp_decode_method-agree_example :
    amqp_decode_method plenty (λ n. 48) (amqp_bytes malformed 7) 3932200 heap
    ≡ amqp_decode_method plenty
        (λ n. 48)
        (amqp_bytes (set_bytes malformed 9 (5 ∷ [])) 7)
        3932200
        heap
unfolding set_bytes
amqp_decode_method-agree_example =
    amqp_decode_method-agree plenty (λ n. 48) malformed (set_bytes malformed 9 (5 ∷ [])) 7 3932200
      heap (λ i h. ground arith)

-- To an exchange of one byte and a routing key of two, mandatory.
abbrev pub published : StructOf (case_of 3932200 encode_layouts)
published = (0, (1 ∷ [], (2 ∷ 3 ∷ [], ((true, (false, tt)), tt))))

abbrev method_written : Spot
method_written = left (amqp_encode_method 64 3932200 published blank)

amqp_decode_method-amqp_encode_method_example :
    Gives
      (subst (λ ls. StructOf (case_of 3932200 ls)) same_layouts published)
      method_written.offset
      (amqp_decode_method plenty (λ n. 48) (amqp_bytes method_written.memory 64) 3932200 heap)
unfolding amqp_encode_method encode_case encode_fields encode_item emit
amqp_decode_method-amqp_encode_method_example =
    amqp_decode_method-amqp_encode_method plenty (λ n. 48) 64 3932200 published blank method_written
      heap (λ cs n. refl) (omega arith) (omega arith)
      (omega arith, (omega arith, (omega arith, (omega arith, tt)))) refl
