-- ===== src/Bundled/Methods.antt =====
-- src/librabbitmq/amqp_framing.c: `amqp_encode_method` and `amqp_decode_method`, which find the case of a
-- method's number and write or read the struct of that method, and what else is known of a number. The
-- sizes of the structs are the compiler's.
pub mod DecodeCore
pub mod DecodeMessages
pub mod DecodeExtra
pub mod EncodeCore
pub mod EncodeMessages
pub mod EncodeExtra
pub mod StructsCore
pub mod StructsMessages
pub mod StructsExtra
pub mod Names
pub mod Agree
pub mod Ends
pub mod RoundTrip
use pg_amqp.Base.{ℕ, String, Bool, true, false, Option, none, some, present, List, [], ◌∷◌, ◌++◌}
use pg_amqp.Bundled.Encoder.{Spot, Encoder, Encoding, failed}
use pg_amqp.Bundled.Buffer.{Memory}
use pg_amqp.Bundled.Pool
use pg_amqp.Bundled.Pool.{State, amqp_pool_alloc}
use pg_amqp.Bundled.Reader.{Cursor, Reader, Reading, got, stopped, ◌>>=◌, AmqpBytes}
use pg_amqp.Bundled.Fields.{Layouts, Structs, Args, case_of, Item, encode_fields, decode_fields}

abbrev pub decode_layouts : Layouts
decode_layouts =
    DecodeCore.decode_core ++ DecodeMessages.decode_messages ++ DecodeExtra.decode_extra

abbrev pub encode_layouts : Layouts
encode_layouts =
    EncodeCore.encode_core ++ EncodeMessages.encode_messages ++ EncodeExtra.encode_extra

abbrev pub structs : Structs
structs = StructsCore.struct_core ++ StructsMessages.struct_messages ++ StructsExtra.struct_extra

-- ENOENT
abbrev pub enoent : ℕ
enoent = 2

-- The struct of a case; no case, no struct.
abbrev pub StructOf : Option (List Item) → Type 0
StructOf none = Unit
StructOf (some is) = Args is

unfoldable pub encode_case : ℕ → (c : Option (List Item)) → StructOf c → Encoder
unfolding encode_fields
encode_case len none _ s = failed enoent s.memory
encode_case len (some is) m s = encode_fields len is m s

-- `offset` starts at 0.
unfoldable pub amqp_encode_method :
    ℕ → (n : ℕ) → StructOf (case_of n encode_layouts) → Memory → Encoding
unfolding encode_case
amqp_encode_method len n m buffer =
    encode_case len (case_of n encode_layouts) m (record { memory = buffer; offset = 0 })

module _ (mem : Pool.Memory) (sizeof : ℕ → ℕ) (encoded : AmqpBytes) where
  -- `amqp_pool_alloc` of the struct: whether it is not NULL.
  unfoldable pub alloc_struct : ℕ → Reader Bool
  alloc_struct size c =
      let (r, h) = amqp_pool_alloc mem size c.heap in got (present r) (record c { heap = h })

  unfoldable pub decode_case : ℕ → (c : Option (List Item)) → Reader (StructOf c)
  unfolding alloc_struct decode_fields
  decode_case n none = λ c. stopped enoent c.heap
  decode_case n (some is) = do m ← alloc_struct (sizeof n); decode_fields mem encoded m is

  unfoldable pub amqp_decode_method :
      (n : ℕ) → State → Reading (StructOf (case_of n decode_layouts))
  unfolding decode_case
  amqp_decode_method n h =
      decode_case n (case_of n decode_layouts) (record { offset = 0; heap = h })

unfoldable pub amqp_method_name : ℕ → Option String
amqp_method_name n = case_of n Names.method_names

unfoldable pub amqp_method_has_content : ℕ → Bool
amqp_method_has_content n = present (case_of n Names.methods_with_content)
