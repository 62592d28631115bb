-- ===== src/Bundled/Fields/Ends.antt =====
-- `decode_fields` keeps the offset within the buffer.
use pg_amqp.Base.{ℕ, ◌≤◌, ◌≡◌, Bool, false, List, [], ◌∷◌, arith, chosen_by}
use pg_amqp.Bundled.Buffer.{Memory}
use pg_amqp.Bundled.Pool
use pg_amqp.Bundled.Reader.{Cursor, Reading, Reader, got, crashed, bind, amqp_bytes}
use pg_amqp.Bundled.Reader.Ends.{
  Ensures, Passes, Ensures-bind, Ensures-weaken, d_8-Passes, d_16-Passes, d_32-Passes, d_64-Passes,
  d_bytes-Passes,
}
use pg_amqp.Bundled.Pool.Filled.{RunsOut}
use pg_amqp.Bundled.Table.Ends.{amqp_decode_table-Passes}
use pg_amqp.Bundled.Fields.{
  Item, octet, short, long, longlong, shortstr, longstr, table, bits, store, decode_item,
  decode_fields,
}

module _ (mem : Pool.Memory) (m : Memory) (len : ℕ) (there : Bool) where
  -- A struct that is not there is NULL because an allocation failed.
  abbrev pub Allocated : Type 0
  Allocated = there ≡ false → RunsOut mem

  abbrev pub Within : {A : Type 0} → Cursor → A → Cursor → Type 0
  Within c = Passes len c.offset 0

  -- A store behind a read, and what comes next.
  pub store-Within :
      {A : Type 0} (c d : Cursor) (f : Unit {0} → Reader A)
      → Allocated
      → Ensures mem (Within c) (f tt d)
      → Ensures mem (Within c) (bind (store mem (amqp_bytes m len) there d) f)
  unfolding store Ensures
  store-Within c d f missing h =
      chosen_by (λ (r : Reader (Unit {0})). Ensures mem (Within c) (bind (r d) f)) there
        (λ c'. got tt c') (λ c'. crashed) (λ _. h) missing

  read-Within :
      {A B : Type 0} (n : ℕ) (c : Cursor) (r : Reading A) (f : A → Reader B)
      → Allocated
      → Ensures mem (Passes len c.offset n) r
      → ((a : A) (d : Cursor) → Passes len c.offset n a d → Ensures mem (Within c) (f a d))
      → Ensures mem
          (Within c)
          (bind r (λ a d. bind (store mem (amqp_bytes m len) there d) (λ _. f a)))
  read-Within {A} {B} n c r f missing h k =
      Ensures-bind mem (Passes len c.offset n) (Within c) r _ h
        λ a d p. store-Within c d (λ _. f a) missing (k a d p)

  pub decode_item-Within :
      (i : Item) (c : Cursor)
      → Allocated
      → Ensures mem (Within c) (decode_item mem (amqp_bytes m len) there i c)
  unfolding decode_item Ensures
  decode_item-Within (octet _) c h =
      read-Within 1 c _ _ h (d_8-Passes mem m len c) λ a d p. (omega arith, p.1)
  decode_item-Within (short _) c h =
      read-Within 2 c _ _ h (d_16-Passes mem m len c) λ a d p. (omega arith, p.1)
  decode_item-Within (long _) c h =
      read-Within 4 c _ _ h (d_32-Passes mem m len c) λ a d p. (omega arith, p.1)
  decode_item-Within (longlong _) c h =
      read-Within 8 c _ _ h (d_64-Passes mem m len c) λ a d p. (omega arith, p.1)
  decode_item-Within (shortstr _) c h = read-Within 1 c _ _ h (d_8-Passes mem m len c) λ n d p.
      Ensures-weaken mem (Passes len d.offset n) (Within c) _ (d_bytes-Passes mem m len n d)
        λ bs e q. (omega arith, q.1)
  decode_item-Within (longstr _) c h = read-Within 4 c _ _ h (d_32-Passes mem m len c) λ n d p.
      Ensures-weaken mem (Passes len d.offset n) (Within c) _ (d_bytes-Passes mem m len n d)
        λ bs e q. (omega arith, q.1)
  decode_item-Within (table _) c h =
      read-Within 4 c _ _ h (amqp_decode_table-Passes mem m len c) λ a d p. (omega arith, p.1)
  decode_item-Within (bits fs) c h =
      read-Within 1 c _ _ h (d_8-Passes mem m len c) λ a d p. (omega arith, p.1)

  pub decode_fields-Within :
      (is : List Item) (c : Cursor)
      → Allocated
      → c.offset ≤ len
      → Ensures mem (Within c) (decode_fields mem (amqp_bytes m len) there is c)
  unfolding decode_fields Ensures
  decode_fields-Within [] c h room = (omega arith, room)
  decode_fields-Within (i ∷ is) c h room =
      Ensures-bind mem (Within c) (Within c) _ _ (decode_item-Within i c h) λ a d p.
        Ensures-bind mem (Within d) (Within c) _ _ (decode_fields-Within is d h p.1)
          λ more e q. (omega arith, q.1)
