-- ===== src/Bundled/Properties/Ends.antt =====
-- `amqp_decode_properties` on whatever bytes arrive.
use pg_amqp.Base.{
  ℕ, zero, suc, ◌+◌, ◌^◌, ◌≤◌, ◌<◌, ◌≡◌, ◌≢◌, Bool, true, false, Option, none, some, List, [], ◌∷◌,
  ◌%◌, ◌==◌, arith, chosen_by,
}
use pg_amqp.Bundled.Buffer.{Memory}
use pg_amqp.Bundled.Pool
use pg_amqp.Bundled.Pool.{State}
use pg_amqp.Bundled.Reader.{Cursor, Reader, pure, amqp_bytes, d_16}
use pg_amqp.Bundled.Reader.Ends.{Ensures, Passes, Ensures-bind, Ensures-weaken, d_16-Passes}
use pg_amqp.Bundled.Fields.{Item, case_of}
use pg_amqp.Bundled.Fields.Ends.{Allocated, decode_item-Within, store-Within}
use pg_amqp.Bundled.Methods.{alloc_struct}
use pg_amqp.Bundled.Methods.Ends.{alloc_struct-Allocated}
use pg_amqp.Bundled.Properties.{
  flag, add_flags, decode_flags, decode_given, decode_members, decode_class, amqp_decode_properties,
}
use pg_amqp.Bundled.Properties.Decode.{decode_properties_layouts}

module _ (shift_beyond : ℕ → ℕ → ℕ) (mem : Pool.Memory) (sizeof : ℕ → ℕ) (m : Memory)
    (len : ℕ) where
  pure-Passes :
      (a : ℕ) (c d : Cursor)
      → (c.offset + 2 ≤ d.offset) × (d.offset ≤ len)
      → Ensures mem (Passes len c.offset 2) (pure a d)
  unfolding Ensures
  pure-Passes a c d p = p

  -- Each word moves the offset by two, so one round for each byte and one more are enough.
  decode_flags-Passes :
      (f index flags : ℕ) (c : Cursor)
      → len < c.offset + f
      → c.offset ≤ len
      → Ensures mem
          (Passes len c.offset 2)
          (decode_flags shift_beyond mem sizeof (amqp_bytes m len) f index flags c)
  unfolding decode_flags
  decode_flags-Passes zero index flags c fuel room = absurd (omega arith)
  decode_flags-Passes (suc f) index flags c fuel room =
      Ensures-bind mem (Passes len c.offset 2) (Passes len c.offset 2) (d_16 m len c) _
        (d_16-Passes mem m len c)
        λ partial d p.
          let flags' = add_flags shift_beyond index flags partial in
          let more = decode_flags shift_beyond mem sizeof (amqp_bytes m len) f (index + 1) flags' in
          chosen_by (λ (r : Reader ℕ). Ensures mem (Passes len c.offset 2) (r d)) (partial % 2 == 1)
            more (pure flags')
            (λ _.
              Ensures-weaken mem (Passes len d.offset 2) (Passes len c.offset 2) _
                (decode_flags-Passes f (index + 1) flags' d (omega arith) p.1)
                λ a e q. (omega arith, q.1))
            (λ _. pure-Passes flags' c d p)

  module _ (p : Bool) (allocated : Allocated mem m len p) where
    decode_given-Within :
        (set : Bool) (i : Item) (c : Cursor)
        → c.offset ≤ len
        → Ensures mem
            (Passes len c.offset 0)
            (decode_given shift_beyond mem sizeof (amqp_bytes m len) p set i c)
    unfolding decode_given Ensures
    decode_given-Within true i c room = decode_item-Within mem m len p i c allocated
    decode_given-Within false i c room = (omega arith, room)

    decode_members-Within :
        (flags : ℕ) (ps : List (ℕ × Item)) (c : Cursor)
        → c.offset ≤ len
        → Ensures mem
            (Passes len c.offset 0)
            (decode_members shift_beyond mem sizeof (amqp_bytes m len) p flags ps c)
    unfolding decode_members Ensures
    decode_members-Within flags [] c room = (omega arith, room)
    decode_members-Within flags ((k, i) ∷ ps) c room =
        Ensures-bind mem (Passes len c.offset 0) (Passes len c.offset 0) _ _
          (decode_given-Within (flag k flags) i c room)
          λ a d h.
            Ensures-bind mem (Passes len d.offset 0) (Passes len c.offset 0) _ _
              (decode_members-Within flags ps d h.1) λ more e q. (omega arith, q.1)

  decode_class-Ends :
      (class flags : ℕ) (o : Option (List (ℕ × Item))) (c : Cursor)
      → sizeof class ≢ 0
      → c.offset ≤ len
      → Ensures mem
          (Passes len c.offset 0)
          (decode_class shift_beyond mem sizeof (amqp_bytes m len) class flags o c)
  unfolding decode_class Ensures
  decode_class-Ends class flags none c sized room = tt
  decode_class-Ends class flags (some ps) c sized room =
      Ensures-bind mem (λ there d. (d.offset ≡ c.offset) × Allocated mem m len there)
        (Passes len c.offset 0) (alloc_struct mem sizeof (amqp_bytes m len) (sizeof class) c) _
        (alloc_struct-Allocated mem sizeof m len (sizeof class) c sized)
        λ there d q.
          Ensures-weaken mem (Passes len d.offset 0) (Passes len c.offset 0) _
            (store-Within mem m len there d d
              (λ _. decode_members shift_beyond mem sizeof (amqp_bytes m len) there flags ps) q.1
              (decode_members-Within there q.1 flags ps d (omega arith)))
            λ a e r. (omega arith, r.1)

-- Whatever the class and the bytes, where there are fewer than 2 ^ 31, so that no int that holds an
-- offset wraps: the fuel of `amqp_decode_properties` lasts, as often as another word of flags is
-- announced; where it decodes a struct, it has read at least the two bytes of one word, and only within
-- the buffer; and it writes through NULL only if an allocation fails.
pub amqp_decode_properties-Ends :
    (shift_beyond : ℕ → ℕ → ℕ) (mem : Pool.Memory) (sizeof : ℕ → ℕ) (m : Memory) (len class : ℕ)
    (h : State)
    → sizeof class ≢ 0
    → len < 2 ^ 31
    → Ensures mem
        (Passes len 0 2)
        (amqp_decode_properties shift_beyond mem sizeof (amqp_bytes m len) class h)
unfolding amqp_decode_properties Ensures
amqp_decode_properties-Ends shift_beyond mem sizeof m len class h sized int_offset =
    let start : Cursor = record { offset = 0; heap = h } in
    Ensures-bind mem (Passes len 0 2) (Passes len 0 2) _ _
      (decode_flags-Passes shift_beyond mem sizeof m len (suc len) 0 0 start (omega arith)
        (omega arith))
      λ flags c p.
        Ensures-bind mem (Passes len c.offset 0) (Passes len 0 2) _ _
          (decode_class-Ends shift_beyond mem sizeof m len class flags
            (case_of class decode_properties_layouts) c sized p.1)
          λ a d q. (omega arith, q.1)
