-- ===== src/Bundled/Link/Delivery.antt =====
-- A message from `amqp_basic_publish` to the frames of the other end.
use pg_amqp.Base.{
  ℕ, suc, ◌+◌, ◌≤◌, ◌<◌, ◌≡◌, ◌≢◌, ◌^◌, refl, ap, ◌∙◌, sym, Option, none, some, or_else, List, [],
  ◌∷◌, ◌++◌, length, length-append, All, map, arith,
}
use mathlib.Core.Path.{subst}
use pg_amqp.Events.{Bytes}
use pg_amqp.Bundled.Buffer.{Memory}
use pg_amqp.Bundled.Pool
use pg_amqp.Bundled.Pool.{State}
use pg_amqp.Bundled.Table.ReadBack.{Plenty}
use pg_amqp.Bundled.Frame.{Frame, Payload, frame_type, method, properties, body, Writer, Out}
use pg_amqp.Bundled.Frame.Wire.{layout, Accepts, joined}
use pg_amqp.Bundled.Publish.{
  BasicPublish, Ending, basic_publish_method, basic_class, amqp_basic_publish,
}
use pg_amqp.Bundled.Publish.Fragments.{Fragments, Fits, body_frames, amqp_basic_publish-Published}
use pg_amqp.Bundled.Input
use pg_amqp.Bundled.Input.{Received}
use pg_amqp.Bundled.Input.Collected.{Idle}
use pg_amqp.Bundled.Receive.{Receiver, Waited, found}
use pg_amqp.Bundled.Receive.Delivered.{coming, Flowing}
use pg_amqp.Bundled.Link.{Struct, PropertyStruct, codec, decoder}
use pg_amqp.Bundled.Link.Payloads.{Sendable, received, wire_payload, wire_payload-Carries}
use pg_amqp.Bundled.Link.Stream.{Fit, wire_frames, wait_frames, wait_frames-Delivered, same_tail}

abbrev bodies : ℕ → List Bytes → List (Frame Struct PropertyStruct)
bodies channel fs = map (λ b. record { channel = channel; payload = body b }) fs

wire_frames-bodies :
    (channel : ℕ) (fs : List Bytes) → wire_frames (bodies channel fs) ≡ body_frames channel fs
wire_frames-bodies channel [] = refl
wire_frames-bodies channel (b ∷ fs) =
    ap (λ x. layout 3 channel b ++ x) (wire_frames-bodies channel fs)

length-bodies : (channel : ℕ) (fs : List Bytes) → length (bodies channel fs) ≡ length fs
length-bodies channel [] = refl
length-bodies channel (b ∷ fs) = ap (λ n. suc n) (length-bodies channel fs)

received-bodies :
    (channel : ℕ) (fs : List Bytes)
    → map (λ f. found (received f)) (bodies channel fs) ≡ map (λ b. found (Input.body channel b)) fs
received-bodies channel [] = refl
received-bodies channel (b ∷ fs) =
    ap (λ x. found (Input.body channel b) ∷ x) (received-bodies channel fs)

bodies-Fit :
    (len channel : ℕ) (fs : List Bytes)
    → channel < 2 ^ 16
    → All (Fits len) fs
    → All (Fit len) (bodies channel fs)
bodies-Fit len channel [] few fits = tt
bodies-Fit len channel (b ∷ fs) few ((full, fit), fits) =
    ((fit, few), bodies-Fit len channel fs few fits)

-- `amqp_basic_publish_t` as the struct of its method.
abbrev pub publish_struct : BasicPublish → Struct
publish_struct m = (
  basic_publish_method,
  (0, (m.exchange, (m.routing_key, ((m.mandatory, (m.immediate, tt)), tt)))),
)

two_strings :
    (len k e : ℕ) (a b : Bytes)
    → length a + length b + 17 ≤ len
    → suc (suc (suc (length (a ++ k ∷ (b ++ e ∷ []))))) + 12 ≤ len
two_strings len k e a b room =
    let n = length-append a (k ∷ (b ++ e ∷ [])) in let n' = length-append b (e ∷ []) in omega arith

publish_struct-Sendable :
    (len : ℕ) (m : BasicPublish)
    → length m.exchange < 2 ^ 8
    → length m.routing_key < 2 ^ 8
    → length m.exchange + length m.routing_key + 17 ≤ len
    → Sendable len (method basic_publish_method (publish_struct m))
publish_struct-Sendable len m exchange key room =
    let total = two_strings len _ _ m.exchange m.routing_key room in
    (refl, omega arith, ((omega arith, (exchange, (key, (omega arith, tt)))), refl), total)

module _ (shift_beyond : ℕ → ℕ → ℕ) (mem : Pool.Memory) (plenty : Plenty mem)
    (sizeof sizeof_class : ℕ → ℕ) (sized : (n : ℕ) → sizeof n ≢ 0)
    (sized_class : (n : ℕ) → sizeof_class n ≢ 0) (heap : State)
    (page : Receiver Struct PropertyStruct → Memory) (len capacity : ℕ) (room : 20 ≤ len)
    (longer : len ≤ capacity) (small : capacity < 2 ^ 31) where
  -- The frames of a message and no others.
  message-Delivered :
      (channel : ℕ) (first second : Payload Struct PropertyStruct) (fs : List Bytes)
      (r : Receiver Struct PropertyStruct)
      → channel < 2 ^ 16
      → Sendable len first
      → Sendable len second
      → All (Fits len) fs
      → Idle r.inbound
      → r.inbound.buffer_len ≡ capacity
      → r.queue ≡ []
      → coming r
        ≡ layout (frame_type first) channel (wire_payload first)
          ++ (layout (frame_type second) channel (wire_payload second) ++ body_frames channel fs)
      → Flowing r.arrivals
      → let q =
          wait_frames
            (decoder shift_beyond mem sizeof sizeof_class heap)
            page
            (suc (suc (length fs)))
            r in
        (q.0
          ≡ found (received (record { channel = channel; payload = first }))
            ∷ found (received (record { channel = channel; payload = second }))
            ∷ map (λ b. found (Input.body channel b)) fs)
        × (coming q.1 ≡ [])
        × Idle q.1.inbound
  message-Delivered channel first second fs r few one two fits idle_now same empty e flowing =
      let frame : Payload Struct PropertyStruct → Frame Struct PropertyStruct =
        λ pl. record { channel = channel; payload = pl } in
      let front = layout (frame_type first) channel (wire_payload first) in
      let next = layout (frame_type second) channel (wire_payload second) in
      let all = ap (λ x. front ++ (next ++ x)) (wire_frames-bodies channel fs) in
      let (got, none_left, idle_last) =
        wait_frames-Delivered shift_beyond mem plenty sizeof sizeof_class sized sized_class heap
          page len capacity room longer small (frame first ∷ frame second ∷ bodies channel fs) r
          ((one, few), ((two, few), bodies-Fit len channel fs few fits)) idle_now same empty
          (e ∙ sym all) flowing in
      let waited : ℕ → List (Waited Struct PropertyStruct) × Receiver Struct PropertyStruct =
        λ n. wait_frames (decoder shift_beyond mem sizeof sizeof_class heap) page (suc (suc n)) r in
      let n = length-bodies channel fs in
      (
        ap (λ k. (waited k).0) (sym n)
            ∙ got
            ∙ ap (λ x. found (received (frame first)) ∷ found (received (frame second)) ∷ x)
                (received-bodies channel fs),
        ap (λ k. coming (waited k).1) (sym n) ∙ none_left,
        subst (λ k. Idle (waited k).1.inbound) n idle_last,
      )

-- The connection behind a publish.
abbrev pub left_by : Out → Option (Ending × Out) → Out
left_by o none = o
left_by o (some (e, out)) = out

-- A message is published to a function that takes all bytes, with a frame size of at least 20, on a
-- channel of 16 bits: an exchange and a routing key below 256 bytes that fit a frame, properties
-- that fit their fields, and a body below 2 ^ 31 bytes. Where the bytes that `amqp_basic_publish`
-- appended are just those that the other end has read and will get, in pieces of any size but none
-- empty, and that end is ready, has an empty queue, allocations that succeed, structs of some size
-- and a buffer of at least the frame size and below 2 ^ 31 bytes, its calls of
-- `amqp_simple_wait_frame` give basic.publish with the same arguments, a header with the length of
-- the body and the same properties, and frames that together are the body, none empty or longer than
-- the frame size; then no byte is left and it is ready again.
pub amqp_basic_publish-Delivered :
    (shift_beyond : ℕ → ℕ → ℕ) (mem : Pool.Memory) (sizeof sizeof_class : ℕ → ℕ) (heap : State)
    (rest : Memory) (fn : Writer) (page : Receiver Struct PropertyStruct → Memory)
    (frame_max capacity channel : ℕ) (m : BasicPublish) (default_properties : PropertyStruct)
    (props : Option PropertyStruct) (bs : Bytes) (o : Out) (r : Receiver Struct PropertyStruct)
    → Plenty mem
    → ((n : ℕ) → sizeof n ≢ 0)
    → ((n : ℕ) → sizeof_class n ≢ 0)
    → Accepts fn
    → 20 ≤ frame_max
    → frame_max ≤ capacity
    → capacity < 2 ^ 31
    → channel < 2 ^ 16
    → length m.exchange < 2 ^ 8
    → length m.routing_key < 2 ^ 8
    → length m.exchange + length m.routing_key + 17 ≤ frame_max
    → Sendable frame_max (properties basic_class (length bs) (or_else props default_properties))
    → length bs < 2 ^ 31
    → Idle r.inbound
    → r.inbound.buffer_len ≡ capacity
    → r.queue ≡ []
    → Flowing r.arrivals
    → joined
        (left_by o (
          amqp_basic_publish
            (codec rest)
            fn
            frame_max
            publish_struct
            default_properties
            channel
            m
            props
            bs
            o)).writes
      ≡ joined o.writes ++ coming r
    → (fs : List Bytes) × Fragments frame_max bs fs
      × (let q =
            wait_frames
              (decoder shift_beyond mem sizeof sizeof_class heap)
              page
              (suc (suc (length fs)))
              r in
          (q.0
            ≡ found (Input.method channel basic_publish_method (publish_struct m))
              ∷ found (
                  Input.properties channel basic_class
                    (length bs)
                    (or_else props default_properties))
              ∷ map (λ b. found (Input.body channel b)) fs)
          × (coming q.1 ≡ [])
          × Idle q.1.inbound)
amqp_basic_publish-Delivered shift_beyond mem sizeof sizeof_class heap rest fn page frame_max
      capacity channel m default_properties props bs o r plenty sized sized_class takes room longer
      limit few exchange key fits header small idle_now same empty flowing e =
    let asked = publish_struct-Sendable frame_max m exchange key fits in
    let first = method basic_publish_method (publish_struct m) in
    let second = properties basic_class (length bs) (or_else props default_properties) in
    let (fs, cut, (s, ok_returned, wire)) =
      amqp_basic_publish-Published (codec rest) fn frame_max takes publish_struct default_properties
        channel m props bs o (wire_payload first) (wire_payload second)
        (wire_payload-Carries rest frame_max first asked room)
        (wire_payload-Carries rest frame_max second header room) small room (omega arith) in
    let all =
      same_tail (joined o.writes) _ (coming r)
        (sym wire ∙ ap (λ t. joined (left_by o t).writes) (sym ok_returned) ∙ e) in
    (
      fs,
      cut,
      message-Delivered shift_beyond mem plenty sizeof sizeof_class sized sized_class heap page
          frame_max capacity room longer limit channel first second fs r few asked header cut.1
          idle_now same empty (sym all) flowing,
    )
