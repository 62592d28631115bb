-- ===== src/Bundled/Link/Stream.antt =====
-- A run of frames from one end of a connection to the other.
use pg_amqp.Base.{
  ℕ, zero, suc, ◌≤◌, ◌<◌, ◌≡◌, ◌≢◌, ◌^◌, refl, ap, ◌∙◌, sym, List, [], ◌∷◌, ◌++◌, length, All, map,
  arith,
}
use mathlib.Core.Path.{subst⁻¹}
use mathlib.Core.List.{append_assoc, append-nil}
use pg_amqp.Events.{Bytes}
use pg_amqp.Bundled.Buffer.{Memory}
use pg_amqp.Bundled.Pool
use pg_amqp.Bundled.Pool.{State}
use pg_amqp.Bundled.Table.ReadBack.{Plenty}
use pg_amqp.Bundled.Frame.{
  Frame, Payload, method, properties, body, heartbeat, other, frame_type, Codec, Writer, Out,
  Result, ok, amqp_send_frame,
}
use pg_amqp.Bundled.Frame.Wire.{layout, Accepts, joined}
use pg_amqp.Bundled.Frame.Sent.{amqp_send_frame-layout}
use pg_amqp.Bundled.Input
use pg_amqp.Bundled.Input.{Decoder, Received}
use pg_amqp.Bundled.Input.Collected.{Idle}
use pg_amqp.Bundled.Receive.{Receiver, Waited, found, amqp_simple_wait_frame, wait_frame_inner}
use pg_amqp.Bundled.Receive.Delivered.{coming, Flowing, Delivered, wait_frame_inner-Delivered}
use pg_amqp.Bundled.Link.{Struct, PropertyStruct, codec, decoder}
use pg_amqp.Bundled.Link.Payloads.{
  Sendable, wire_payload, received, wire_payload-Carries, payload-decoded, frame_bits,
}

-- `amqp_send_frame` for each frame in order.
abbrev pub send_frames :
    {M P : Type 0} → Codec M P → Writer → ℕ → List (Frame M P) → Out → List Result × Out
send_frames cd fn len [] o = ([], o)
send_frames cd fn len (f ∷ fs) o =
    let (a, o') = amqp_send_frame cd fn len f o in
    let (as_, last) = send_frames cd fn len fs o' in (a ∷ as_, last)

-- `amqp_simple_wait_frame`, so many times.
abbrev pub wait_frames :
    {M P : Type 0}
    → Decoder M P
    → (Receiver M P → Memory)
    → ℕ
    → Receiver M P
    → List (Waited M P) × Receiver M P
wait_frames dec page zero r = ([], r)
wait_frames dec page (suc n) r =
    let (w, r') = amqp_simple_wait_frame dec page r in
    let (ws, last) = wait_frames dec page n r' in (w ∷ ws, last)

-- A frame that fits, on a channel with a number of 16 bits.
abbrev pub Fit : ℕ → Frame Struct PropertyStruct → Type 0
Fit len f = Sendable len f.payload × (f.channel < 2 ^ 16)

abbrev pub wire_frames : List (Frame Struct PropertyStruct) → Bytes
wire_frames [] = []
wire_frames (f ∷ fs) =
    layout (frame_type f.payload) f.channel (wire_payload f.payload) ++ wire_frames fs

pub send_frames-joined :
    (rest : Memory) (fn : Writer) (len : ℕ)
    → Accepts fn
    → 20 ≤ len
    → len < 2 ^ 31
    → (fs : List (Frame Struct PropertyStruct)) (o : Out) → All (Fit len) fs
    → let q = send_frames (codec rest) fn len fs o in
      (q.0 ≡ map (λ _. ok 0) fs) × (joined q.1.writes ≡ joined o.writes ++ wire_frames fs)
send_frames-joined rest fn len takes room small [] o fit =
    (refl, sym (append-nil (joined o.writes)))
send_frames-joined rest fn len takes room small (f ∷ fs) o ((sendable, few), fit) =
    let (done, sent) =
      amqp_send_frame-layout (codec rest) len fn takes f o (wire_payload f.payload)
        (wire_payload-Carries rest len f.payload sendable room) room small in
    let bs = layout (frame_type f.payload) f.channel (wire_payload f.payload) in
    let (more_done, more_sent) =
      send_frames-joined rest fn len takes room small fs (amqp_send_frame (codec rest) fn len f o).1
        fit in
    (
      (λ k. done k ∷ more_done k),
      more_sent
          ∙ ap (λ x. x ++ wire_frames fs) sent
          ∙ append_assoc (joined o.writes) bs (wire_frames fs),
    )

pub same_tail : {A : Type 0} (xs ys zs : List A) → xs ++ ys ≡ xs ++ zs → ys ≡ zs
same_tail [] ys zs e = e
same_tail (x ∷ xs) ys zs e = same_tail xs ys zs (cc)

received-some :
    (len channel : ℕ) (pl : Payload Struct PropertyStruct)
    → Sendable len pl
    → received (record { channel = channel; payload = pl }) ≢ Input.nothing
received-some len channel (method id d) sendable e = cc
received-some len channel (properties class size p) sendable e = cc
received-some len channel (body bs) sendable e = cc
received-some len channel heartbeat sendable e = cc
received-some len channel (other t) never e = never

wait_empty :
    {M P : Type 0} (dec : Decoder M P) (page : Receiver M P → Memory) (r : Receiver M P)
    → r.queue ≡ []
    → amqp_simple_wait_frame dec page r ≡ wait_frame_inner dec page r
unfolding amqp_simple_wait_frame
wait_empty dec page r e =
    ap
      (λ (fs : List _). elim fs [
        | [] ↦ wait_frame_inner dec page r
        | f ∷ fs' ↦ (found f, record r { queue = fs' })
      ])
      e

module _ (shift_beyond : ℕ → ℕ → ℕ) (mem : Pool.Memory) (plenty : Plenty mem)
    (sizeof sizeof_class : ℕ → ℕ) (sized : (n : ℕ) → sizeof n ≢ 0)
    (sized_class : (n : ℕ) → sizeof_class n ≢ 0) (heap : State) where
  abbrev pub far_end : Decoder Struct PropertyStruct
  far_end = decoder shift_beyond mem sizeof sizeof_class heap

  module _ (page : Receiver Struct PropertyStruct → Memory) (len capacity : ℕ) (room : 20 ≤ len)
      (longer : len ≤ capacity) (small : capacity < 2 ^ 31) where
    pub first-Delivered :
        (f : Frame Struct PropertyStruct) (r : Receiver Struct PropertyStruct) (more : Bytes)
        → Fit len f
        → Idle r.inbound
        → r.inbound.buffer_len ≡ capacity
        → coming r ≡ layout (frame_type f.payload) f.channel (wire_payload f.payload) ++ more
        → Flowing r.arrivals
        → Delivered capacity (received f) more r.queue (wait_frame_inner far_end page r)
    first-Delivered f r more (sendable, few) idle_now same e flowing =
        let (fits, no_protocol) =
          frame_bits shift_beyond mem plenty sizeof sizeof_class sized sized_class heap len
            f.payload sendable room in
        wait_frame_inner-Delivered far_end page (frame_type f.payload) f.channel
          (wire_payload f.payload) capacity (received f) no_protocol few (omega arith) (omega arith)
          (λ i arrived same_len.
            payload-decoded shift_beyond mem plenty sizeof sizeof_class sized sized_class heap i
              f.channel len f.payload sendable arrived (omega arith) (omega arith))
          (received-some len f.channel f.payload sendable) r more idle_now same e flowing

    -- The frames one after another, and the bytes behind them.
    pub wait_frames-Delivered :
        (fs : List (Frame Struct PropertyStruct)) (r : Receiver Struct PropertyStruct)
        → All (Fit len) fs
        → Idle r.inbound
        → r.inbound.buffer_len ≡ capacity
        → r.queue ≡ []
        → coming r ≡ wire_frames fs
        → Flowing r.arrivals
        → let q = wait_frames far_end page (length fs) r in
          (q.0 ≡ map (λ f. found (received f)) fs) × (coming q.1 ≡ []) × Idle q.1.inbound
    wait_frames-Delivered [] r fit idle_now same none e flowing = (refl, e, idle_now)
    wait_frames-Delivered (f ∷ fs) r (first, fit) idle_now same none e flowing =
        let (w, idle_then, same_then, left, flowing_then, kept) =
          first-Delivered f r (wire_frames fs) first idle_now same e flowing in
        let w' = wait_empty far_end page r none in
        let r' = (wait_frame_inner far_end page r).1 in
        let (ws, nothing_left, idle_last) =
          wait_frames-Delivered fs r' fit idle_then same_then (kept ∙ none) left flowing_then in
        let Both : Waited Struct PropertyStruct × Receiver Struct PropertyStruct → Type 0 = λ t.
          let q = wait_frames far_end page (length fs) t.1 in
          (t.0 ∷ q.0 ≡ map (λ g. found (received g)) (f ∷ fs))
          × (coming q.1 ≡ [])
          × Idle q.1.inbound in
        subst⁻¹ Both w' ((λ k. w k ∷ ws k), nothing_left, idle_last)

-- Frames are sent one after another to a function that takes all bytes, with a frame size `len` of
-- at least 20: each on a channel of 16 bits, with a struct of its own number, members that fit their
-- fields and tables of known kinds, and no longer than `len`. Then `amqp_send_frame` returns 0 each
-- time. Where the bytes that it appended are just those that the other end has read and will get, in
-- pieces of any size but none empty, and that end is ready, has an empty queue, allocations that
-- succeed, structs of some size and a buffer of at least `len` and below 2 ^ 31 bytes, it gets the
-- same frames in order from that many calls of `amqp_simple_wait_frame`; then no byte is left and it
-- is ready again.
pub wait_frames-send_frames :
    (shift_beyond : ℕ → ℕ → ℕ) (mem : Pool.Memory) (sizeof sizeof_class : ℕ → ℕ) (heap : State)
    (rest : Memory) (fn : Writer) (page : Receiver Struct PropertyStruct → Memory)
    (len capacity : ℕ) (fs : List (Frame Struct PropertyStruct)) (o : Out)
    (r : Receiver Struct PropertyStruct)
    → Plenty mem
    → ((n : ℕ) → sizeof n ≢ 0)
    → ((n : ℕ) → sizeof_class n ≢ 0)
    → Accepts fn
    → 20 ≤ len
    → len ≤ capacity
    → capacity < 2 ^ 31
    → All (Fit len) fs
    → Idle r.inbound
    → r.inbound.buffer_len ≡ capacity
    → r.queue ≡ []
    → Flowing r.arrivals
    → joined (send_frames (codec rest) fn len fs o).1.writes ≡ joined o.writes ++ coming r
    → let q = wait_frames (decoder shift_beyond mem sizeof sizeof_class heap) page (length fs) r in
      ((send_frames (codec rest) fn len fs o).0 ≡ map (λ _. ok 0) fs)
      × (q.0 ≡ map (λ f. found (received f)) fs)
      × (coming q.1 ≡ [])
      × Idle q.1.inbound
wait_frames-send_frames shift_beyond mem sizeof sizeof_class heap rest fn page len capacity fs o r
      plenty sized sized_class takes room longer small fit idle_now same none flowing e =
    let (done, sent) = send_frames-joined rest fn len takes room (omega arith) fs o fit in
    let all = same_tail (joined o.writes) (wire_frames fs) (coming r) (sym sent ∙ e) in
    let (frames, none_left, idle_last) =
      wait_frames-Delivered shift_beyond mem plenty sizeof sizeof_class sized sized_class heap page
        len capacity room longer small fs r fit idle_now same none (sym all) flowing in
    (done, frames, none_left, idle_last)
