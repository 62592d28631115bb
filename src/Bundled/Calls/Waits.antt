-- ===== src/Bundled/Calls/Waits.antt =====
-- The wait for a reply that arrives behind frames that are none.
use pg_amqp.Base.{
  ℕ, zero, suc, ◌≤◌, ◌<◌, ◌≡◌, ◌≢◌, ◌^◌, refl, ap, ◌∙◌, sym, true, false, List, [], ◌∷◌, ◌++◌,
  length, length-append, All, map, arith,
}
use mathlib.Core.Path.{subst, subst⁻¹}
use mathlib.Core.List.{append_assoc, append-nil}
use pg_amqp.Events.{Bytes}
use pg_amqp.Bundled.Buffer.{Memory}
use pg_amqp.Bundled.Pool
use pg_amqp.Bundled.Pool.{State}
use pg_amqp.Bundled.Table.ReadBack.{Plenty}
use pg_amqp.Bundled.Frame.{frame_end, Frame, frame_type}
use pg_amqp.Bundled.Frame.Wire.{layout}
use pg_amqp.Bundled.Input.{Decoder, Received}
use pg_amqp.Bundled.Input.Collected.{Idle}
use pg_amqp.Bundled.Receive.{
  Receiver, Arrival, arrived, broken, arriving, found, RpcReply, is_reply, reply_of, enqueue,
  after_wait, wait_frame_inner, await_reply,
}
use pg_amqp.Bundled.Receive.Delivered.{coming, stream, Flowing}
use pg_amqp.Bundled.Link.{Struct, PropertyStruct}
use pg_amqp.Bundled.Link.Payloads.{received, wire_payload}
use pg_amqp.Bundled.Link.Stream.{Fit, wire_frames, far_end, first-Delivered}

-- Frames that do not end the exchange.
abbrev pub Others : ℕ → List ℕ → List (Frame Struct PropertyStruct) → Type 0
Others channel expected fs = All (λ g. is_reply channel expected (received g) ≡ false) fs

pub wire_frames-length :
    (fs : List (Frame Struct PropertyStruct)) → length fs ≤ length (wire_frames fs)
wire_frames-length [] = omega arith
wire_frames-length (f ∷ fs) =
    let n = length-append (wire_payload f.payload ++ frame_end ∷ []) (wire_frames fs) in
    let rest = wire_frames-length fs in omega arith

pub arriving-stream : (as_ : List Arrival) → length (stream as_) ≤ arriving as_
arriving-stream [] = omega arith
arriving-stream (broken e ∷ as_) = omega arith
arriving-stream (arrived bs ∷ as_) =
    let n = length-append bs (stream as_) in let rest = arriving-stream as_ in omega arith

module _ (channel : ℕ) (expected : List ℕ)
    (retry : Receiver Struct PropertyStruct → RpcReply Struct × Receiver Struct PropertyStruct)
    (g : Received Struct PropertyStruct) (r : Receiver Struct PropertyStruct) where
  after_wait-reply :
      is_reply channel expected g ≡ true
      → after_wait channel expected retry (found g, r) ≡ (reply_of expected g, r)
  unfolding after_wait
  after_wait-reply h = ground arith

  after_wait-other :
      is_reply channel expected g ≡ false
      → after_wait channel expected retry (found g, r) ≡ retry (enqueue g r)
  unfolding after_wait
  after_wait-other h = ground arith

-- The answer is that of the frame, and the others wait in the queue.
abbrev pub Replied :
    RpcReply Struct
    → List (Received Struct PropertyStruct)
    → Bytes
    → RpcReply Struct × Receiver Struct PropertyStruct
    → Type 0
Replied a queue more (b, r) = (b ≡ a) × (r.queue ≡ queue) × (coming r ≡ more) × Idle r.inbound

module _ (shift_beyond : ℕ → ℕ → ℕ) (mem : Pool.Memory) (plenty : Plenty mem)
    (sizeof sizeof_class : ℕ → ℕ) (sized : (n : ℕ) → sizeof n ≢ 0)
    (sized_class : (n : ℕ) → sizeof_class n ≢ 0) (heap : State)
    (page : Receiver Struct PropertyStruct → Memory) (len capacity : ℕ) (room : 20 ≤ len)
    (longer : len ≤ capacity) (small : capacity < 2 ^ 31) (channel : ℕ) (expected : List ℕ)
    (f : Frame Struct PropertyStruct) (fit : Fit len f)
    (replies : is_reply channel expected (received f) ≡ true) (more : Bytes) where
  abbrev reader : Decoder Struct PropertyStruct
  reader = far_end shift_beyond mem plenty sizeof sizeof_class sized sized_class heap

  pub await_reply-Replied :
      (fs : List (Frame Struct PropertyStruct)) (n : ℕ) (r : Receiver Struct PropertyStruct)
      → length fs < n
      → All (Fit len) fs
      → Others channel expected fs
      → Idle r.inbound
      → r.inbound.buffer_len ≡ capacity
      → coming r ≡ wire_frames (fs ++ f ∷ []) ++ more
      → Flowing r.arrivals
      → Replied
          (reply_of expected (received f))
          (r.queue ++ map received fs)
          more
          (await_reply reader page channel expected n r)
  unfolding await_reply enqueue
  await_reply-Replied fs zero r fuel fits others idle_now same e flowing = absurd (omega arith)
  await_reply-Replied [] (suc n) r fuel fits others idle_now same e flowing =
      let bs = layout (frame_type f.payload) f.channel (wire_payload f.payload) in
      let alone : wire_frames (f ∷ []) ++ more ≡ bs ++ more = ap (λ x. x ++ more) (append-nil bs) in
      let (w, idle_then, len_then, left, flowing_then, kept) =
        first-Delivered shift_beyond mem plenty sizeof sizeof_class sized sized_class heap page len
          capacity room longer small f r more fit idle_now same (e ∙ alone) flowing in
      let r' = (wait_frame_inner reader page r).1 in
      subst⁻¹ (Replied (reply_of expected (received f)) (r.queue ++ []) more)
        (ap (after_wait channel expected (await_reply reader page channel expected n))
            (λ k. (w k, r'))
          ∙ after_wait-reply channel expected (await_reply reader page channel expected n)
              (received f) r' replies)
        (refl, kept ∙ sym (append-nil r.queue), left, idle_then)
  await_reply-Replied (g ∷ fs) (suc n) r fuel (first, fits) (other, others) idle_now same e
        flowing =
      let bs = layout (frame_type g.payload) g.channel (wire_payload g.payload) in
      let (w, idle_then, len_then, left, flowing_then, kept) =
        first-Delivered shift_beyond mem plenty sizeof sizeof_class sized sized_class heap page len
          capacity room longer small g r (wire_frames (fs ++ f ∷ []) ++ more) first idle_now same
          (e ∙ append_assoc bs (wire_frames (fs ++ f ∷ [])) more) flowing in
      let r' = (wait_frame_inner reader page r).1 in
      let next = enqueue (received g) r' in
      let queued : next.queue ++ map received fs ≡ r.queue ++ map received (g ∷ fs) =
        append_assoc r'.queue (received g ∷ []) (map received fs)
        ∙ ap (λ q. q ++ map received (g ∷ fs)) kept in
      subst⁻¹ (Replied (reply_of expected (received f)) (r.queue ++ map received (g ∷ fs)) more)
        (ap (after_wait channel expected (await_reply reader page channel expected n))
            (λ k. (w k, r'))
          ∙ after_wait-other channel expected (await_reply reader page channel expected n)
              (received g) r' other)
        (subst
          (λ q.
            Replied (reply_of expected (received f)) q more
              (await_reply reader page channel expected n next))
          queued
          (await_reply-Replied fs n next (omega arith) fits others idle_then len_then left
            flowing_then))
