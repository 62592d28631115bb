-- ===== src/Bundled/Calls/Replies.antt =====
-- A call whose reply arrives.
use pg_amqp.Base.{
  ℕ, ◌+◌, ◌≤◌, ◌<◌, ◌≡◌, ◌≢◌, ◌^◌, ap, ◌∙◌, true, some, List, [], ◌∷◌, ◌++◌, ◌==◌, length,
  length-append, All, map, arith,
}
use mathlib.Core.Path.{subst⁻¹}
use pg_amqp.Events.{Bytes}
use pg_amqp.Bundled.Buffer.{Memory}
use pg_amqp.Bundled.Pool
use pg_amqp.Bundled.Pool.{State}
use pg_amqp.Bundled.Table.ReadBack.{Plenty}
use pg_amqp.Bundled.Fields.{case_of}
use pg_amqp.Bundled.Methods.{StructOf, encode_layouts}
use pg_amqp.Bundled.Frame.{Codec, Frame, method, Result, ok, Writer, Out, amqp_send_frame}
use pg_amqp.Bundled.Frame.Wire.{layout, joined, Accepts}
use pg_amqp.Bundled.Frame.Sent.{amqp_send_frame-layout}
use pg_amqp.Bundled.Publish.{amqp_send_method}
use pg_amqp.Bundled.Input
use pg_amqp.Bundled.Input.{Decoder, Received}
use pg_amqp.Bundled.Input.Collected.{Idle}
use pg_amqp.Bundled.Receive.{
  Receiver, arriving, normal, is_reply, reply_of, await_reply, after_request, amqp_simple_rpc,
}
use pg_amqp.Bundled.Receive.Delivered.{coming, stream, Flowing}
use pg_amqp.Bundled.Link.{Struct, PropertyStruct, codec, decoder}
use pg_amqp.Bundled.Link.Payloads.{Sendable, received, wire_payload, wire_payload-Carries}
use pg_amqp.Bundled.Link.Stream.{Fit, wire_frames}
use pg_amqp.Bundled.Calls.{Called, simple_rpc, reply_struct}
use pg_amqp.Bundled.Calls.Waits.{Others, wire_frames-length, arriving-stream, await_reply-Replied}

-- The call got the reply, wrote these bytes, and left these.
abbrev pub Served :
    Struct → List (Received Struct PropertyStruct) → Bytes → Bytes → Out → Called → Type 0
Served reply queue sent more o c =
    (c.result ≡ some reply)
    × (c.receiver.queue ≡ queue)
    × (joined c.out.writes ≡ joined o.writes ++ sent)
    × (coming c.receiver ≡ more)
    × Idle c.receiver.inbound

is_reply-expected :
    (channel id : ℕ) (d : Struct)
    → is_reply {P = PropertyStruct} channel (id ∷ []) (Input.method channel id d) ≡ true
unfolding is_reply
is_reply-expected channel id d =
    let a : channel == channel ≡ true = ground arith in
    let b : id == id ≡ true = ground arith in ground arith

reply_of-expected :
    (channel id : ℕ) (d : Struct)
    → reply_of {P = PropertyStruct} (id ∷ []) (Input.method channel id d) ≡ normal id d
unfolding reply_of
reply_of-expected channel id d = let b : id == id ≡ true = ground arith in ground arith

-- The request is on the wire, and the wait for the reply is the rest.
answered_by :
    (dec : Decoder Struct PropertyStruct) (page : Receiver Struct PropertyStruct → Memory)
    (cd : Codec Struct PropertyStruct) (fn : Writer) (frame_max channel : ℕ) (expected : List ℕ)
    (request : Struct) (r : Receiver Struct PropertyStruct) (o : Out)
    → let sent =
        amqp_send_frame cd fn frame_max
          (record { channel = channel; payload = method request.0 request })
          o in
      let q =
        await_reply dec page channel expected (length r.pending + arriving r.arrivals + 1) r in
      sent.0 ≡ ok 0
      → simple_rpc dec page cd fn frame_max channel expected request r o
        ≡ record { result = reply_struct q.0; rpc_reply = q.0; receiver = q.1; out = sent.1 }
unfolding simple_rpc amqp_simple_rpc after_request amqp_send_method
answered_by dec page cd fn frame_max channel expected request r o done =
    let sent =
      amqp_send_frame cd fn frame_max
        (record { channel = channel; payload = method request.0 request }) o in
    ap
      (λ (s : Result × Out).
        let (a, r', o') = after_request dec page channel expected s r in
        record { result = reply_struct a; rpc_reply = a; receiver = r'; out = o' })
      (λ k. (done k, sent.1))

-- A call of amqp_api.c with one expected reply and a request that fits a frame, on a channel of 16
-- bits of a connection that is ready, with a frame size of at least 20, a function that takes all
-- bytes, a buffer of at least the frame size and below 2 ^ 31 bytes, allocations that succeed and
-- structs of some size. Where the bytes that were read and will come, in pieces of any size but none
-- empty, are those of any frames that do not end the exchange, of the reply on the same channel, all
-- of which fit, and any others, the call returns the struct of the reply, has written the frame of
-- its request and no more, has put the frames before the reply at the end of the queue in order, and
-- leaves the bytes behind the reply for later.
pub simple_rpc-Served :
    (shift_beyond : ℕ → ℕ → ℕ) (mem : Pool.Memory) (sizeof sizeof_class : ℕ → ℕ) (heap : State)
    (rest : Memory) (fn : Writer) (page : Receiver Struct PropertyStruct → Memory)
    (frame_max capacity channel id : ℕ) (request : Struct)
    (x : StructOf (case_of id encode_layouts)) (fs : List (Frame Struct PropertyStruct))
    (more : Bytes) (r : Receiver Struct PropertyStruct) (o : Out)
    → Plenty mem
    → ((n : ℕ) → sizeof n ≢ 0)
    → ((n : ℕ) → sizeof_class n ≢ 0)
    → Accepts fn
    → 20 ≤ frame_max
    → frame_max ≤ capacity
    → capacity < 2 ^ 31
    → channel < 2 ^ 16
    → Sendable frame_max (method request.0 request)
    → Sendable frame_max (method id (id, x))
    → All (Fit frame_max) fs
    → Others channel (id ∷ []) fs
    → Idle r.inbound
    → r.inbound.buffer_len ≡ capacity
    → coming r
      ≡ wire_frames (fs ++ record { channel = channel; payload = method id (id, x) } ∷ []) ++ more
    → Flowing r.arrivals
    → Served
        (id, x)
        (r.queue ++ map received fs)
        (layout 1 channel (wire_payload (method request.0 request)))
        more
        o
        (simple_rpc
          (decoder shift_beyond mem sizeof sizeof_class heap)
          page
          (codec rest)
          fn
          frame_max
          channel
          (id ∷ [])
          request
          r
          o)
simple_rpc-Served shift_beyond mem sizeof sizeof_class heap rest fn page frame_max capacity channel
      id request x fs more r o plenty sized sized_class takes room longer small few asked replied
      fits others idle_now same e flowing =
    let dec = decoder shift_beyond mem sizeof sizeof_class heap in
    let reply : Frame Struct PropertyStruct = record {
      channel = channel;
      payload = method id (id, x);
    } in
    let request_frame : Frame Struct PropertyStruct = record {
      channel = channel;
      payload = method request.0 request;
    } in
    let (done, written) =
      amqp_send_frame-layout (codec rest) frame_max fn takes request_frame o
        (wire_payload (method request.0 request))
        (wire_payload-Carries rest frame_max (method request.0 request) asked room) room
        (omega arith) in
    let fuel = length r.pending + arriving r.arrivals + 1 in
    let n0 = length-append r.pending (stream r.arrivals) in
    let n1 = arriving-stream r.arrivals in
    let n2 = ap length e in
    let n3 = length-append (wire_frames (fs ++ reply ∷ [])) more in
    let n4 = wire_frames-length (fs ++ reply ∷ []) in
    let n5 = length-append fs (reply ∷ []) in
    let (a, queue, left, idle_then) =
      await_reply-Replied shift_beyond mem plenty sizeof sizeof_class sized sized_class heap page
        frame_max capacity room longer small channel (id ∷ []) reply (replied, few)
        (is_reply-expected channel id (id, x)) more fs fuel r (omega arith) fits others idle_now
        same e flowing in
    subst⁻¹
      (Served (id, x) (r.queue ++ map received fs)
        (layout 1 channel (wire_payload (method request.0 request))) more o)
      (answered_by dec page (codec rest) fn frame_max channel (id ∷ []) request r o done)
      (ap reply_struct (a ∙ reply_of-expected channel id (id, x)), queue, written, left, idle_then)
