-- ===== src/Bundled/Receive.antt =====
-- src/librabbitmq/amqp_socket.c: how frames are waited for, `wait_frame_inner` and
-- `amqp_simple_wait_frame`, and the exchange of a request for its reply, `amqp_simple_rpc`. What
-- `amqp_ssl_read` will return is a list; where it ends the code waits for ever.

pub mod Rounds
pub mod Delivered
pub mod Steps
pub mod Rpc
use pg_amqp.Base.{
  ℕ, zero, suc, ◌+◌, Bool, true, false, not, ◌&&◌, ◌||◌, List, [], ◌∷◌, ◌++◌, ◌==◌, if◌then◌else◌,
  length, drop,
}
use pg_amqp.Events.{Bytes}
use pg_amqp.Bundled.Buffer.{Memory}
use pg_amqp.Bundled.Frame.{Result, ok, fail, Codec, Writer, Out}
use pg_amqp.Bundled.Publish.{amqp_send_method}
use pg_amqp.Bundled.Input.{
  Inbound, Decoder, Received, nothing, method, Outcome, consumed, failed, aborted,
  amqp_handle_input,
}

-- What a call of `amqp_ssl_read` gives: bytes, none of them at the end of the stream, or `-e`.
pub data Arrival : Type 0 where
  arrived : Bytes → Arrival
  broken : ℕ → Arrival

-- The connection as a receiver: the frame that is being collected, the bytes of the socket's buffer
-- from `sock_inbound_offset` to `sock_inbound_limit`, the frames from `first_queued_frame` on, and what
-- the socket will give.
pub record Receiver (M P : Type 0) : Type 0 where
  pub inbound : Inbound
  pub pending : Bytes
  pub queue : List (Received M P)
  pub arrivals : List Arrival

-- What a wait comes to: a frame, `-e`, the 0 at the end of the stream, an abort, or no end; `starving`,
-- without fuel, has no counterpart in the code.
pub data Waited (M P : Type 0) : Type 0 where
  found : Received M P → Waited M P
  error : ℕ → Waited M P
  closed crashed blocked starving : Waited M P

-- What the bytes that are there come to; `exhausted` is that all were taken without a frame.
pub data Taken (M P : Type 0) : Type 0 where
  taken : Waited M P → Taken M P
  exhausted starved : Taken M P

module _ {M P : Type 0} where
  unfoldable pub amqp_frames_enqueued : Receiver M P → Bool
  amqp_frames_enqueued r = elim r.queue [ [] ↦ false | _ ∷ _ ↦ true ]

  unfoldable pub amqp_data_in_buffer : Receiver M P → Bool
  amqp_data_in_buffer r = elim r.pending [ [] ↦ false | _ ∷ _ ↦ true ]

  -- After a call of `amqp_handle_input`: an error, a frame, or the next round where bytes were taken.
  unfoldable pub after_input :
      (Receiver M P → Taken M P × Receiver M P)
      → Receiver M P
      → Outcome M P × Inbound
      → Taken M P × Receiver M P
  after_input next r (failed e, i) = (taken (error e), record r { inbound = i })
  after_input next r (aborted, i) = (taken crashed, record r { inbound = i })
  after_input next r (consumed n nothing, i) =
      let r' = record r { inbound = i; pending = drop n r.pending } in
      let more = next r' in if n == 0 then (taken crashed, r') else more
  after_input next r (consumed n f, i) =
      (taken (found f), record r { inbound = i; pending = drop n r.pending })

module _ {M P : Type 0} (dec : Decoder M P) (page : Receiver M P → Memory) where
  -- `while (amqp_data_in_buffer(state))`
  unfoldable pub take_frame : ℕ → Receiver M P → Taken M P × Receiver M P
  unfolding after_input amqp_data_in_buffer
  take_frame zero r = (starved, r)
  take_frame (suc f) r =
      let round =
        after_input (take_frame f) r (amqp_handle_input dec (page r) r.pending r.inbound) in
      if amqp_data_in_buffer r then round else (exhausted, r)

  abbrev pub take_pending : Receiver M P → Taken M P × Receiver M P
  take_pending r = take_frame (length r.pending + 1) r

  -- `while (1)`, by what the socket gives.
  unfoldable pub wait_read : List Arrival → Taken M P × Receiver M P → Waited M P × Receiver M P
  unfolding take_frame
  wait_read arrivals (taken w, r) = (w, record r { arrivals = arrivals })
  wait_read arrivals (starved, r) = (starving, record r { arrivals = arrivals })
  wait_read [] (exhausted, r) = (blocked, record r { arrivals = [] })
  wait_read (broken e ∷ as_) (exhausted, r) = (error e, record r { arrivals = as_ })
  wait_read (arrived [] ∷ as_) (exhausted, r) = (closed, record r { arrivals = as_ })
  wait_read (arrived (b ∷ bs) ∷ as_) (exhausted, r) =
      wait_read as_ (take_pending (record r { pending = b ∷ bs; arrivals = as_ }))

  unfoldable pub wait_frame_inner : Receiver M P → Waited M P × Receiver M P
  unfolding wait_read
  wait_frame_inner r = wait_read r.arrivals (take_pending r)

  unfoldable pub amqp_simple_wait_frame : Receiver M P → Waited M P × Receiver M P
  unfolding wait_frame_inner
  amqp_simple_wait_frame r = elim r.queue [
    | [] ↦ wait_frame_inner r
    | f ∷ fs ↦ (found f, record r { queue = fs })
  ]

-- AMQP_CHANNEL_CLOSE_METHOD and AMQP_CONNECTION_CLOSE_METHOD
abbrev pub channel_close : ℕ
channel_close = 1310760

abbrev pub connection_close : ℕ
connection_close = 655420

-- The ids before the 0 that ends the list.
abbrev pub amqp_id_in_reply_list : ℕ → List ℕ → Bool
amqp_id_in_reply_list expected [] = false
amqp_id_in_reply_list expected (id ∷ ids) =
    let rest = amqp_id_in_reply_list expected ids in if id == expected then true else rest

-- `amqp_rpc_reply_t`, or that there is none: an abort, or a wait without end.
pub data RpcReply (M : Type 0) : Type 0 where
  normal server_exception : ℕ → M → RpcReply M
  library_exception : ℕ → RpcReply M
  rpc_crashed rpc_blocked rpc_starved : RpcReply M

module _ {M P : Type 0} where
  -- A frame that ends the exchange.
  unfoldable pub is_reply : ℕ → List ℕ → Received M P → Bool
  is_reply channel expected (method c id d) =
      (c == channel && (amqp_id_in_reply_list id expected || id == channel_close))
      || (c == 0 && id == connection_close)
  is_reply channel expected _ = false

  unfoldable pub reply_of : List ℕ → Received M P → RpcReply M
  reply_of expected (method c id d) =
      if amqp_id_in_reply_list id expected then normal id d else server_exception id d
  reply_of expected _ = rpc_crashed

  -- A frame that is kept for later; the pool is taken to have room for it.
  unfoldable pub enqueue : Received M P → Receiver M P → Receiver M P
  enqueue f r = record r { queue = r.queue ++ f ∷ [] }

  -- After a wait.
  unfoldable pub after_wait :
      ℕ
      → List ℕ
      → (Receiver M P → RpcReply M × Receiver M P)
      → Waited M P × Receiver M P
      → RpcReply M × Receiver M P
  unfolding is_reply reply_of enqueue
  after_wait channel expected retry (found f, r) =
      let next = retry (enqueue f r) in
      if is_reply channel expected f then (reply_of expected f, r) else next
  after_wait channel expected retry (error e, r) = (library_exception e, r)
  after_wait channel expected retry (closed, r) = (library_exception 0, r)
  after_wait channel expected retry (crashed, r) = (rpc_crashed, r)
  after_wait channel expected retry (blocked, r) = (rpc_blocked, r)
  after_wait channel expected retry (starving, r) = (rpc_starved, r)

-- The bytes that a receiver has or will get.
abbrev pub arriving : List Arrival → ℕ
arriving [] = 0
arriving (arrived bs ∷ as_) = length bs + arriving as_
arriving (broken e ∷ as_) = arriving as_

module _ {M P : Type 0} (dec : Decoder M P) (page : Receiver M P → Memory) (channel : ℕ)
    (expected : List ℕ) where
  -- `retry:`, with fuel for the frames that are kept.
  unfoldable pub await_reply : ℕ → Receiver M P → RpcReply M × Receiver M P
  unfolding after_wait wait_frame_inner
  await_reply zero r = (rpc_starved, r)
  await_reply (suc f) r = after_wait channel expected (await_reply f) (wait_frame_inner dec page r)

  -- After the request was sent.
  unfoldable pub after_request : Result × Out → Receiver M P → RpcReply M × Receiver M P × Out
  unfolding await_reply
  after_request (fail e, o) r = (library_exception e, r, o)
  after_request (ok n, o) r =
      let (a, r') = await_reply (length r.pending + arriving r.arrivals + 1) r in (a, r', o)

  unfoldable pub amqp_simple_rpc :
      Codec M P → Writer → ℕ → ℕ → M → Receiver M P → Out → RpcReply M × Receiver M P × Out
  unfolding after_request amqp_send_method
  amqp_simple_rpc cd fn frame_max request_id decoded r o =
      after_request (amqp_send_method cd fn frame_max channel request_id decoded o) r
