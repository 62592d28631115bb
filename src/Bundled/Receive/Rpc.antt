-- ===== src/Bundled/Receive/Rpc.antt =====
-- `amqp_simple_rpc`: it ends, answers with the frame that ends the exchange, and keeps every frame
-- before it.
use pg_amqp.Base.{
  ℕ, zero, suc, ◌+◌, ◌<◌, ◌≡◌, ◌⊎◌, inl, inr, refl, ap, sym, true, false, List, [], ◌∷◌, ◌++◌,
  length, arith, chosen_by,
}
use mathlib.Core.Path.{◌∙◌, subst}
use mathlib.Core.List.{append_assoc, append-nil}
use pg_amqp.Bundled.Buffer.{Memory}
use pg_amqp.Bundled.Frame.{Result, ok, fail, Codec, Writer, Out}
use pg_amqp.Bundled.Publish.{amqp_send_method}
use pg_amqp.Bundled.Input.{
  Decoder, Received, nothing, method, properties, body, heartbeat, protocol_header,
}
use pg_amqp.Bundled.Input.Ready.{Ready}
use pg_amqp.Bundled.Receive.{
  Receiver, Waited, found, error, closed, crashed, blocked, starving, RpcReply, normal,
  server_exception, library_exception, rpc_crashed, rpc_blocked, is_reply, reply_of, enqueue,
  after_wait, wait_frame_inner, await_reply, after_request, amqp_simple_rpc, amqp_id_in_reply_list,
  arriving,
}
use pg_amqp.Bundled.Receive.Steps.{WaitFits, left, wait_frame_inner-Fits}

-- A method that the caller expects.
abbrev pub Expects : List ℕ → ℕ → Type 0
Expects [] id = ⊥
Expects (e ∷ es) id = (id ≡ e) ⊎ Expects es id

-- The frames that end an exchange: on its channel an expected method or channel.close, and on channel 0
-- connection.close.
abbrev pub EndsExchange : {M P : Type 0} → ℕ → List ℕ → Received M P → Type 0
EndsExchange channel expected (method c id d) =
    ((c ≡ channel) × (Expects expected id ⊎ (id ≡ 1310760))) ⊎ ((c ≡ 0) × (id ≡ 655420))
EndsExchange channel expected _ = ⊥

-- What the reply says of a frame that ends the exchange.
abbrev pub Reports : {M P : Type 0} → List ℕ → Received M P → RpcReply M → Type 0
Reports expected (method c id d) a =
    (Expects expected id × (a ≡ normal id d))
    ⊎ (¬ Expects expected id × (a ≡ server_exception id d))
Reports expected _ a = ⊥

in_list :
    (id : ℕ) (es : List ℕ)
    → ((amqp_id_in_reply_list id es ≡ true) × Expects es id)
      ⊎ ((amqp_id_in_reply_list id es ≡ false) × ¬ Expects es id)
in_list id [] = inr (refl, λ e. e)
in_list id (e ∷ es) = let rest = in_list id es in ground arith

-- `is_reply` against the description.
reply_cases :
    {M P : Type 0} (channel : ℕ) (expected : List ℕ) (f : Received M P)
    → ((is_reply channel expected f ≡ true) × EndsExchange channel expected f)
      ⊎ ((is_reply channel expected f ≡ false) × ¬ EndsExchange channel expected f)
unfolding is_reply
reply_cases channel expected (method c id d) = let listed = in_list id expected in ground arith
reply_cases channel expected nothing = inr (refl, λ e. e)
reply_cases channel expected (properties _ _ _ _) = inr (refl, λ e. e)
reply_cases channel expected (body _ _) = inr (refl, λ e. e)
reply_cases channel expected (heartbeat _) = inr (refl, λ e. e)
reply_cases channel expected (protocol_header _ _ _ _) = inr (refl, λ e. e)

method-Reports :
    (M P : Type 0) (expected : List ℕ) (c id : ℕ) (d : M)
    → Reports {P = P} expected (method c id d) (reply_of {P = P} expected (method c id d))
unfolding reply_of
method-Reports M P expected c id d = let listed = in_list id expected in ground arith

reply_of-Reports :
    {M P : Type 0} (channel : ℕ) (expected : List ℕ) (f : Received M P)
    → EndsExchange channel expected f
    → Reports expected f (reply_of expected f)
reply_of-Reports {M} {P} channel expected (method c id d) e = method-Reports M P expected c id d
reply_of-Reports channel expected nothing e = absurd e
reply_of-Reports channel expected (properties _ _ _ _) e = absurd e
reply_of-Reports channel expected (body _ _) e = absurd e
reply_of-Reports channel expected (heartbeat _) e = absurd e
reply_of-Reports channel expected (protocol_header _ _ _ _) e = absurd e

module _ {M P : Type 0} (dec : Decoder M P) (page : Receiver M P → Memory) (channel : ℕ)
    (expected : List ℕ) where
  -- Waits one after another of which each finds a frame that does not end the exchange, and the queue
  -- keeps it at its end.
  pub data Kept : Receiver M P → List (Received M P) → Receiver M P → Type 0 where
    at_once : {r : Receiver M P} → Kept r [] r
    another :
        {r q r' : Receiver M P} {f : Received M P} {fs : List (Received M P)}
        → wait_frame_inner dec page r ≡ (found f, q)
        → ¬ EndsExchange channel expected f
        → Kept (record q { queue = q.queue ++ f ∷ [] }) fs r'
        → Kept r (f ∷ fs) r'

  -- What the last wait comes to, and the answer to it.
  abbrev pub Says : Waited M P × Receiver M P → RpcReply M → Receiver M P → Type 0
  Says (found f, q) a r' = EndsExchange channel expected f × Reports expected f a × (r' ≡ q)
  Says (error e, q) a r' = (a ≡ library_exception e) × (r' ≡ q)
  Says (closed, q) a r' = (a ≡ library_exception 0) × (r' ≡ q)
  Says (crashed, q) a r' = (a ≡ rpc_crashed) × (r' ≡ q)
  Says (blocked, q) a r' = (a ≡ rpc_blocked) × (r' ≡ q)
  Says (starving, q) a r' = ⊥

  -- Some waits whose frames are kept, and the wait that is answered.
  pub record Awaited (r : Receiver M P) (a : RpcReply M) (r' : Receiver M P) : Type 0 where
    pub frames : List (Received M P)
    pub last : Receiver M P
    pub kept : Kept r frames last
    pub answer : Says (wait_frame_inner dec page last) a r'
    pub queue : r'.queue ≡ r.queue ++ frames

  -- The reply to a request that was sent or not.
  abbrev pub Answered : Result → Receiver M P → RpcReply M → Receiver M P → Type 0
  Answered (fail e) r a r' = (a ≡ library_exception e) × (r' ≡ r)
  Answered (ok n) r a r' = Awaited r a r'

  abbrev AwaitedBy : Receiver M P → RpcReply M × Receiver M P → Type 0
  AwaitedBy r (a, r') = Awaited r a r'

  none_kept :
      (r q : Receiver M P) (w : Waited M P) (a : RpcReply M)
      → wait_frame_inner dec page r ≡ (w, q)
      → q.queue ≡ r.queue
      → Says (w, q) a q
      → AwaitedBy r (a, q)
  none_kept r q w a e h s = record {
    frames = [];
    last = r;
    kept = at_once;
    answer = subst (λ x. Says x a q) (sym e) s;
    queue = h ∙ sym (append-nil r.queue);
  }

  -- A frame that is kept, and then the answer to the next waits.
  one_kept :
      (f : Received M P) (r q : Receiver M P) (o : RpcReply M × Receiver M P)
      → wait_frame_inner dec page r ≡ (found f, q)
      → q.queue ≡ r.queue
      → ¬ EndsExchange channel expected f
      → AwaitedBy (enqueue f q) o
      → AwaitedBy r o
  unfolding enqueue
  one_kept f r q (a, r') e h other o = record {
    frames = f ∷ o.frames;
    last = o.last;
    kept = another e other o.kept;
    answer = o.answer;
    queue = o.queue ∙ append_assoc q.queue (f ∷ []) o.frames ∙ ap (λ x. x ++ f ∷ o.frames) h;
  }

  after_wait-Awaited :
      (r : Receiver M P) (retry : Receiver M P → RpcReply M × Receiver M P)
      (w : Waited M P × Receiver M P)
      → wait_frame_inner dec page r ≡ w
      → WaitFits (left r) r w
      → ((q : Receiver M P) → Ready q.inbound → left q < left r → AwaitedBy q (retry q))
      → AwaitedBy r (after_wait channel expected retry w)
  unfolding after_wait enqueue
  after_wait-Awaited r retry (found f, q) e (h, ready, fewer) k =
      elim (reply_cases channel expected f) [
        | inl (replies, ends) ↦
            chosen_by (AwaitedBy r) (is_reply channel expected f) (reply_of expected f, q)
              (retry (enqueue f q))
              (λ t.
                none_kept r q (found f) (reply_of expected f) e h
                  (ends, reply_of-Reports channel expected f ends, refl))
              (λ t. absurd (cc))
        | inr (skipped, other) ↦
            chosen_by (AwaitedBy r) (is_reply channel expected f) (reply_of expected f, q)
              (retry (enqueue f q)) (λ t. absurd (cc))
              (λ t. one_kept f r q (retry (enqueue f q)) e h other (k (enqueue f q) ready fewer))
      ]
  after_wait-Awaited r retry (error x, q) e h k =
      none_kept r q (error x) (library_exception x) e h (refl, refl)
  after_wait-Awaited r retry (closed, q) e h k =
      none_kept r q closed (library_exception 0) e h (refl, refl)
  after_wait-Awaited r retry (crashed, q) e h k = none_kept r q crashed rpc_crashed e h (refl, refl)
  after_wait-Awaited r retry (blocked, q) e h k = none_kept r q blocked rpc_blocked e h (refl, refl)
  after_wait-Awaited r retry (starving, q) e h k = absurd h

  await_reply-Awaited :
      (f : ℕ) (r : Receiver M P)
      → Ready r.inbound
      → left r < f
      → AwaitedBy r (await_reply dec page channel expected f r)
  unfolding await_reply
  await_reply-Awaited zero r ready fuel = absurd (omega arith)
  await_reply-Awaited (suc f) r ready fuel =
      after_wait-Awaited r (await_reply dec page channel expected f) (wait_frame_inner dec page r)
        refl (wait_frame_inner-Fits dec page r ready)
        (λ q ready' fewer. await_reply-Awaited f q ready' (omega arith))

  after_request-Answered :
      (s : Result × Out) (r : Receiver M P)
      → Ready r.inbound
      → let o = after_request dec page channel expected s r in Answered s.0 r o.0 o.1
  unfolding after_request
  after_request-Answered (fail e, o) r ready = (refl, refl)
  after_request-Answered (ok n, o) r ready =
      await_reply-Awaited (length r.pending + arriving r.arrivals + 1) r ready (omega arith)

-- On a connection that is ready for input, `amqp_simple_rpc` never runs out of fuel. Where the request
-- is not sent, it reports that error and reads nothing. Otherwise it waits for frame after frame: each
-- that does not end the exchange goes to the end of the queue and it waits again; the first that does, an
-- expected method or channel.close on its channel or connection.close on channel 0, is the answer, NORMAL
-- if it is expected and SERVER_EXCEPTION if not; a wait that finds no frame is answered by its error, or
-- is an abort or a wait without end. The queue has grown by the frames that were kept, in their order.
pub amqp_simple_rpc-Answered :
    {M P : Type 0} (dec : Decoder M P) (page : Receiver M P → Memory) (channel : ℕ)
    (expected : List ℕ) (cd : Codec M P) (fn : Writer) (frame_max request_id : ℕ) (decoded : M)
    (r : Receiver M P) (o : Out)
    → Ready r.inbound
    → let a = amqp_simple_rpc dec page channel expected cd fn frame_max request_id decoded r o in
      let sent = amqp_send_method cd fn frame_max channel request_id decoded o in
      Answered dec page channel expected sent.0 r a.0 a.1
unfolding amqp_simple_rpc
amqp_simple_rpc-Answered dec page channel expected cd fn frame_max request_id decoded r o ready =
    after_request-Answered dec page channel expected
      (amqp_send_method cd fn frame_max channel request_id decoded o) r ready
