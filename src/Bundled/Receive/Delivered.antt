-- ===== src/Bundled/Receive/Delivered.antt =====
-- A wait for a frame of which the bytes arrive, cut into pieces in any way.
use pg_amqp.Base.{
  ℕ, suc, ◌+◌, ◌≤◌, ◌<◌, ◌≡◌, ◌≢◌, ◌^◌, inl, inr, refl, ap, ◌∙◌, sym, List, [], ◌∷◌, ◌++◌, length,
  drop, length-append, append-split, drop-append, drop-length, lt-cases, arith,
}
use mathlib.Core.Path.{subst}
use mathlib.Core.List.{append-nil, append_assoc}
use pg_amqp.Events.{Bytes}
use pg_amqp.Bundled.Buffer.{Memory}
use pg_amqp.Bundled.Input.{
  Inbound, Decoder, Received, nothing, consumed, decode_frame, amqp_handle_input,
}
use pg_amqp.Bundled.Input.Collected.{Idle, Arrived}
use pg_amqp.Bundled.Input.Partial.{front, back, Partial}
use pg_amqp.Bundled.Input.Pieces.{handled-piece, handled-rest}
use pg_amqp.Bundled.Receive.{
  Receiver, Arrival, arrived, broken, Waited, found, taken, exhausted, after_input, take_frame,
  take_pending, wait_read, wait_frame_inner,
}
use pg_amqp.Bundled.Receive.Rounds.{
  after_input-found, after_input-nothing, take_frame-some, take_frame-none,
}

-- The bytes that the socket will give, and that it gives nothing else.
abbrev pub stream : List Arrival → Bytes
stream [] = []
stream (arrived bs ∷ as_) = bs ++ stream as_
stream (broken e ∷ as_) = []

abbrev pub Flowing : List Arrival → Type 0
Flowing [] = Unit
Flowing (arrived [] ∷ as_) = ⊥
Flowing (arrived (b ∷ bs) ∷ as_) = Flowing as_
Flowing (broken e ∷ as_) = ⊥

-- What was read and what will be.
abbrev pub coming : {M P : Type 0} → Receiver M P → Bytes
coming r = r.pending ++ stream r.arrivals

-- The wait gives the frame and leaves the bytes behind it.
abbrev pub Delivered :
    {M P : Type 0}
    → ℕ
    → Received M P
    → Bytes
    → List (Received M P)
    → Waited M P × Receiver M P
    → Type 0
Delivered capacity f more queue (w, r) =
    (w ≡ found f)
    × Idle r.inbound
    × (r.inbound.buffer_len ≡ capacity)
    × (coming r ≡ more)
    × Flowing r.arrivals
    × (r.queue ≡ queue)

nonempty : (xs : Bytes) → 0 < length xs → (b : ℕ) × (bs : Bytes) × (xs ≡ b ∷ bs)
nonempty [] h = absurd (omega arith)
nonempty (b ∷ bs) h = (b, bs, refl)

module _ {M P : Type 0} (dec : Decoder M P) (page : Receiver M P → Memory) (type channel : ℕ)
    (p : Bytes) (capacity : ℕ) (f : Received M P) (no_protocol : type ≢ 65) (few : channel < 2 ^ 16)
    (room : length p + 8 ≤ capacity) (small : length p + 8 < 2 ^ 31)
    (decodes : (i : Inbound)
      → Arrived i type channel p
      → i.buffer_len ≡ capacity
      → decode_frame dec i ≡ consumed 0 f)
    (some_frame : f ≢ nothing) where
  abbrev whole : Bytes
  whole = front type channel p ++ back p

  -- Not the last byte of the frame.
  piece-taken :
      (n b : ℕ) (bs xs ys : Bytes) (r : Receiver M P)
      → r.pending ≡ b ∷ bs
      → Partial capacity p xs r.inbound
      → whole ≡ xs ++ (r.pending ++ ys)
      → 0 < length ys
      → (j : Inbound) × (take_frame dec page (suc (suc n)) r
          ≡ (exhausted, record r { inbound = j; pending = [] }))
        × Partial capacity p (xs ++ r.pending) j
  piece-taken n b bs xs ys r e h eq left =
      let size = ap length e in
      let (j, taken_all, h') =
        handled-piece dec type channel p capacity f no_protocol few room small decodes (page r) xs
          r.pending ys r.inbound h eq (omega arith) left in
      let next = record r { inbound = j; pending = drop (length r.pending) r.pending } in
      (
        j,
        take_frame-some dec page (suc n) b bs r e
            ∙ ap (after_input (take_frame dec page (suc n)) r) taken_all
            ∙ after_input-nothing dec page (take_frame dec page (suc n)) r (length r.pending) j
                (omega arith)
            ∙ take_frame-none dec page n next (drop-length r.pending)
            ∙ ap (λ x. (exhausted, record r { inbound = j; pending = x })) (drop-length r.pending),
        h',
      )

  -- None, or some of them but not the last.
  piece-exhausted :
      (bs xs ys : Bytes) (r : Receiver M P)
      → r.pending ≡ bs
      → Partial capacity p xs r.inbound
      → whole ≡ xs ++ (r.pending ++ ys)
      → 0 < length ys
      → (j : Inbound) × (take_pending dec page r
          ≡ (exhausted, record r { inbound = j; pending = [] }))
        × Partial capacity p (xs ++ r.pending) j
  piece-exhausted [] xs ys r e h eq left =
      let one : length r.pending + 1 ≡ 1 = ap (λ x. length x + 1) e in
      (
        r.inbound,
        ap (λ k. take_frame dec page k r) one
            ∙ take_frame-none dec page 0 r e
            ∙ (λ k. (exhausted, record r { pending = e k })),
        subst (λ x. Partial capacity p x r.inbound)
            (sym (append-nil xs) ∙ ap (λ x. xs ++ x) (sym e)) h,
      )
  piece-exhausted (b ∷ bs) xs ys r e h eq left =
      let size = ap length e in
      let fuel : suc (suc (length bs)) ≡ length r.pending + 1 = omega arith in
      let (j, all, h') = piece-taken (length bs) b bs xs ys r e h eq left in
      (j, ap (λ k. take_frame dec page k r) (sym fuel) ∙ all, h')

  -- The last byte of the frame, and others behind.
  rest-taken :
      (xs ys ms : Bytes) (r : Receiver M P)
      → Partial capacity p xs r.inbound
      → whole ≡ xs ++ ys
      → 0 < length ys
      → r.pending ≡ ys ++ ms
      → (j : Inbound) × (take_pending dec page r
          ≡ (taken (found f), record r { inbound = j; pending = ms }))
        × Idle j
        × (j.buffer_len ≡ capacity)
  rest-taken xs ys ms r h eq some e =
      let n = length-append ys ms in
      let n' = ap length e in
      let (b, bs, cons) = nonempty r.pending (omega arith) in
      let (j, all, idle_now, len) =
        handled-rest dec type channel p capacity f no_protocol few room small decodes (page r) xs ys
          ms r.inbound h eq some in
      let fuel : length r.pending + 1 ≡ suc (length r.pending) = omega arith in
      (
        j,
        ap (λ k. take_frame dec page k r) fuel
            ∙ take_frame-some dec page (length r.pending) b bs r cons
            ∙ ap
                (λ x.
                  after_input (take_frame dec page (length r.pending)) r
                    (amqp_handle_input dec (page r) x r.inbound))
                e
            ∙ ap (after_input (take_frame dec page (length r.pending)) r) all
            ∙ after_input-found dec page (take_frame dec page (length r.pending)) r (length ys) f j
                some_frame
            ∙ ap (λ x. (taken (found f), record r { inbound = j; pending = x }))
                (ap (drop (length ys)) e ∙ drop-append ys ms),
        idle_now,
        len,
      )

  found-Delivered :
      (as_ : List Arrival) (more ms : Bytes) (j : Inbound) (r : Receiver M P)
      → Idle j
      → j.buffer_len ≡ capacity
      → ms ++ stream as_ ≡ more
      → Flowing as_
      → Delivered capacity f more r.queue
          (wait_read dec page as_ (taken (found f), record r { inbound = j; pending = ms }))
  unfolding wait_read
  found-Delivered as_ more ms j r idle_now len e flowing = (refl, idle_now, len, e, flowing, refl)

  -- The frame is there, or the wait goes on with all its bytes taken.
  by_length :
      (as_ : List Arrival) (xs ys more : Bytes) (r : Receiver M P)
      → Partial capacity p xs r.inbound
      → whole ≡ xs ++ ys
      → 0 < length ys
      → r.pending ++ stream as_ ≡ ys ++ more
      → Flowing as_
      → ((j : Inbound) (ms : Bytes)
          → Partial capacity p (xs ++ r.pending) j
          → whole ≡ (xs ++ r.pending) ++ ms
          → 0 < length ms
          → stream as_ ≡ ms ++ more
          → Delivered capacity f more r.queue
              (wait_read dec page as_ (exhausted, record r { inbound = j; pending = [] })))
      → Delivered capacity f more r.queue (wait_read dec page as_ (take_pending dec page r))
  by_length as_ xs ys more r h eq some e flowing go_on =
      elim (lt-cases (length r.pending) (length ys)) [
        | inl short ↦
            let (ms, e1, e2) = append-split r.pending (stream as_) ys more e (omega arith) in
            let n = ap length e1 in
            let n' = length-append r.pending ms in
            let all : whole ≡ xs ++ (r.pending ++ ms) = eq ∙ ap (λ x. xs ++ x) e1 in
            let (j, ex, h') = piece-exhausted r.pending xs ms r refl h all (omega arith) in
            subst (λ t. Delivered capacity f more r.queue (wait_read dec page as_ t)) (sym ex)
              (go_on j ms h' (all ∙ sym (append_assoc xs r.pending ms)) (omega arith) e2)
        | inr long ↦
            let (ms, e1, e2) = append-split ys more r.pending (stream as_) (sym e) long in
            let (j, ex, idle_now, len) = rest-taken xs ys ms r h eq some e1 in
            subst (λ t. Delivered capacity f more r.queue (wait_read dec page as_ t)) (sym ex)
              (found-Delivered as_ more ms j r idle_now len (sym e2) flowing)
      ]

  wait_read-Delivered :
      (as_ : List Arrival) (xs ys more : Bytes) (r : Receiver M P)
      → Partial capacity p xs r.inbound
      → whole ≡ xs ++ ys
      → 0 < length ys
      → r.pending ++ stream as_ ≡ ys ++ more
      → Flowing as_
      → Delivered capacity f more r.queue (wait_read dec page as_ (take_pending dec page r))
  unfolding wait_read
  wait_read-Delivered [] xs ys more r h eq some e flowing =
      by_length [] xs ys more r h eq some e flowing (λ j ms h' eq' some' e'.
        let n = ap length e' in let n' = length-append ms more in absurd (omega arith))
  wait_read-Delivered (broken x ∷ as_) xs ys more r h eq some e flowing = absurd flowing
  wait_read-Delivered (arrived [] ∷ as_) xs ys more r h eq some e flowing = absurd flowing
  wait_read-Delivered (arrived (b ∷ bs) ∷ as_) xs ys more r h eq some e flowing =
      by_length (arrived (b ∷ bs) ∷ as_) xs ys more r h eq some e flowing (λ j ms h' eq' some' e'.
        wait_read-Delivered as_ (xs ++ r.pending) ms more
          (record r { inbound = j; pending = b ∷ bs; arrivals = as_ }) h' eq' some' e' flowing)

  -- On a connection that is ready for the frame, which comes first.
  pub wait_frame_inner-Delivered :
      (r : Receiver M P) (more : Bytes)
      → Idle r.inbound
      → r.inbound.buffer_len ≡ capacity
      → coming r ≡ whole ++ more
      → Flowing r.arrivals
      → Delivered capacity f more r.queue (wait_frame_inner dec page r)
  unfolding wait_frame_inner
  wait_frame_inner-Delivered r more idle_now len e flowing =
      let n = length-append (front type channel p) (back p) in
      wait_read-Delivered r.arrivals [] whole more r (inl (idle_now, len, refl)) refl (omega arith)
        e flowing
