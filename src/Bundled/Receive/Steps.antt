-- ===== src/Bundled/Receive/Steps.antt =====
-- What a wait for a frame does to the receiver: it ends, keeps the queue, and takes at least one byte
-- for a frame.
use pg_amqp.Base.{
  ℕ, zero, suc, ◌+◌, ◌≤◌, ◌<◌, ◌≡◌, ◌⊎◌, inl, inr, refl, ap, true, false, List, [], ◌∷◌, ◌==◌,
  length, drop, length-drop_le, arith, chosen_by, ◌≢◌,
}
use mathlib.Core.Path.{subst, subst⁻¹, ◌∙◌}
use pg_amqp.Events.{Bytes}
use pg_amqp.Bundled.Buffer.{Memory}
use pg_amqp.Bundled.Input.{
  Inbound, Decoder, nothing, method, properties, body, heartbeat, protocol_header, Outcome,
  consumed, failed, aborted, amqp_handle_input,
}
use pg_amqp.Bundled.Input.Ready.{Ready, Progress}
use pg_amqp.Bundled.Input.Progress.{amqp_handle_input-Progress}
use pg_amqp.Bundled.Input.Found.{Found, amqp_handle_input-Found}
use pg_amqp.Bundled.Receive.{
  Receiver, Arrival, arrived, broken, Waited, found, error, closed, crashed, blocked, starving,
  Taken, taken, exhausted, starved, amqp_data_in_buffer, after_input, take_frame, take_pending,
  wait_read, wait_frame_inner, arriving,
}

-- Ready for input, or below a number of bytes that are left.
abbrev pub Spent : {M P : Type 0} → ℕ → Receiver M P → Type 0
Spent b r = Ready r.inbound ⊎ (length r.pending < b)

-- A frame leaves the connection ready and fewer than `b` bytes.
abbrev pub TakenFits : {M P : Type 0} → ℕ → Receiver M P → Taken M P × Receiver M P → Type 0
TakenFits b r (taken (found f), r') =
    (r'.queue ≡ r.queue) × Ready r'.inbound × (length r'.pending < b)
TakenFits b r (taken w, r') = (r'.queue ≡ r.queue) × (w ≢ starving)
TakenFits b r (exhausted, r') = (r'.queue ≡ r.queue) × (length r'.pending ≡ 0) × Spent b r'
TakenFits b r (starved, r') = ⊥

abbrev pub left : {M P : Type 0} → Receiver M P → ℕ
left r = length r.pending + arriving r.arrivals

abbrev pub WaitFits : {M P : Type 0} → ℕ → Receiver M P → Waited M P × Receiver M P → Type 0
WaitFits b r (found f, r') = (r'.queue ≡ r.queue) × Ready r'.inbound × (left r' < b)
WaitFits b r (starving, r') = ⊥
WaitFits b r (w, r') = r'.queue ≡ r.queue

-- Some bytes are gone.
drop-lt : (n : ℕ) (b : ℕ) (bs : Bytes) → 0 < n → length (drop n (b ∷ bs)) < suc (length bs)
drop-lt zero b bs h = absurd (omega arith)
drop-lt (suc n) b bs h = let le = length-drop_le n bs in omega arith

drop-shrinks : (n x : ℕ) (xs ys : Bytes) → ys ≡ x ∷ xs → 0 < n → length (drop n ys) < length ys
drop-shrinks n x xs ys e h = subst⁻¹ (λ zs. length (drop n zs) < length zs) e (drop-lt n x xs h)

module _ {M P : Type 0} where
  drop-Spent :
      (b n x : ℕ) (xs : Bytes) (r : Receiver M P)
      → r.pending ≡ x ∷ xs
      → length r.pending ≤ b
      → Spent b r
      → (Ready r.inbound → 0 < n)
      → length (drop n r.pending) < b
  drop-Spent b n x xs r some le (inl ready) p =
      let lt = drop-shrinks n x xs r.pending some (p ready) in omega arith
  drop-Spent b n x xs r some le (inr spent) p =
      let shorter = length-drop_le n r.pending in omega arith

  after_input-Fits :
      (b x : ℕ) (xs : Bytes) (next : Receiver M P → Taken M P × Receiver M P) (r : Receiver M P)
      (o : Outcome M P × Inbound)
      → r.pending ≡ x ∷ xs
      → length r.pending ≤ b
      → Spent b r
      → Found o
      → (Ready r.inbound → Progress (length r.pending) o)
      → ((r' : Receiver M P)
          → r'.queue ≡ r.queue
          → length r'.pending < length r.pending
          → TakenFits b r (next r'))
      → TakenFits b r (after_input next r o)
  unfolding after_input
  after_input-Fits b x xs next r (failed e, i) some le s f p k = (refl, λ e. cc)
  after_input-Fits b x xs next r (aborted, i) some le s f p k = (refl, λ e. cc)
  after_input-Fits b x xs next r (consumed n nothing, i) some le s f p k =
      let r' = record r { inbound = i; pending = drop n r.pending } in
      chosen_by (TakenFits b r) (n == 0) (taken crashed, r') (next r') (λ _. (refl, λ e. cc))
        (λ h. k r' refl (drop-shrinks n x xs r.pending some (ground arith)))
  after_input-Fits b x xs next r (consumed n (method c id d), i) some le s f p k =
      (refl, f, drop-Spent b n x xs r some le s (λ ready. (p ready).0))
  after_input-Fits b x xs next r (consumed n (properties c id size d), i) some le s f p k =
      (refl, f, drop-Spent b n x xs r some le s (λ ready. (p ready).0))
  after_input-Fits b x xs next r (consumed n (body c bs), i) some le s f p k =
      (refl, f, drop-Spent b n x xs r some le s (λ ready. (p ready).0))
  after_input-Fits b x xs next r (consumed n (heartbeat c), i) some le s f p k =
      (refl, f, drop-Spent b n x xs r some le s (λ ready. (p ready).0))
  after_input-Fits b x xs next r (consumed n (protocol_header c d e g), i) some le s f p k =
      (refl, f, drop-Spent b n x xs r some le s (λ ready. (p ready).0))

-- The queue is that of another receiver with the same queue.
TakenFits-queue :
    {M P : Type 0} (b : ℕ) (r r' : Receiver M P) (t : Taken M P × Receiver M P)
    → r'.queue ≡ r.queue
    → TakenFits b r' t
    → TakenFits b r t
TakenFits-queue b r r' (taken (found f), q) e (k, h, l) = (k ∙ e, h, l)
TakenFits-queue b r r' (taken (error x), q) e (k, h) = (k ∙ e, h)
TakenFits-queue b r r' (taken closed, q) e (k, h) = (k ∙ e, h)
TakenFits-queue b r r' (taken crashed, q) e (k, h) = (k ∙ e, h)
TakenFits-queue b r r' (taken blocked, q) e (k, h) = (k ∙ e, h)
TakenFits-queue b r r' (taken starving, q) e (k, h) = (k ∙ e, h)
TakenFits-queue b r r' (exhausted, q) e (k, h, l) = (k ∙ e, h, l)
TakenFits-queue b r r' (starved, q) e h = h

-- With new bytes from the socket.
refill :
    {M P : Type 0} (b x : ℕ) (xs : Bytes) (q : Receiver M P)
    → Spent b q
    → length q.pending ≡ 0
    → Ready q.inbound ⊎ (length (x ∷ xs) < b + length (x ∷ xs))
refill b x xs q (inl ready) h = inl ready
refill b x xs q (inr spent) h = inr (omega arith)

pub data_in_buffer :
    {M P : Type 0} (r : Receiver M P) (bs : Bytes)
    → r.pending ≡ bs
    → amqp_data_in_buffer r ≡ elim bs [ [] ↦ false | _ ∷ _ ↦ true ]
unfolding amqp_data_in_buffer
data_in_buffer r bs e = ap (λ (xs : Bytes). elim xs [ [] ↦ false | _ ∷ _ ↦ true ]) e

module _ {M P : Type 0} (dec : Decoder M P) (page : Receiver M P → Memory) where
  take_frame-Fits :
      (f b : ℕ) (r : Receiver M P) (bs : Bytes)
      → r.pending ≡ bs
      → length bs < f
      → length bs ≤ b
      → Spent b r
      → TakenFits b r (take_frame dec page f r)
  unfolding take_frame
  take_frame-Fits zero b r bs e fuel le s = absurd (omega arith)
  take_frame-Fits (suc f) b r [] e fuel le s =
      let none = data_in_buffer r [] e in
      chosen_by (TakenFits b r) (amqp_data_in_buffer r) _ (exhausted, r) (λ some. absurd (cc))
        (λ _. (refl, ap length e, s))
  take_frame-Fits (suc f) b r (x ∷ xs) e fuel le s =
      let some = data_in_buffer r (x ∷ xs) e in
      let n = ap length e in
      chosen_by (TakenFits b r) (amqp_data_in_buffer r)
        (after_input (take_frame dec page f) r (amqp_handle_input dec (page r) r.pending r.inbound))
        (exhausted, r)
        (λ _.
          after_input-Fits b x xs (take_frame dec page f) r
            (amqp_handle_input dec (page r) r.pending r.inbound) e (omega arith) s
            (amqp_handle_input-Found dec (page r) r.pending r.inbound)
            (λ ready.
              amqp_handle_input-Progress dec (page r) r.pending r.inbound (omega arith) ready)
            (λ r' q shorter. TakenFits-queue b r r' (take_frame dec page f r') q (
              take_frame-Fits f b r' r'.pending refl (omega arith) (omega arith)
                (inr (omega arith)))))
        (λ none. absurd (cc))

  take_pending-Fits :
      (b : ℕ) (r : Receiver M P)
      → length r.pending ≤ b
      → Spent b r
      → TakenFits b r (take_pending dec page r)
  take_pending-Fits b r le s =
      take_frame-Fits (length r.pending + 1) b r r.pending refl (omega arith) le s

  wait_read-Fits :
      (as_ : List Arrival) (b : ℕ) (r : Receiver M P) (t : Taken M P × Receiver M P)
      → TakenFits b r t
      → WaitFits (b + arriving as_) r (wait_read dec page as_ t)
  unfolding wait_read
  wait_read-Fits as_ b r (taken (found f), q) (k, ready, lt) = (k, ready, omega arith)
  wait_read-Fits as_ b r (taken (error x), q) (k, h) = k
  wait_read-Fits as_ b r (taken closed, q) (k, h) = k
  wait_read-Fits as_ b r (taken crashed, q) (k, h) = k
  wait_read-Fits as_ b r (taken blocked, q) (k, h) = k
  wait_read-Fits as_ b r (taken starving, q) (k, h) = absurd (h refl)
  wait_read-Fits as_ b r (starved, q) h = absurd h
  wait_read-Fits [] b r (exhausted, q) (k, h, s) = k
  wait_read-Fits (broken e ∷ as_) b r (exhausted, q) (k, h, s) = k
  wait_read-Fits (arrived [] ∷ as_) b r (exhausted, q) (k, h, s) = k
  wait_read-Fits (arrived (x ∷ xs) ∷ as_) b r (exhausted, q) (k, h, s) =
      let q' = record q { pending = x ∷ xs; arrivals = as_ } in
      let b' = b + length (x ∷ xs) in
      let total : b' + arriving as_ ≡ b + arriving (arrived (x ∷ xs) ∷ as_) = omega arith in
      subst (λ n. WaitFits n r (wait_read dec page as_ (take_pending dec page q'))) total
        (wait_read-Fits as_ b' r (take_pending dec page q') (
          TakenFits-queue b' r q' (take_pending dec page q') k
            (take_pending-Fits b' q' (omega arith) (refill b x xs q s h))))

  pub wait_frame_inner-Fits :
      (r : Receiver M P) → Ready r.inbound → WaitFits (left r) r (wait_frame_inner dec page r)
  unfolding wait_frame_inner
  wait_frame_inner-Fits r ready =
      wait_read-Fits r.arrivals (length r.pending) r (take_pending dec page r)
        (take_pending-Fits (length r.pending) r (omega arith) (inl ready))
