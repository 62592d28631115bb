-- ===== src/Bundled/Input/Progress.antt =====
-- That `amqp_handle_input` makes progress: what its caller asserts, and what ends the caller's loop.
use pg_amqp.Base.{
  ◌*◌, length-drop, ℕ, ◌+◌, ◌-◌, ◌%◌, ◌^◌, ◌≤◌, ◌<◌, ◌≡◌, ◌⊎◌, inl, inr, refl, [], ◌∷◌, length,
  drop, ltb, ◌==◌, ◌&&◌, if◌then◌else◌, arith, chosen, chosen_by,
}
use pg_amqp.Events.{Bytes}
use pg_amqp.Bundled.Buffer.{Memory}
use pg_amqp.Bundled.Frame.{frame_end, efault, einval}
use pg_amqp.Bundled.Input.{
  Phase, idle, waiting_for_header, waiting_for_body, waiting_for_protocol_header, Inbound, Decoder,
  Received, nothing, method, properties, body, heartbeat, protocol_header, Outcome, consumed,
  failed, aborted, return_to_idle, bytes_consumed, absorb, decode_frame, return_frame, finish_body,
  finish_protocol_header, size_frame, collect, read_rest, read_header, read_phase,
  amqp_handle_input, d16, d32,
}
use pg_amqp.Bundled.Input.Ready.{
  PhaseFits, Ready, Wrapped, Next, Progress, consumed-le, consumed-all, is_less, is_equal,
}

-- A connection that is idle and ready takes the next bytes, whatever was found.
returned : {M P : Type 0} (i : Inbound) (f : Received M P) → i.phase ≡ idle → Ready i → Next f i
returned i nothing still ready = inl ready
returned i (method _ _ _) still ready = (still, ready)
returned i (properties _ _ _ _) still ready = (still, ready)
returned i (body _ _) still ready = (still, ready)
returned i (heartbeat _) still ready = (still, ready)
returned i (protocol_header _ _ _ _) still ready = (still, ready)

module _ {M P : Type 0} (dec : Decoder M P) (len total : ℕ) (some_read : 0 < total)
    (within : total ≤ len) where
  return_frame-Progress : (i : Inbound) (o : Outcome M P) → Progress len (return_frame total i o)
  unfolding return_frame return_to_idle
  return_frame-Progress i (consumed n f) =
      (some_read, within, inr refl, returned (return_to_idle i) f refl (refl, refl))
  return_frame-Progress i (failed e) = tt
  return_frame-Progress i aborted = tt

  finish_body-Progress : (i : Inbound) → Progress len (finish_body dec total i)
  unfolding finish_body
  finish_body-Progress i =
      chosen (Progress len) (i.buffer (i.target_size - 1) == frame_end)
        (return_frame total i (decode_frame dec i)) (failed einval, i)
        (return_frame-Progress i (decode_frame dec i)) tt

  finish_protocol_header-Progress :
      (i : Inbound) → Progress {M = M} {P = P} len (finish_protocol_header total i)
  unfolding finish_protocol_header return_to_idle
  finish_protocol_header-Progress i =
      let m = i.buffer in
      chosen (Progress {M = M} {P = P} len) (m 3 == 80)
        (consumed total (protocol_header (m 4) (m 5) (m 6) (m 7)), return_to_idle i) (aborted, i)
        (some_read, within, inr refl, (refl, (refl, refl))) tt

-- A frame of which bytes are missing, or whose size has wrapped.
open_body :
    (i : Inbound)
    → i.target_size < 2 ^ 32
    → (i.offset < i.target_size) ⊎ ((i.target_size ≤ 7) × (i.target_size ≤ i.offset))
    → let j = record i { phase = waiting_for_body } in Ready j ⊎ Wrapped j
open_body i small (inl h) = inl (h, small)
open_body i small (inr (a, b)) = inr (refl, a, b)

module _ {M P : Type 0} (dec : Decoder M P) where
  -- The copy, and what follows it where the target is reached.
  collect-Progress :
      (rest : ℕ → Bytes → Inbound → Outcome M P × Inbound)
      → (len total : ℕ) (bs : Bytes) (i : Inbound) → total + length bs ≡ len
      → 0 < length bs
      → i.target_size < 2 ^ 32
      → ((n : ℕ) → i.offset + n < i.target_size → Ready (absorb n bs i))
      → ((n : ℕ)
          → n ≤ length bs
          → i.offset + n ≡ i.target_size
          → Progress len (rest (total + n) (drop n bs) (absorb n bs i)))
      → Progress len (collect rest total bs i)
  unfolding collect absorb
  collect-Progress rest len total bs i sum some_left small ready next =
      let n = bytes_consumed i (length bs) in
      let there = consumed-le i (length bs) in
      let i' = absorb n bs i in
      chosen (Progress len) (ltb i.buffer_len (i.offset + n)) (failed efault, i)
        (if ltb i.target_size i'.offset
          then (aborted, i')
          else (if ltb i'.offset i.target_size
              then (consumed (total + n) nothing, i')
              else rest (total + n) (drop n bs) i'))
        tt
        (chosen_by (Progress len) (ltb i.target_size i'.offset) (aborted, i')
          (if ltb i'.offset i.target_size
            then (consumed (total + n) nothing, i')
            else rest (total + n) (drop n bs) i')
          (λ h. tt)
          (λ not_over.
            chosen_by (Progress len) (ltb i'.offset i.target_size)
              (consumed (total + n) nothing, i') (rest (total + n) (drop n bs) i')
              (λ h.
                let short = is_less i'.offset i.target_size h in
                let all = consumed-all i (length bs) small short in
                (omega arith, omega arith, inl (omega arith), inl (ready n short)))
              (λ h. next n there (is_equal i'.offset i.target_size not_over h))))

  -- Behind a header, in either phase.
  read_body-Progress :
      (len total : ℕ) (bs : Bytes) (i : Inbound)
      → total + length bs ≡ len
      → 0 < len
      → (0 < total) ⊎ (i.offset < i.target_size)
      → i.target_size < 2 ^ 32
      → (i.offset < i.target_size) ⊎ ((i.target_size ≤ 7) × (i.target_size ≤ i.offset))
      → Progress len (read_rest dec total bs (record i { phase = waiting_for_body }))
  unfolding read_rest absorb
  read_body-Progress len total [] i sum some missing small fits =
      (omega arith, omega arith, inl (omega arith), open_body i small fits)
  read_body-Progress len total (b ∷ bs) i sum some missing small fits =
      let j = record i { phase = waiting_for_body } in
      collect-Progress (λ t rest i'. finish_body dec t i') len total (b ∷ bs) j sum (omega arith)
        small (λ n short. (short, small))
        (λ n le full.
          finish_body-Progress dec len (total + n) (omega arith) (omega arith)
            (absorb n (b ∷ bs) j))

  read_protocol-Progress :
      (len total : ℕ) (bs : Bytes) (i : Inbound)
      → total + length bs ≡ len
      → 0 < len
      → (0 < total) ⊎ (i.offset < i.target_size)
      → i.target_size < 2 ^ 32
      → i.offset < i.target_size
      → Progress len (read_rest dec total bs (record i { phase = waiting_for_protocol_header }))
  unfolding read_rest absorb
  read_protocol-Progress len total [] i sum some missing small fits =
      (omega arith, omega arith, inl (omega arith), inl (fits, small))
  read_protocol-Progress len total (b ∷ bs) i sum some missing small fits =
      let j = record i { phase = waiting_for_protocol_header } in
      collect-Progress (λ t rest i'. finish_protocol_header t i') len total (b ∷ bs) j sum
        (omega arith) small (λ n short. (short, small))
        (λ n le full.
          finish_protocol_header-Progress dec len (total + n) (omega arith) (omega arith)
            (absorb n (b ∷ bs) j))

  read_header-Progress :
      (bs : Bytes) (i : Inbound)
      → 0 < length bs
      → i.offset < 7
      → i.target_size ≡ 7
      → Progress (length bs) (read_header dec bs (record i { phase = waiting_for_header }))
  unfolding read_header size_frame absorb
  read_header-Progress bs i some early target =
      let j = record i { phase = waiting_for_header } in
      collect-Progress (λ t rest i'. read_rest dec t rest (size_frame i')) (length bs) 0 bs j
        (omega arith) some (omega arith) (λ n short. (omega arith, target))
        (λ n le full.
          let i' = absorb n bs j in
          let left = length-drop n bs le in
          let size = (d32 i'.buffer 3 + 8) % 2 ^ 32 in
          chosen (λ x. Progress (length bs) (read_rest dec (0 + n) (drop n bs) x))
            (i'.buffer 0 == 65 && d16 i'.buffer 1 == 77 * 256 + 81)
            (record i' { target_size = 8; phase = waiting_for_protocol_header })
            (record i' { target_size = size; phase = waiting_for_body })
            (read_protocol-Progress (length bs) (0 + n) (drop n bs) (record i' { target_size = 8 })
              (omega arith) (omega arith) (inl (omega arith)) (omega arith) (omega arith))
            (read_body-Progress (length bs) (0 + n) (drop n bs) (record i' { target_size = size })
              (omega arith) (omega arith) (inl (omega arith)) (omega arith) (omega arith)))

  read_phase-Progress :
      (page : Memory) (ph : Phase) (bs : Bytes) (i : Inbound)
      → 0 < length bs
      → PhaseFits ph i.offset i.target_size
      → Progress (length bs) (read_phase dec page ph bs (record i { phase = ph }))
  unfolding read_phase
  read_phase-Progress page idle bs i some (start, target) =
      read_header-Progress bs (record i { buffer = page }) some (omega arith) target
  read_phase-Progress page waiting_for_header bs i some (early, target) =
      read_header-Progress bs i some early target
  read_phase-Progress page waiting_for_body bs i some (missing, small) =
      read_body-Progress (length bs) 0 bs i (omega arith) some (inr missing) small (inl missing)
  read_phase-Progress page waiting_for_protocol_header bs i some (missing, small) =
      read_protocol-Progress (length bs) 0 bs i (omega arith) some (inr missing) small missing

  -- A connection that is ready for input and gets some bytes: unless `amqp_handle_input` reports an
  -- error or aborts, it consumes at least one byte and no more than there are, and all of them where
  -- it is not idle again. Behind a frame that it returns it is idle with no byte of the next frame
  -- taken; without one it is ready for more input, unless the size of a frame of which the header is
  -- read has wrapped to 7 bytes or less.
  pub amqp_handle_input-Progress :
      (page : Memory) (bs : Bytes) (i : Inbound)
      → 0 < length bs
      → Ready i
      → Progress (length bs) (amqp_handle_input dec page bs i)
  unfolding amqp_handle_input
  amqp_handle_input-Progress page [] i some ready = elim some [ ]
  amqp_handle_input-Progress page (b ∷ bs) i some ready =
      read_phase-Progress page i.phase (b ∷ bs) i some ready
