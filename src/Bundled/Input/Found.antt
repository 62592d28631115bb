-- ===== src/Bundled/Input/Found.antt =====
-- A connection is ready for the next frame once `amqp_handle_input` has returned one.
use pg_amqp.Base.{ℕ, ◌+◌, ◌-◌, refl, [], ◌∷◌, ltb, ◌==◌, length, drop, chosen}
use pg_amqp.Events.{Bytes}
use pg_amqp.Bundled.Buffer.{Memory}
use pg_amqp.Bundled.Input.{
  Phase, idle, waiting_for_header, waiting_for_body, waiting_for_protocol_header, Inbound, Decoder,
  nothing, method, properties, body, heartbeat, protocol_header, Outcome, consumed, failed, aborted,
  return_to_idle, absorb, bytes_consumed, collect, return_frame, finish_body,
  finish_protocol_header, size_frame, read_rest, read_header, read_phase, amqp_handle_input,
}
use pg_amqp.Bundled.Input.Ready.{Ready}

-- Where there is a frame, the connection is idle and has no byte of the next one.
abbrev pub Found : {M P : Type 0} → Outcome M P × Inbound → Type 0
Found (consumed n nothing, i) = Unit
Found (consumed n _, i) = Ready i
Found (failed e, i) = Unit
Found (aborted, i) = Unit

module _ {M P : Type 0} where
  collect-Found :
      (rest : ℕ → Bytes → Inbound → Outcome M P × Inbound) (total : ℕ) (bs : Bytes) (i : Inbound)
      → ((t : ℕ) (cs : Bytes) (j : Inbound) → Found (rest t cs j))
      → Found (collect rest total bs i)
  unfolding collect
  collect-Found rest total bs i h =
      let n = bytes_consumed i (length bs) in
      let i' = absorb n bs i in
      chosen Found (ltb i.buffer_len (i.offset + n)) _ _ tt (
        chosen Found (ltb i.target_size i'.offset) _ _ tt
          (chosen Found (ltb i'.offset i.target_size) _ _ tt (h (total + n) (drop n bs) i')))

  return_frame-Found : (total : ℕ) (i : Inbound) (o : Outcome M P) → Found (return_frame total i o)
  unfolding return_frame return_to_idle
  return_frame-Found total i (consumed n nothing) = tt
  return_frame-Found total i (consumed n (method _ _ _)) = (refl, refl)
  return_frame-Found total i (consumed n (properties _ _ _ _)) = (refl, refl)
  return_frame-Found total i (consumed n (body _ _)) = (refl, refl)
  return_frame-Found total i (consumed n (heartbeat _)) = (refl, refl)
  return_frame-Found total i (consumed n (protocol_header _ _ _ _)) = (refl, refl)
  return_frame-Found total i (failed e) = tt
  return_frame-Found total i aborted = tt

protocol-Found :
    (M P : Type 0) (t : ℕ) (i : Inbound) → Found {M = M} {P = P} (finish_protocol_header t i)
unfolding finish_protocol_header return_to_idle
protocol-Found M P t i = chosen (Found {M = M} {P = P}) (i.buffer 3 == 80) _ _ (refl, refl) tt

module _ {M P : Type 0} (dec : Decoder M P) where
  body-Found : (t : ℕ) (i : Inbound) → Found (finish_body dec t i)
  unfolding finish_body
  body-Found t i =
      chosen Found (i.buffer (i.target_size - 1) == 206) _ _ (return_frame-Found t i _) tt

  read_rest_by-Found :
      (ph : Phase) (t b : ℕ) (bs : Bytes) (i : Inbound)
      → Found (read_rest dec t (b ∷ bs) (record i { phase = ph }))
  unfolding read_rest
  read_rest_by-Found waiting_for_protocol_header t b bs i =
      collect-Found {M = M} {P = P} (λ t rest i'. finish_protocol_header t i') t (b ∷ bs)
        (record i { phase = waiting_for_protocol_header }) (λ u cs j. protocol-Found M P u j)
  read_rest_by-Found idle t b bs i =
      collect-Found (λ t rest i'. finish_body dec t i') t (b ∷ bs) (record i { phase = idle })
        (λ u cs j. body-Found u j)
  read_rest_by-Found waiting_for_header t b bs i =
      collect-Found (λ t rest i'. finish_body dec t i') t (b ∷ bs)
        (record i { phase = waiting_for_header }) (λ u cs j. body-Found u j)
  read_rest_by-Found waiting_for_body t b bs i =
      collect-Found (λ t rest i'. finish_body dec t i') t (b ∷ bs)
        (record i { phase = waiting_for_body }) (λ u cs j. body-Found u j)

  read_rest-Found : (t : ℕ) (bs : Bytes) (i : Inbound) → Found (read_rest dec t bs i)
  unfolding read_rest
  read_rest-Found t [] i = tt
  read_rest-Found t (b ∷ bs) i = read_rest_by-Found i.phase t b bs i

  read_header-Found : (bs : Bytes) (i : Inbound) → Found (read_header dec bs i)
  unfolding read_header
  read_header-Found bs i =
      collect-Found (λ t rest i'. read_rest dec t rest (size_frame i')) 0 bs i
        (λ t cs j. read_rest-Found t cs (size_frame j))

  read_phase-Found :
      (page : Memory) (ph : Phase) (bs : Bytes) (i : Inbound) → Found (read_phase dec page ph bs i)
  unfolding read_phase
  read_phase-Found page idle bs i =
      read_header-Found bs (record i { buffer = page; phase = waiting_for_header })
  read_phase-Found page waiting_for_header bs i = read_header-Found bs i
  read_phase-Found page waiting_for_body bs i = read_rest-Found 0 bs i
  read_phase-Found page waiting_for_protocol_header bs i = read_rest-Found 0 bs i

  pub amqp_handle_input-Found :
      (page : Memory) (bs : Bytes) (i : Inbound) → Found (amqp_handle_input dec page bs i)
  unfolding amqp_handle_input
  amqp_handle_input-Found page [] i = tt
  amqp_handle_input-Found page (b ∷ bs) i = read_phase-Found page i.phase (b ∷ bs) i
