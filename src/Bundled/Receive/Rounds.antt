-- ===== src/Bundled/Receive/Rounds.antt =====
-- One round of `take_frame`, by what `amqp_handle_input` comes to.
use pg_amqp.Base.{ℕ, suc, ◌<◌, ◌≡◌, ◌≢◌, refl, [], ◌∷◌, drop, arith}
use pg_amqp.Events.{Bytes}
use pg_amqp.Bundled.Buffer.{Memory}
use pg_amqp.Bundled.Input.{
  Inbound, Decoder, Received, nothing, method, properties, body, heartbeat, protocol_header,
  consumed, amqp_handle_input,
}
use pg_amqp.Bundled.Receive.{Receiver, found, Taken, taken, exhausted, after_input, take_frame}
use pg_amqp.Bundled.Receive.Steps.{data_in_buffer}

module _ {M P : Type 0} (dec : Decoder M P) (page : Receiver M P → Memory) where
  pub after_input-found :
      (next : Receiver M P → Taken M P × Receiver M P) (r : Receiver M P) (n : ℕ) (f : Received M P)
      (i : Inbound)
      → f ≢ nothing
      → after_input next r (consumed n f, i)
        ≡ (taken (found f), record r { inbound = i; pending = drop n r.pending })
  unfolding after_input
  after_input-found next r n nothing i h = absurd (h refl)
  after_input-found next r n (method _ _ _) i h = refl
  after_input-found next r n (properties _ _ _ _) i h = refl
  after_input-found next r n (body _ _) i h = refl
  after_input-found next r n (heartbeat _) i h = refl
  after_input-found next r n (protocol_header _ _ _ _) i h = refl

  pub after_input-nothing :
      (next : Receiver M P → Taken M P × Receiver M P) (r : Receiver M P) (n : ℕ) (i : Inbound)
      → 0 < n
      → after_input next r (consumed n nothing, i)
        ≡ next (record r { inbound = i; pending = drop n r.pending })
  unfolding after_input
  after_input-nothing next r n i h = ground arith

  pub take_frame-some :
      (f b : ℕ) (bs : Bytes) (r : Receiver M P)
      → r.pending ≡ b ∷ bs
      → take_frame dec page (suc f) r
        ≡ after_input (take_frame dec page f) r (amqp_handle_input dec (page r) r.pending r.inbound)
  unfolding take_frame
  take_frame-some f b bs r e = let h = data_in_buffer r (b ∷ bs) e in ground arith

  pub take_frame-none :
      (f : ℕ) (r : Receiver M P) → r.pending ≡ [] → take_frame dec page (suc f) r ≡ (exhausted, r)
  unfolding take_frame
  take_frame-none f r e = let h = data_in_buffer r [] e in ground arith
