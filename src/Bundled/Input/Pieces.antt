-- ===== src/Bundled/Input/Pieces.antt =====
-- One frame that arrives in pieces: each call of `amqp_handle_input` takes its piece, and the one with the
-- last byte returns the frame.
use pg_amqp.Base.{
  ℕ, ◌+◌, ◌^◌, ◌≤◌, ◌<◌, ◌≡◌, ◌≢◌, inl, inr, refl, ap, ◌∙◌, sym, [], ◌∷◌, ◌++◌, length,
  length-append, append-split, lt-cases, arith,
}
use mathlib.Core.Path.{subst}
use mathlib.Core.List.{append_assoc}
use pg_amqp.Events.{Bytes}
use pg_amqp.Bundled.Buffer.{Memory, set_bytes}
use pg_amqp.Bundled.Encoder.Stored.{Holds}
use pg_amqp.Bundled.Frame.{frame_end}
use pg_amqp.Bundled.Input.{
  idle, waiting_for_header, waiting_for_body, Inbound, Decoder, Received, nothing, consumed,
  decode_frame, size_frame, read_rest, read_header, amqp_handle_input,
}
use pg_amqp.Bundled.Input.Collected.{Idle, Arrived, collect-whole, collect-short, size_frame-body}
use pg_amqp.Bundled.Input.Partial.{
  Holding, Holding-more, Takes, handled-phase, by_phase, front, back, InHeader, InBody, Partial,
  Returns,
}
use pg_amqp.Bundled.Input.Body.{front-read, body-short, body-whole}

module _ {M P : Type 0} (dec : Decoder M P) (type channel : ℕ) (p : Bytes) (capacity : ℕ)
    (f : Received M P) (no_protocol : type ≢ 65) (few : channel < 2 ^ 16)
    (room : length p + 8 ≤ capacity) (small : length p + 8 < 2 ^ 31)
    (decodes : (i : Inbound)
      → Arrived i type channel p
      → i.buffer_len ≡ capacity
      → decode_frame dec i ≡ consumed 0 f) where
  header-short :
      (xs c : Bytes) (i : Inbound)
      → InHeader capacity xs i
      → length xs + length c < 7
      → Takes (length c) (InHeader capacity (xs ++ c)) (read_header dec c i)
  unfolding read_header
  header-short xs c i (h, ph, target) short =
      let (r, at, held) = h in
      let i' = record i { buffer = set_bytes i.buffer i.offset c; offset = i.offset + length c } in
      (
        i',
        collect-short (λ t rest i'. read_rest dec t rest (size_frame i')) 0 c i (omega arith)
              (omega arith) (omega arith)
            ∙ ap (λ k. (consumed k nothing, i')) (omega arith),
        (Holding-more capacity xs c i h, ph, target),
      )

  -- With the last byte of the header the size of the frame is known.
  header-whole :
      (xs ms zs : Bytes) (i : Inbound)
      → InHeader capacity xs i
      → front type channel p ≡ xs ++ ms
      → (j : Inbound) × (read_header dec (ms ++ zs) i ≡ read_rest dec (length ms) zs j)
        × InBody capacity p (front type channel p) j
  unfolding read_header
  header-whole xs ms zs i (h, ph, target) whole =
      let (r, at, held) = h in
      let n0 = ap length whole in
      let n1 = length-append xs ms in
      let i' = record i {
        buffer = set_bytes i.buffer i.offset ms;
        offset = i.offset + length ms;
      } in
      let (r', at', held') =
        subst (λ ys. Holding capacity ys i') (sym whole) (Holding-more capacity xs ms i h) in
      let (a, b, c) =
        front-read dec type channel p capacity f few room small decodes i'.buffer held' in
      let other : i'.buffer 0 ≢ 65 = λ e. no_protocol (sym a ∙ e) in
      let j = record i' { target_size = length p + 8; phase = waiting_for_body } in
      (
        j,
        collect-whole (λ t rest i'. read_rest dec t rest (size_frame i')) 0 ms zs i (omega arith)
              (omega arith) (omega arith)
            ∙ ap (read_rest dec (0 + length ms) zs) (size_frame-body i' (length p) other c small)
            ∙ ap (λ k. read_rest dec k zs j) (omega arith),
        ((r', at', held'), refl, refl),
      )

  begun-short :
      (xs c ys : Bytes) (i : Inbound)
      → InHeader capacity xs i
      → length xs < 7
      → front type channel p ++ back p ≡ xs ++ (c ++ ys)
      → 0 < length ys
      → Takes (length c) (Partial capacity p (xs ++ c)) (read_header dec c i)
  begun-short xs c ys i h early whole some = elim (lt-cases (length xs + length c) 7) [
    | inl few_more ↦
        let (i', e, h') = header-short xs c i h few_more in
        let n = length-append xs c in (i', e, inr (inl (h', omega arith)))
    | inr enough ↦
        let (ms, e1, e2) =
          append-split xs (c ++ ys) (front type channel p) (back p) (sym whole) (omega arith) in
        let n0 = ap length e1 in
        let n1 = length-append xs ms in
        let (zs, e3, e4) = append-split ms (back p) c ys (sym e2) (omega arith) in
        let (j, e, b) = header-whole xs ms zs i h e1 in
        let n2 = ap length e3 in
        let n3 = length-append ms zs in
        let n4 = ap length e4 in
        let n5 = length-append zs ys in
        let n6 = length-append p (frame_end ∷ []) in
        let (q, e', b') =
          body-short dec type channel p capacity f few room small decodes (length ms)
            (front type channel p) zs j b (omega arith) in
        (
          q,
          ap (λ x. read_header dec x i) e3
              ∙ e
              ∙ e'
              ∙ ap (λ k. (consumed k nothing, q)) (omega arith),
          inr (
              inr (
                subst (λ x. InBody capacity p x q)
                  (ap (λ x. x ++ zs) e1 ∙ append_assoc xs ms zs ∙ ap (λ x. xs ++ x) (sym e3)) b')),
        )
  ]

  begun-whole :
      (xs ys more : Bytes) (i : Inbound)
      → InHeader capacity xs i
      → length xs < 7
      → front type channel p ++ back p ≡ xs ++ ys
      → Returns capacity f (length ys) (read_header dec (ys ++ more) i)
  begun-whole xs ys more i h early whole =
      let (ms, e1, e2) =
        append-split xs ys (front type channel p) (back p) (sym whole) (omega arith) in
      let (j, e, b) = header-whole xs ms (back p ++ more) i h e1 in
      let n1 = ap length e2 in
      let n2 = length-append ms (back p) in
      let n3 = length-append p (frame_end ∷ []) in
      let (q, e', idle_now, r) =
        body-whole dec type channel p capacity f few room small decodes (length ms)
          (front type channel p) (back p) more j b refl (omega arith) in
      (
        q,
        ap (λ zs. read_header dec (zs ++ more) i) e2
            ∙ ap (λ zs. read_header dec zs i) (append_assoc ms (back p) more)
            ∙ e
            ∙ e'
            ∙ ap (λ k. (consumed k f, q)) (omega arith),
        idle_now,
        r,
      )

  InHeader-start :
      (page : Memory) (i : Inbound)
      → Idle i
      → i.buffer_len ≡ capacity
      → InHeader capacity [] (record i { buffer = page; phase = waiting_for_header })
  unfolding Holds
  InHeader-start page i (ph, at, target) r = ((r, at, tt), refl, target)

  -- Some bytes of the frame, but not the last.
  pub handled-piece :
      (page : Memory) (xs c ys : Bytes) (i : Inbound)
      → Partial capacity p xs i
      → front type channel p ++ back p ≡ xs ++ (c ++ ys)
      → 0 < length c
      → 0 < length ys
      → Takes (length c) (Partial capacity p (xs ++ c)) (amqp_handle_input dec page c i)
  handled-piece page xs c ys i (inl (idle_now, r, none)) whole some left =
      let start = InHeader-start page i idle_now r in
      let (j, e, h) =
        begun-short [] c ys _ start (omega arith) (whole ∙ ap (λ x. x ++ (c ++ ys)) none) left in
      (
        j,
        handled-phase dec page c i idle some idle_now.0 ∙ by_phase dec page idle c i ∙ e,
        subst (λ x. Partial capacity p (x ++ c) j) (sym none) h,
      )
  handled-piece page xs c ys i (inr (inl (h, early))) whole some left =
      let (j, e, h') = begun-short xs c ys i h early whole left in
      (
        j,
        handled-phase dec page c i waiting_for_header some h.1
            ∙ by_phase dec page waiting_for_header c i
            ∙ e,
        h',
      )
  handled-piece page xs c ys i (inr (inr h)) whole some left =
      let n0 = ap length whole in
      let n1 = length-append xs (c ++ ys) in
      let n2 = length-append c ys in
      let n3 = length-append p (frame_end ∷ []) in
      let (j, e, h') =
        body-short dec type channel p capacity f few room small decodes 0 xs c i h (omega arith) in
      (
        j,
        handled-phase dec page c i waiting_for_body some h.1
            ∙ by_phase dec page waiting_for_body c i
            ∙ e
            ∙ ap (λ k. (consumed k nothing, j)) (omega arith),
        inr (inr h'),
      )

  -- The rest of the frame, with more behind.
  pub handled-rest :
      (page : Memory) (xs ys more : Bytes) (i : Inbound)
      → Partial capacity p xs i
      → front type channel p ++ back p ≡ xs ++ ys
      → 0 < length ys
      → Returns capacity f (length ys) (amqp_handle_input dec page (ys ++ more) i)
  handled-rest page xs ys more i (inl (idle_now, r, none)) whole some =
      let n = length-append ys more in
      let start = InHeader-start page i idle_now r in
      let (j, e, ended, r') =
        begun-whole [] ys more _ start (omega arith) (whole ∙ ap (λ x. x ++ ys) none) in
      (
        j,
        handled-phase dec page (ys ++ more) i idle (omega arith) idle_now.0
            ∙ by_phase dec page idle (ys ++ more) i
            ∙ e,
        ended,
        r',
      )
  handled-rest page xs ys more i (inr (inl (h, early))) whole some =
      let n = length-append ys more in
      let (j, e, ended, r') = begun-whole xs ys more i h early whole in
      (
        j,
        handled-phase dec page (ys ++ more) i waiting_for_header (omega arith) h.1
            ∙ by_phase dec page waiting_for_header (ys ++ more) i
            ∙ e,
        ended,
        r',
      )
  handled-rest page xs ys more i (inr (inr h)) whole some =
      let n = length-append ys more in
      let (j, e, ended, r') =
        body-whole dec type channel p capacity f few room small decodes 0 xs ys more i h whole
          some in
      (
        j,
        handled-phase dec page (ys ++ more) i waiting_for_body (omega arith) h.1
            ∙ by_phase dec page waiting_for_body (ys ++ more) i
            ∙ e
            ∙ ap (λ k. (consumed k f, j)) (omega arith),
        ended,
        r',
      )
