-- ===== src/Bundled/Publish/Fragments.antt =====
-- The frames of a published message: what stands on the wire after `amqp_basic_publish`.
use pg_amqp.Base.{
  ℕ, zero, suc, ◌+◌, ◌-◌, ◌≤◌, ◌<◌, ◌≡◌, refl, ap, sym, ◌∙◌, ◌%◌, ◌^◌, Option, some, or_else,
  length, take, drop, take-drop, length-take, length-drop, List, [], ◌∷◌, ◌++◌, All, arith,
}
use mathlib.Core.List.{append_assoc, append-nil}
use pg_amqp.Events.{Bytes}
use pg_amqp.Bundled.Buffer.{sub64}
use pg_amqp.Bundled.Frame.{
  Codec, Frame, method, properties, body, Result, ok, fail, Writer, Writes, Out, amqp_send_frame,
}
use pg_amqp.Bundled.Frame.Wire.{layout, joined, Accepts, Appends}
use pg_amqp.Bundled.Frame.Sent.{Carries, amqp_send_frame-layout}
use pg_amqp.Bundled.Publish.{
  BasicPublish, Ending, returned, basic_publish_method, basic_class, and_then, amqp_send_method,
  fragment_len, remaining_of, send_body, amqp_basic_publish,
}

-- The body frames of some fragments.
abbrev pub body_frames : ℕ → List Bytes → Bytes
body_frames channel [] = []
body_frames channel (f ∷ fs) = layout 3 channel f ++ body_frames channel fs

abbrev pub concat : List Bytes → Bytes
concat [] = []
concat (f ∷ fs) = f ++ concat fs

-- A fragment that is not empty and whose frame is no longer than the limit.
abbrev pub Fits : ℕ → Bytes → Type 0
Fits frame_max f = (0 < length f) × (length f + 8 ≤ frame_max)

-- The end of a publish: success, and these bytes appended to the wire.
abbrev pub Published : Writes → Bytes → Option (Ending × Out) → Type 0
Published ws bs r =
    (s : Out) × (r ≡ some (returned (ok 0), s)) × (joined s.writes ≡ joined ws ++ bs)

-- The fragments of a body.
abbrev pub Fragments : ℕ → Bytes → List Bytes → Type 0
Fragments frame_max bs fs = (concat fs ≡ bs) × All (Fits frame_max) fs

-- A fragment is not empty, is there, and fits a frame.
fragment_len-Fits :
    (frame_max : ℕ) (bs : Bytes)
    → 0 < length bs
    → length bs < 2 ^ 31
    → 20 ≤ frame_max
    → frame_max < 2 ^ 31
    → let n = fragment_len frame_max (remaining_of bs) in
      (0 < n) × (n ≤ length bs) × (n + 8 ≤ frame_max)
fragment_len-Fits frame_max bs some_left small room limit =
    let usable : sub64 frame_max 8 ≡ frame_max - 8 = omega arith in
    let whole : length bs % 2 ^ 32 ≡ length bs = omega arith in ground arith

module _ {M P : Type 0} (cd : Codec M P) (fn : Writer) (frame_max : ℕ) (takes : Accepts fn) where
  -- One more send that succeeds in front of a publish.
  and_then-Published :
      (ws : Writes) (bs cs : Bytes) (sent : Result × Out) (rest : Out → Option (Ending × Out))
      → Appends ws bs sent
      → Published sent.1.writes cs (rest sent.1)
      → Published ws (bs ++ cs) (and_then sent rest)
  unfolding and_then
  and_then-Published ws bs cs (ok n, s) rest (done, sent) (s', end, more) =
      (s', end, more ∙ ap (λ x. x ++ cs) sent ∙ append_assoc (joined ws) bs cs)
  and_then-Published ws bs cs (fail e, s) rest (done, sent) p = ground arith

  -- One round, where some of the body is left.
  send_body-round :
      (channel fuel : ℕ) (bs : Bytes) (s : Out)
      → 0 < length bs
      → length bs < 2 ^ 31
      → let n = fragment_len frame_max (remaining_of bs) in
        let f : Frame M P = record { channel = channel; payload = body (take n bs) } in
        send_body cd fn frame_max channel (suc fuel) bs s
        ≡ and_then
            (amqp_send_frame cd fn frame_max f s)
            (send_body cd fn frame_max channel fuel (drop n bs))
  unfolding send_body
  send_body-round channel fuel bs s some_left small =
      let whole : length bs % 2 ^ 32 ≡ length bs = omega arith in ground arith

  -- The loop sends what is left, in fragments.
  send_body-Published :
      (channel fuel : ℕ) (bs : Bytes) (s : Out)
      → length bs < fuel
      → length bs < 2 ^ 31
      → 20 ≤ frame_max
      → frame_max < 2 ^ 31
      → (fs : List Bytes) × Fragments frame_max bs fs
        × Published s.writes (body_frames channel fs) (send_body cd fn frame_max channel fuel bs s)
  unfolding send_body Carries
  send_body-Published channel zero bs s enough small room limit = elim enough [ ]
  send_body-Published channel (suc fuel) [] s enough small room limit =
      ([], (refl, tt), (s, refl, sym (append-nil (joined s.writes))))
  send_body-Published channel (suc fuel) (b ∷ bs) s enough small room limit =
      let rest = b ∷ bs in
      let n = fragment_len frame_max (remaining_of rest) in
      let f : Frame M P = record { channel = channel; payload = body (take n rest) } in
      let (pos, there, fits) = fragment_len-Fits frame_max rest (omega arith) small room limit in
      let size = length-take n rest there in
      let left = length-drop n rest there in
      let sent = amqp_send_frame-layout cd frame_max fn takes f s (take n rest) refl room limit in
      let s' = (amqp_send_frame cd fn frame_max f s).1 in
      let (fs, (all, ok_all), after) =
        send_body-Published channel fuel (drop n rest) s' (omega arith) (omega arith) room limit in
      let (s'', end, wire) =
        and_then-Published s.writes (layout 3 channel (take n rest)) (body_frames channel fs)
          (amqp_send_frame cd fn frame_max f s)
          (send_body cd fn frame_max channel fuel (drop n rest)) sent after in
      (
        take n rest ∷ fs,
        (ap (λ x. take n rest ++ x) all ∙ take-drop n rest, ((omega arith, omega arith), ok_all)),
        (s'', send_body-round channel fuel rest s (omega arith) small ∙ end, wire),
      )

  -- With a connection that takes all bytes, encoders that fit the method and the properties into the
  -- room they are given, a frame size of 20 to 2 ^ 31 - 1 and a body below 2 ^ 31 bytes,
  -- `amqp_basic_publish` returns 0, and the wire has the method, a header with the length of the body,
  -- and body frames: none is empty, each fits the frame size, together they are the body.
  pub amqp_basic_publish-Published :
      (request : BasicPublish → M) (default_properties : P) (channel : ℕ)
      → (m : BasicPublish) (props : Option P) (bs : Bytes) (s : Out) (pm ph : Bytes)
      → Carries cd frame_max (method basic_publish_method (request m)) pm
      → Carries cd frame_max
          (properties basic_class (length bs) (or_else props default_properties))
          ph
      → length bs < 2 ^ 31
      → 20 ≤ frame_max
      → frame_max < 2 ^ 31
      → (fs : List Bytes) × Fragments frame_max bs fs
        × Published s.writes
            (layout 1 channel pm ++ (layout 2 channel ph ++ body_frames channel fs))
            (amqp_basic_publish cd fn frame_max request default_properties channel m props bs s)
  unfolding amqp_basic_publish amqp_send_method
  amqp_basic_publish-Published request default_properties channel m props bs s pm ph cm ch small
        room limit =
      let asked : Frame M P = record {
        channel = channel;
        payload = method basic_publish_method (request m);
      } in
      let header : Frame M P = record {
        channel = channel;
        payload = properties basic_class (length bs) (or_else props default_properties);
      } in
      let bodies = send_body cd fn frame_max channel (suc (length bs)) bs in
      let first = amqp_send_frame-layout cd frame_max fn takes asked s pm cm room limit in
      let s1 = (amqp_send_frame cd fn frame_max asked s).1 in
      let second = amqp_send_frame-layout cd frame_max fn takes header s1 ph ch room limit in
      let s2 = (amqp_send_frame cd fn frame_max header s1).1 in
      let (fs, cut, third) =
        send_body-Published channel (suc (length bs)) bs s2 (omega arith) small room limit in
      let headed =
        and_then-Published s1.writes (layout 2 channel ph) (body_frames channel fs)
          (amqp_send_frame cd fn frame_max header s1) bodies second third in
      (
        fs,
        cut,
        and_then-Published s.writes (layout 1 channel pm)
            (layout 2 channel ph ++ body_frames channel fs)
            (amqp_send_frame cd fn frame_max asked s)
            (λ s'. and_then (amqp_send_frame cd fn frame_max header s') bodies) first headed,
      )
