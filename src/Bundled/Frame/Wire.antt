-- ===== src/Bundled/Frame/Wire.antt =====
-- What `amqp_send_frame` puts on the wire, against the layout of an AMQP frame: type, channel,
-- length, payload, end marker.
use pg_amqp.Base.{
  chosen_by, ltb, ℕ, ◌+◌, ◌≤◌, ◌≡◌, refl, ap, ◌∙◌, ◌/◌, ◌%◌, ◌^◌, true, false, [], ◌∷◌, ◌++◌,
  length, arith,
}
use mathlib.Core.List.{append_assoc}
use pg_amqp.Events.{Bytes}
use pg_amqp.Bundled.Buffer.{
  Memory, set, set_bytes, get_bytes, be16, be32, set_bytes-before, get_bytes-agree,
  get_bytes-set_bytes, get_bytes-add,
}
use pg_amqp.Bundled.Frame.{
  Assembly, Result, ok, Writer, Writes, Out, Assembled, assembled, close_frame, send_assembled,
  write, written, frame_end,
}

-- The layout of a frame.
abbrev pub layout : ℕ → ℕ → Bytes → Bytes
layout type channel payload =
    type ∷ be16 channel ++ be32 (length payload) ++ payload ++ frame_end ∷ []

-- The bytes of all writes in order.
abbrev pub joined : Writes → Bytes
joined [] = []
joined (bs ∷ ws) = joined ws ++ bs

-- A header, a payload and an end marker that are read one by one are read together.
parts :
    (f : Memory) (n : ℕ) (h p : Bytes) (e : ℕ)
    → get_bytes f 0 7 ≡ h
    → get_bytes f 7 n ≡ p
    → f (7 + n) ≡ e
    → get_bytes f 0 (n + 8) ≡ h ++ (p ++ e ∷ [])
unfolding get_bytes
parts f n h p e head mid last =
    let whole = get_bytes-add f 0 7 (n + 1) in
    let tail = get_bytes-add f 7 n 1 in
    let size : n + 8 ≡ 7 + (n + 1) = omega arith in
    let one : get_bytes f (7 + n) 1 ≡ e ∷ [] = ap (λ x. x ∷ []) last in cc

-- The length field and the end marker, at any four bytes of the length.
closed-layout :
    (m : Memory) (n a b c d : ℕ)
    → get_bytes (set (set_bytes m 3 (a ∷ b ∷ c ∷ d ∷ [])) (n + 7) frame_end) 0 (n + 8)
      ≡ m 0 ∷ m 1 ∷ m 2 ∷ a ∷ b ∷ c ∷ d ∷ (get_bytes m 7 n ++ frame_end ∷ [])
unfolding get_bytes set_bytes
closed-layout m n a b c d =
    let s = set_bytes m 3 (a ∷ b ∷ c ∷ d ∷ []) in
    let f = set s (n + 7) frame_end in
    let mid = get_bytes-agree f m 7 n (λ i lo hi. ground arith) in
    let head : get_bytes f 0 7 ≡ m 0 ∷ m 1 ∷ m 2 ∷ a ∷ b ∷ c ∷ d ∷ [] = ground arith in
    let last : f (7 + n) ≡ frame_end = ground arith in
    parts f n _ (get_bytes m 7 n) frame_end head mid last

-- A store behind what is read already.
pub get_bytes-behind :
    (m : Memory) (o a : ℕ) (bs : Bytes)
    → get_bytes (set_bytes m (o + a) bs) o (a + length bs) ≡ get_bytes m o a ++ bs
get_bytes-behind m o a bs =
    let s = set_bytes m (o + a) bs in
    let both = get_bytes-add s o a (length bs) in
    let front = get_bytes-agree s m o a (λ i lo hi. set_bytes-before m (o + a) bs i hi) in
    let back = get_bytes-set_bytes m (o + a) bs in cc

-- A function that takes all bytes of each call.
abbrev pub Accepts : Writer → Type 0
Accepts fn = (ws : Writes) (bs : Bytes) → fn ws bs ≡ ok (length bs)

-- A send that succeeds and appends these bytes to the wire.
abbrev pub Appends : Writes → Bytes → Result × Out → Type 0
Appends ws bs r = (r.0 ≡ ok 0) × (joined r.1.writes ≡ joined ws ++ bs)

-- The frame in the buffer, once its length and its end marker are stored.
buffer-layout :
    (m : Memory) (p : Bytes) (n type channel : ℕ)
    → m 0 ≡ type
    → get_bytes m 1 2 ≡ be16 channel
    → get_bytes m 7 n ≡ p
    → length p ≡ n
    → get_bytes (set (set_bytes m 3 (be32 n)) (n + 7) frame_end) 0 (n + 8) ≡ layout type channel p
unfolding get_bytes
buffer-layout m p n type channel h0 h1 hp hn =
    let all = closed-layout m n (n / 2 ^ 24 % 256) (n / 2 ^ 16 % 256) (n / 256 % 256) (n % 256) in
    let sized : layout type channel p ≡ type ∷ be16 channel ++ be32 n ++ p ++ frame_end ∷ [] =
      ap (λ k. type ∷ be16 channel ++ be32 k ++ p ++ frame_end ∷ []) hn in
    grind arith

-- The header that goes out alone where the payload is not in the buffer.
header-layout :
    (m : Memory) (n type channel : ℕ)
    → m 0 ≡ type
    → get_bytes m 1 2 ≡ be16 channel
    → get_bytes (set_bytes m 3 (be32 n)) 0 7 ≡ type ∷ be16 channel ++ be32 n
unfolding get_bytes set_bytes
header-layout m n type channel h0 h1 = cc

module _ (fn : Writer) (takes : Accepts fn) (len : ℕ) (ws : Writes) where
  whole-Appends :
      (a : Assembled)
      → a.separate_body ≡ false
      → Appends ws (get_bytes a.buffer 0 (a.payload_len + 8)) (send_assembled fn (assembled a) ws)
  unfolding send_assembled write
  whole-Appends a h = let t = takes ws (get_bytes a.buffer 0 (a.payload_len + 8)) in ground arith

  -- A payload in the buffer.
  pub closed-Appends :
      (a : Assembled) (p : Bytes) (type channel : ℕ)
      → a.separate_body ≡ false
      → a.payload_len + 8 ≤ len
      → a.buffer 0 ≡ type
      → get_bytes a.buffer 1 2 ≡ be16 channel
      → get_bytes a.buffer 7 a.payload_len ≡ p
      → length p ≡ a.payload_len
      → Appends ws (layout type channel p) (send_assembled fn (close_frame len (assembled a)) ws)
  unfolding close_frame
  closed-Appends a p type channel inside fits h0 h1 hp hn =
      let w = set (set_bytes a.buffer 3 (be32 a.payload_len)) (a.payload_len + 7) frame_end in
      let all = buffer-layout a.buffer p a.payload_len type channel h0 h1 hp hn in
      let sent = whole-Appends (record a { buffer = w }) inside in ground arith

  three-Appends :
      (h p e : Bytes) (w : Result × Writes)
      → w ≡ write fn h (write fn p (write fn e written)) ws
      → (w.0 ≡ ok 0) × (w.1 ≡ e ∷ p ∷ h ∷ ws)
  unfolding write
  three-Appends h p e w eq =
      let t1 = takes ws h in
      let t2 = takes (h ∷ ws) p in let t3 = takes (p ∷ h ∷ ws) e in ground arith

  -- A payload that is written from where it is.
  pub separate-Appends :
      (m : Memory) (p : Bytes) (type channel : ℕ)
      → m 0 ≡ type
      → get_bytes m 1 2 ≡ be16 channel
      → 7 ≤ len
      → Appends ws (layout type channel p) (
          send_assembled fn
            (close_frame len (
              assembled
                (record { buffer = m; encoded = p; payload_len = length p; separate_body = true })))
            ws)
  unfolding close_frame send_assembled
  separate-Appends m p type channel h0 h1 room =
      let h = get_bytes (set_bytes m 3 (be32 (length p))) 0 7 in
      let head = header-layout m (length p) type channel h0 h1 in
      let (done, sent) = three-Appends h p (frame_end ∷ []) _ refl in
      let a1 = append_assoc (joined ws ++ h) p (frame_end ∷ []) in
      let a2 = append_assoc (joined ws) h (p ++ frame_end ∷ []) in
      let assembly =
        assembled
          (record { buffer = m; encoded = p; payload_len = length p; separate_body = true }) in
      let sized = set_bytes m 3 (be32 (length p)) in
      let whole : Appends ws (layout type channel p) (
          send_assembled fn
            (assembled (record {
              buffer = sized;
              encoded = p;
              payload_len = length p;
              separate_body = true;
            }))
            ws) =
        (
          done,
          ap joined sent ∙ a1 ∙ a2 ∙ ap (λ x. joined ws ++ (x ++ (p ++ frame_end ∷ []))) head,
        ) in
      let q : Assembly → Type 0 =
        λ a. Appends ws (layout type channel p) (send_assembled fn a ws) in
      chosen_by q (ltb len 7) _ _ (λ short. absurd (ground arith)) (λ _. whole)
