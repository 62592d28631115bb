-- ===== src/Bundled/Login/Negotiation.antt =====
-- What `amqp_login_inner` makes of the two sides' limits.
use pg_amqp.Base.{ℕ, ◌≤◌, ◌≡◌, ◌⊎◌, refl, ◌==◌, ◌&&◌, chosen_by, arith}
use pg_amqp.Events.{Bytes}
use pg_amqp.Bundled.Buffer.{Memory}
use pg_amqp.Bundled.Pool
use pg_amqp.Bundled.Frame.{Result, ok, fail, Codec, Writer, Out}
use pg_amqp.Bundled.Publish.{amqp_send_method}
use pg_amqp.Bundled.Lifecycle.{
  ConnectionState, Ending, done, no_memory, aborted, amqp_tune_connection, amqp_release_buffers,
}
use pg_amqp.Bundled.Input.{Decoder}
use pg_amqp.Bundled.Receive.{Receiver}
use pg_amqp.Bundled.Login.{
  Methods, Peer, Stage, passed, ended, negotiate, on_state, send_checked, set_heartbeat,
  check_version, tune, amqp_login_inner, amqp_send_header, amqp_simple_wait_method, sasl_response,
  stopped, eprototype, bind, land, with_out,
}

-- Neither above the server's limit, where 0 is none, nor above ours.
abbrev pub Within : ℕ → ℕ → ℕ → Type 0
Within server ours n = (n ≤ ours) × ((server ≡ 0) ⊎ (n ≤ server))

-- The limits of a connection keep to both sides' limits; with no limit of ours on the number of
-- channels, that is the server's.
abbrev pub Agreed : ℕ × ℕ × ℕ → ℕ × ℕ × ℕ → ConnectionState → Type 0
Agreed (a, b, c) (x, y, z) s =
    (((x ≡ 0) × (s.channel_max ≡ a)) ⊎ Within a x s.channel_max)
    × Within b y s.frame_max
    × Within c z s.heartbeat

-- The three limits of a connection.
abbrev pub Limits : ℕ × ℕ × ℕ → ConnectionState → Type 0
Limits (channels, frame, beat) s =
    (s.channel_max ≡ channels) × (s.frame_max ≡ frame) × (s.heartbeat ≡ beat)

abbrev pub IfPassed :
    {A : Type 0} → (ConnectionState → Type 0) → {M P : Type 0} → Stage A × Peer M P → Type 0
IfPassed Q (passed a, p) = Q p.state
IfPassed Q (ended s, p) = Unit

negotiate-Agreed :
    (server ours : ℕ × ℕ × ℕ) (s : ConnectionState)
    → Limits (negotiate server ours) s
    → Agreed server ours s
unfolding negotiate
negotiate-Agreed (a, b, c) (x, y, z) s h = ground arith

module _ {M P : Type 0} where
  bind-IfPassed :
      {A B : Type 0} (Q R : ConnectionState → Type 0) (r : Stage A × Peer M P)
      (g : A → Peer M P → Stage B × Peer M P)
      → IfPassed Q r
      → ((a : A) (p : Peer M P) → Q p.state → IfPassed R (g a p))
      → IfPassed R (bind r g)
  bind-IfPassed Q R (passed a, p) g h k = k a p h
  bind-IfPassed Q R (ended s, p) g h k = tt

  land-IfPassed :
      (Q : ConnectionState → Type 0) (p : Peer M P) (r : Ending × ConnectionState)
      → ((r.0 ≡ done) → Q r.1)
      → IfPassed Q (land p r)
  unfolding land
  land-IfPassed Q p (done, s) h = h refl
  land-IfPassed Q p (no_memory, s) h = tt
  land-IfPassed Q p (aborted, s) h = tt

  out-IfPassed :
      (Q : ConnectionState → Type 0) (p : Peer M P) (r : Result × Out)
      → Q p.state
      → IfPassed Q (with_out p r)
  out-IfPassed Q p (ok n, o) h = h
  out-IfPassed Q p (fail e, o) h = tt

  beat-IfPassed : (n : ℕ) (p : Peer M P) → IfPassed (λ s. Unit) (set_heartbeat {M = M} {P = P} n p)
  unfolding set_heartbeat
  beat-IfPassed n p = ground arith

tuned :
    (mem : Pool.Memory) (v : ℕ × ℕ × ℕ) (s : ConnectionState)
    → (amqp_tune_connection mem v.0 v.1 v.2 s).0 ≡ done
    → Limits v (amqp_tune_connection mem v.0 v.1 v.2 s).1
unfolding amqp_tune_connection
tuned mem v s e = ground arith

released : (v : ℕ × ℕ × ℕ) (s : ConnectionState) → Limits v s → Limits v (amqp_release_buffers s).1
unfolding amqp_release_buffers
released v s h = ground arith

-- Behind any stage.
any_then :
    {A B M P : Type 0} (R : ConnectionState → Type 0) (r : Stage A × Peer M P)
    (g : A → Peer M P → Stage B × Peer M P)
    → ((a : A) (p : Peer M P) → IfPassed R (g a p))
    → IfPassed R (bind r g)
any_then R (passed a, p) g k = k a p
any_then R (ended s, p) g k = tt

-- The server speaks 8-0, and the connection has the limits that come of the server's and ours, none
-- above either side's.
abbrev pub LoggedIn : {M : Type 0} → Methods M → ℕ → ℕ → ℕ → ConnectionState → Type 0
LoggedIn {M} ms channel_max frame_max heartbeat s =
    (start tuned : M) × (ms.version start ≡ (8, 0))
    × Limits (negotiate (ms.tuning tuned) (channel_max, frame_max, heartbeat)) s
    × Agreed (ms.tuning tuned) (channel_max, frame_max, heartbeat) s

module _ {M P : Type 0} (ms : Methods M) (mem : Pool.Memory) (dec : Decoder M P)
    (page : Receiver M P → Memory) (cd : Codec M P) (fn : Writer) where
  -- Behind the negotiation the connection has the limits that were agreed.
  tune-Limits :
      (v : ℕ × ℕ × ℕ) (p : Peer M P) → IfPassed (Limits v) (tune ms mem dec page cd fn v p)
  unfolding tune on_state send_checked
  tune-Limits v p =
      bind-IfPassed (λ s. Unit) (Limits v) (set_heartbeat v.2 p) _ (beat-IfPassed v.2 p)
        λ _ p1 _.
          bind-IfPassed (Limits v) (Limits v) (on_state (amqp_tune_connection mem v.0 v.1 v.2) p1) _
            (land-IfPassed (Limits v) p1 (amqp_tune_connection mem v.0 v.1 v.2 _) (tuned mem v _))
            λ _ p2 h2.
              bind-IfPassed (Limits v) (Limits v) _ _
                (out-IfPassed (Limits v) p2
                  (amqp_send_method cd fn p2.state.frame_max 0 655391 _ p2.out) h2)
                λ _ p3 h3.
                  land-IfPassed (Limits v) p3 (amqp_release_buffers _) (λ _. released v _ h3)

  weaken :
      (Q R : ConnectionState → Type 0) (r : Stage (Unit {0}) × Peer M P)
      → IfPassed Q r
      → ((s : ConnectionState) → Q s → R s)
      → IfPassed R r
  weaken Q R (passed a, p) h k = k p.state h
  weaken Q R (ended s, p) h k = tt

  check-IfPassed :
      (m : M) (p : Peer M P)
      → IfPassed (λ s. ms.version m ≡ (8, 0)) (check_version ms mem dec page cd fn m p)
  unfolding check_version
  check-IfPassed m p =
      let (major, minor) = ms.version m in
      chosen_by (IfPassed (λ s. (major, minor) ≡ (8, 0))) (major == 8 && minor == 0) (passed tt, p)
        (ended (stopped eprototype), p)
        (λ h.
          let a : major ≡ 8 = ground arith in let b : minor ≡ 0 = ground arith in λ i. (a i, b i))
        (λ h. tt)

  -- Where `amqp_login_inner` returns 1, the server has said that it speaks 8-0, and the connection has
  -- the limits that come of the server's and ours: none is above the server's, where that has one, nor
  -- above ours, but for the number of channels where ours is 0, which is then the server's.
  pub amqp_login_inner-LoggedIn :
      (channel_max frame_max heartbeat : ℕ) (username password : Bytes) (p : Peer M P)
      → IfPassed (LoggedIn ms channel_max frame_max heartbeat) (
          amqp_login_inner ms mem dec page cd fn channel_max frame_max heartbeat username password
            p)
  unfolding amqp_login_inner
  amqp_login_inner-LoggedIn channel_max frame_max heartbeat username password p =
      let R = LoggedIn ms channel_max frame_max heartbeat in
      any_then R (set_heartbeat heartbeat p) _ λ _ p1. any_then R (amqp_send_header p1) _ λ _ p2.
        any_then R (amqp_simple_wait_method ms mem dec page cd fn 0 655370 p2) _ λ start p3.
          bind-IfPassed (λ s. ms.version start ≡ (8, 0)) R
            (check_version ms mem dec page cd fn start p3) _ (check-IfPassed start p3)
            λ _ p4 v.
              any_then R
                (send_checked ms mem dec page cd fn 655371
                  (ms.start_ok (sasl_response username password)) p4)
                _
                λ _ p5. any_then R (on_state amqp_release_buffers p5) _ λ _ p6.
                  any_then R (amqp_simple_wait_method ms mem dec page cd fn 0 655390 p6) _ λ m p7.
                    let agreed = negotiate (ms.tuning m) (channel_max, frame_max, heartbeat) in
                    weaken (Limits agreed) R (tune ms mem dec page cd fn agreed p7)
                      (tune-Limits agreed p7)
                      λ s h. (
                        start,
                        m,
                        v,
                        h,
                        negotiate-Agreed (ms.tuning m) (channel_max, frame_max, heartbeat) s h,
                      )
