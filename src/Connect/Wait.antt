-- ===== src/Connect/Wait.antt =====
-- The reconnect backoff: how long it lasts, that nothing is tried while it does, and what is after it.
use pg_amqp.Base.{
  ltb, Bool, ap, present, ◌∙◌, if◌then◌else◌, ◌==◌, false, inl, inr, Bool-cases, ℕ, zero, suc, ◌+◌,
  ◌%◌, ◌^◌, ◌≤◌, ◌<◌, ◌≡◌, ◌⊎◌, refl, none, arith,
}
use pg_amqp.Events.{time}
use pg_amqp.World.{World}
use pg_amqp.Broker.{Settings, Ctx, emit}
use pg_amqp.Connect.{backoff_window, backoff, in_backoff, reconnect, get_bs}

-- The window, case by case.
window_cases :
    (n : ℕ)
    → (4 ≤ n → backoff_window n ≡ 30)
      × (n ≡ 0 → backoff_window n ≡ 2)
      × (n ≡ 1 → backoff_window n ≡ 4)
      × (n ≡ 2 → backoff_window n ≡ 8)
      × (n ≡ 3 → backoff_window n ≡ 16)
unfolding backoff_window
window_cases zero = ground arith
window_cases (suc zero) = ground arith
window_cases (suc (suc zero)) = ground arith
window_cases (suc (suc (suc zero))) = ground arith
window_cases (suc (suc (suc (suc n)))) = ground arith

backoff_lem : (pid n : ℕ) → backoff pid n ≡ backoff_window n + pid % 3
unfolding backoff
backoff_lem pid n = refl

powers :
    (n : ℕ)
    → (n ≡ 0 → 2 ^ suc n ≡ 2)
      × (n ≡ 1 → 2 ^ suc n ≡ 4)
      × (n ≡ 2 → 2 ^ suc n ≡ 8)
      × (n ≡ 3 → 2 ^ suc n ≡ 16)
powers zero = ground arith
powers (suc zero) = ground arith
powers (suc (suc zero)) = ground arith
powers (suc (suc (suc zero))) = ground arith
powers (suc (suc (suc (suc n)))) = ground arith

-- The window against a plain description: it doubles with each failure, 2 seconds at first, until it
-- stays at 30.
backoff_window-doubles :
    (n : ℕ) → ((n < 4) × (backoff_window n ≡ 2 ^ suc n)) ⊎ ((4 ≤ n) × (backoff_window n ≡ 30))
backoff_window-doubles n = ground (arith, powers n, window_cases n)

-- The seconds to wait where `n` failures in a row are counted: 2, doubled with each of them, below four,
-- and 30 from the fourth on, with a jitter of 0 to 2 seconds that depends on the process alone.
abbrev pub wait_sec : ℕ → ℕ → ℕ
wait_sec pid n = (if ltb n 4 then 2 ^ suc n else 30) + pid % 3

backoff-wait_sec : (pid n : ℕ) → backoff pid n ≡ wait_sec pid n
backoff-wait_sec pid n = ground (arith, backoff_lem pid n, backoff_window-doubles n)

-- What the test of the window comes to, with the wait written out.
in_backoff-wait_sec :
    (w : World) (cfg : Settings) (c : Ctx)
    → 0 < c.bs.last_failed_connect
    → let now = w.time c.trace in
      in_backoff w cfg c ≡ (
        ltb now (c.bs.last_failed_connect + wait_sec w.pid c.bs.consecutive_failures),
        emit (time now) c,
      )
unfolding in_backoff
in_backoff-wait_sec w cfg c failed =
    let some_failure : c.bs.last_failed_connect == 0 ≡ false = ground arith in
    let seconds = backoff-wait_sec w.pid c.bs.consecutive_failures in rw (some_failure, seconds)

-- Without a connection the test of the window decides.
get_bs-in_backoff :
    (w : World) (cfg : Settings) (c : Ctx) (r : Bool × Ctx)
    → c.bs.conn ≡ none
    → in_backoff w cfg c ≡ r
    → get_bs w cfg c ≡ (if r.0 then r.1 else reconnect w cfg r.1)
unfolding get_bs
get_bs-in_backoff w cfg c r closed tested =
    let no_connection : present c.bs.conn ≡ false = ap present closed in
    ap
      (λ b.
        if b
        then c
        else (if (in_backoff w cfg c).0
            then (in_backoff w cfg c).1
            else reconnect w cfg (in_backoff w cfg c).1))
      no_connection
    ∙ ap (λ (q : Bool × Ctx). if q.0 then q.1 else reconnect w cfg q.1) tested

-- Without a connection and with a failure recorded, `local_amqp_get_bs` reads the clock; until the time
-- of the failure and the seconds to wait have passed it does nothing else, and from then on it goes
-- through the hosts. The wait is 2 seconds, doubled with each failure in a row, below four of them and
-- 30 seconds from the fourth on, with a jitter of 0 to 2 seconds that depends on the process alone.
pub get_bs-backoff :
    (w : World) (cfg : Settings) (c : Ctx)
    → c.bs.conn ≡ none
    → 0 < c.bs.last_failed_connect
    → let now = w.time c.trace in
      let until = c.bs.last_failed_connect + wait_sec w.pid c.bs.consecutive_failures in
      let told = emit (time now) c in
      ((now < until) × (get_bs w cfg c ≡ told))
      ⊎ ((until ≤ now) × (get_bs w cfg c ≡ reconnect w cfg told))
get_bs-backoff w cfg c closed failed =
    let now = w.time c.trace in
    let until = c.bs.last_failed_connect + wait_sec w.pid c.bs.consecutive_failures in
    let told = emit (time now) c in
    let tested =
      get_bs-in_backoff w cfg c (ltb now until, told) closed (in_backoff-wait_sec w cfg c failed) in
    elim (Bool-cases (ltb now until)) [
      | inl early ↦
          inl (ground arith, tested ∙ ap (λ b. if b then told else reconnect w cfg told) early)
      | inr late ↦
          inr (ground arith, tested ∙ ap (λ b. if b then told else reconnect w cfg told) late)
    ]
