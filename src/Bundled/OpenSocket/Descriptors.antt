-- ===== src/Bundled/OpenSocket/Descriptors.antt =====
-- What `amqp_open_socket` leaves behind: the descriptors that are open, the mode of the one it
-- returns, and the list of addresses.
use pg_amqp.Base.{
  chosen, ℕ, zero, suc, ◌+◌, present, ◌≢◌, ◌∙◌, ◌<◌, ◌≡◌, refl, ap, Bool, true, false, Option, none,
  some, List, [], ◌∷◌, ◌==◌, arith,
}
use pg_amqp.Events.{TimeVal}
use pg_amqp.Bundled.Frame.{Result, ok, fail}
use pg_amqp.Bundled.OpenSocket.{
  Calls, Sys, getaddrinfo, freeaddrinfo, socket, get_flags, set_flags, connect, poll, get_error,
  keepalive, nodelay, Dial, connected, refused, close_refused, set_timeouts, store_flags,
  set_nonblocking, connect_error, await_connect, connect_with, dial_nonblocking, dial_with, dial,
  finish, good, after_dial, dial_all, open_resolved, amqp_open_socket, einprogress, poll_ms,
  etimedout,
}
use pg_amqp.Bundled.OpenSocket.Ends.{
  open_fds, held_lists, Dialed, Moded, remove-first, Opened, Keeps-Opened, Ends, failed, Socket,
  Opened-Socket,
}

module _ (sys : Sys) where
  stored-Moded :
      (b : Bool) (fd flags : ℕ) (r : Result) (cs : Calls)
      → Moded b cs (r, set_flags fd flags b r ∷ cs)
  stored-Moded b fd flags (ok n) cs = ((refl, refl), refl)
  stored-Moded b fd flags (fail e) cs = (refl, refl)

  set_nonblocking-Moded :
      (b : Bool) (fd : ℕ) (r : Result) (cs : Calls)
      → Moded b cs (store_flags sys b fd r (get_flags fd r ∷ cs))
  unfolding store_flags
  set_nonblocking-Moded b fd (fail e) cs = (refl, refl)
  set_nonblocking-Moded b fd (ok flags) cs =
      let cs' = get_flags fd (ok flags) ∷ cs in
      stored-Moded b fd flags (sys.set_flags cs' fd flags b) cs'

  module _ (timeout : Option TimeVal) where
    -- From the socket on, with the descriptor in front of those of `cs`.
    connect_error-Dialed :
        (fd : ℕ) (e : Option ℕ) (cs cs' : Calls)
        → open_fds cs' ≡ fd ∷ open_fds cs
        → held_lists cs' ≡ held_lists cs
        → Dialed cs (close_refused fd (connect_error fd e, cs'))
    connect_error-Dialed fd none cs cs' h g = (h, g)
    connect_error-Dialed fd (some zero) cs cs' h g = (h, g)
    connect_error-Dialed fd (some (suc e)) cs cs' h g = (remove-first fd _ _ h, g)

    connect_with-Dialed :
        (fd : ℕ) (e : Option ℕ) (cs cs' : Calls)
        → open_fds cs' ≡ fd ∷ open_fds cs
        → held_lists cs' ≡ held_lists cs
        → Dialed cs (connect_with sys timeout fd e cs')
    unfolding connect_with await_connect
    connect_with-Dialed fd none cs cs' h g = (h, g)
    connect_with-Dialed fd (some e) cs cs' h g =
        let ready = sys.poll cs' fd (poll_ms timeout) in
        let polled = poll fd (poll_ms timeout) ready ∷ cs' in
        let err = sys.get_error polled fd in
        let waited = connect_error-Dialed fd err cs (get_error fd err ∷ polled) h g in
        chosen (λ d. Dialed cs (close_refused fd d)) (e == einprogress)
          (await_connect sys timeout fd cs') (refused e, cs')
          (chosen (λ d. Dialed cs (close_refused fd d)) ready
            (connect_error fd err, get_error fd err ∷ polled) (refused etimedout, polled) waited
            (remove-first fd _ _ h, g))
          (remove-first fd _ _ h, g)

    dial_nonblocking-Dialed :
        (a fd : ℕ) (cs : Calls) (r : Result × Calls) (c0 : Calls)
        → Moded true c0 r
        → open_fds c0 ≡ fd ∷ open_fds cs
        → held_lists c0 ≡ held_lists cs
        → Dialed cs (dial_nonblocking sys timeout a fd r)
    unfolding dial_nonblocking
    dial_nonblocking-Dialed a fd cs (fail e, cs') c0 (o, l) h g =
        (remove-first fd _ _ (o ∙ h), l ∙ g)
    dial_nonblocking-Dialed a fd cs (ok n, cs') c0 ((o, l), b) h g =
        let e = sys.connect cs' fd a in
        connect_with-Dialed fd e cs (connect fd a e ∷ cs') (o ∙ h) (l ∙ g)

    dial-Dialed :
        (a : ℕ) (r : Result) (cs : Calls) → Dialed cs (dial_with sys timeout a r (socket a r ∷ cs))
    unfolding dial_with set_nonblocking
    dial-Dialed a (fail e) cs = (refl, refl)
    dial-Dialed a (ok fd) cs =
        let c0 = socket a (ok fd) ∷ cs in
        dial_nonblocking-Dialed a fd cs (set_nonblocking sys true fd c0) c0
          (set_nonblocking-Moded true fd (sys.get_flags c0 fd) c0) refl refl

    -- `good` with the descriptor that was opened since `cs`, and one list of addresses held.
    finish-Opened :
        (fd : ℕ) (cs : Calls) (t : Option TimeVal) (r : Result × Calls) (c0 : Calls)
        → Moded false c0 r
        → open_fds c0 ≡ fd ∷ open_fds cs
        → held_lists c0 + 1 ≡ held_lists cs
        → Opened cs (finish t fd r)
    unfolding finish set_timeouts
    finish-Opened fd cs t (fail e, cs') c0 (o, l) h g =
        (remove-first fd _ _ (o ∙ h), ap (λ k. k + 1) l ∙ g)
    finish-Opened fd cs none (ok n, cs') c0 ((o, l), b) h g = (o ∙ h, ap (λ k. k + 1) l ∙ g, b)
    finish-Opened fd cs (some tv) (ok n, cs') c0 ((o, l), b) h g = (o ∙ h, ap (λ k. k + 1) l ∙ g, b)

    after_dial-Opened :
        (rest : Result → Calls → Result × Calls) (cs : Calls) (d : Dial × Calls)
        → 0 < held_lists cs
        → Dialed cs d
        → ((e : ℕ) (c0 : Calls) → 0 < held_lists c0 → Opened c0 (rest (fail e) c0))
        → Opened cs (after_dial sys timeout rest d)
    unfolding after_dial good set_nonblocking
    after_dial-Opened rest cs (connected fd, cs') held (o, l) next =
        let c0 = nodelay fd ∷ keepalive fd ∷ freeaddrinfo ∷ cs' in
        finish-Opened fd cs timeout (set_nonblocking sys false fd c0) c0
          (set_nonblocking-Moded false fd (sys.get_flags c0 fd) c0) o (omega arith)
    after_dial-Opened rest cs (refused e, cs') held (o, l) next =
        Keeps-Opened cs cs' (rest (fail e) cs') (o, l) (next e cs' (omega arith))

    dial_all-Opened :
        (addresses : List ℕ) (result : Result) (cs : Calls)
        → 0 < held_lists cs
        → Ends addresses result
        → Opened cs (dial_all sys timeout addresses result cs)
    unfolding dial_all dial
    dial_all-Opened [] (fail e) cs held end = (refl, omega arith)
    dial_all-Opened [] (ok n) cs held end = absurd end
    dial_all-Opened (a ∷ rest) result cs held end =
        let d = dial_with sys timeout a (sys.socket cs a) (socket a (sys.socket cs a) ∷ cs) in
        after_dial-Opened (dial_all sys timeout rest) cs d held (dial-Dialed a (sys.socket cs a) cs)
          (λ e c0 h. dial_all-Opened rest (fail e) c0 h (failed rest e))

    open_resolved-Socket :
        (found : Option (List ℕ)) (cs : Calls)
        → found ≢ some []
        → Socket cs (open_resolved sys timeout found (getaddrinfo (present found) ∷ cs))
    unfolding open_resolved
    open_resolved-Socket none cs h = (refl, refl)
    open_resolved-Socket (some []) cs h = absurd (h refl)
    open_resolved-Socket (some (a ∷ rest)) cs h =
        let c0 = getaddrinfo true ∷ cs in
        Opened-Socket cs (dial_all sys timeout (a ∷ rest) (ok 0) c0)
          (dial_all-Opened (a ∷ rest) (ok 0) c0 (omega arith) tt)

-- Where getaddrinfo succeeds with at least one address, as it is documented to, `amqp_open_socket`
-- leaks nothing: it fails with the descriptors that were open before, or returns one new descriptor
-- in blocking mode; the list of addresses is freed either way.
pub amqp_open_socket-Socket :
    (sys : Sys) (timeout : Option TimeVal)
    → ((cs : Calls) → sys.resolve cs ≢ some [])
    → (cs : Calls) → Socket cs (amqp_open_socket sys timeout cs)
unfolding amqp_open_socket
amqp_open_socket-Socket sys timeout some_address cs =
    open_resolved-Socket sys timeout (sys.resolve cs) cs (some_address cs)
