-- ===== src/Bundled/OpenSocket.antt =====
-- src/librabbitmq/amqp_socket.c, `amqp_open_socket`: the addresses of a host are tried in turn with
-- a bounded wait. The operating system is a parameter: what each call comes to, by the calls before.
pub mod Ends
pub mod Descriptors
use pg_amqp.Base.{
  ℕ, zero, suc, ◌+◌, ◌*◌, ◌/◌, Bool, true, false, Option, none, some, List, [], ◌∷◌, ◌==◌,
  if◌then◌else◌, present,
}
use pg_amqp.Events.{TimeVal}
use pg_amqp.Bundled.Frame.{Result, ok, fail}

-- The calls, with what they came to where it matters. A descriptor's flags are `flags` with O_NONBLOCK
-- as the Boolean says.
pub data Call : Type 0 where
  getaddrinfo : Bool → Call
  freeaddrinfo : Call
  socket : ℕ → Result → Call
  get_flags : ℕ → Result → Call
  set_flags : ℕ → ℕ → Bool → Result → Call
  connect : ℕ → ℕ → Option ℕ → Call
  poll : ℕ → Option ℕ → Bool → Call
  get_error : ℕ → Option ℕ → Call
  keepalive nodelay close : ℕ → Call
  rcvtimeo sndtimeo : ℕ → TimeVal → Call

-- The latest call first.
abbrev pub Calls : Type 0
Calls = List Call

-- What the system answers. Addresses are numbers; `resolve` is absent where getaddrinfo fails;
-- `connect` is absent on success and errno otherwise; `poll` is whether it returns 1; `get_error` is
-- absent where getsockopt fails.
pub record Sys : Type 0 where
  pub resolve : Calls → Option (List ℕ)
  pub socket : Calls → ℕ → Result
  pub get_flags : Calls → ℕ → Result
  pub set_flags : Calls → ℕ → ℕ → Bool → Result
  pub connect : Calls → ℕ → ℕ → Option ℕ
  pub poll : Calls → ℕ → Option ℕ → Bool
  pub get_error : Calls → ℕ → Option ℕ

-- ENOENT, EINPROGRESS and ETIMEDOUT
abbrev pub enoent : ℕ
enoent = 2

abbrev pub einprogress : ℕ
einprogress = 115

abbrev pub etimedout : ℕ
etimedout = 110

-- What one address comes to: `goto good`, or `continue` with `result` set.
pub data Dial : Type 0 where
  connected : ℕ → Dial
  refused : ℕ → Dial

-- The timeout of the poll in milliseconds; -1 where there is none.
abbrev pub poll_ms : Option TimeVal → Option ℕ
poll_ms none = none
poll_ms (some tv) = some (tv.sec * 1000 + tv.usec / 1000)

-- `close(sockfd); sockfd = -1; continue;`
abbrev pub close_refused : ℕ → Dial × Calls → Dial × Calls
close_refused fd (connected k, cs) = (connected k, cs)
close_refused fd (refused e, cs) = (refused e, close fd ∷ cs)

-- The result of the connection attempt, by SO_ERROR.
abbrev pub connect_error : ℕ → Option ℕ → Dial
connect_error fd none = connected fd
connect_error fd (some zero) = connected fd
connect_error fd (some (suc e)) = refused (suc e)

-- SO_RCVTIMEO and SO_SNDTIMEO `if(timeout)`.
unfoldable pub set_timeouts : Option TimeVal → ℕ → Calls → Calls
set_timeouts none fd cs = cs
set_timeouts (some tv) fd cs = sndtimeo fd tv ∷ rcvtimeo fd tv ∷ cs

-- By what the two calls of fcntl behind `good` came to.
unfoldable pub finish : Option TimeVal → ℕ → Result × Calls → Result × Calls
unfolding set_timeouts
finish timeout fd (fail e, cs) = (fail e, close fd ∷ cs)
finish timeout fd (ok _, cs) = (ok fd, set_timeouts timeout fd cs)

module _ (sys : Sys) where
  -- The second call of fcntl, by what the first came to.
  unfoldable pub store_flags : Bool → ℕ → Result → Calls → Result × Calls
  store_flags b fd (fail e) cs = (fail e, cs)
  store_flags b fd (ok flags) cs =
      let r = sys.set_flags cs fd flags b in (r, set_flags fd flags b r ∷ cs)

  -- The two calls of fcntl that set or clear O_NONBLOCK.
  unfoldable pub set_nonblocking : Bool → ℕ → Calls → Result × Calls
  unfolding store_flags
  set_nonblocking b fd cs = let r = sys.get_flags cs fd in store_flags b fd r (get_flags fd r ∷ cs)

  module _ (timeout : Option TimeVal) where
    -- Within `if(errno == EINPROGRESS)`.
    unfoldable pub await_connect : ℕ → Calls → Dial × Calls
    await_connect fd cs =
        let ready = sys.poll cs fd (poll_ms timeout) in
        let polled = poll fd (poll_ms timeout) ready ∷ cs in
        let e = sys.get_error polled fd in
        if ready then (connect_error fd e, get_error fd e ∷ polled) else (refused etimedout, polled)

    -- By what connect came to.
    unfoldable pub connect_with : ℕ → Option ℕ → Calls → Dial × Calls
    unfolding await_connect
    connect_with fd none cs = (connected fd, cs)
    connect_with fd (some e) cs =
        close_refused fd (if e == einprogress then await_connect fd cs else (refused e, cs))

    -- By what the two calls of fcntl came to.
    unfoldable pub dial_nonblocking : ℕ → ℕ → Result × Calls → Dial × Calls
    unfolding connect_with
    dial_nonblocking a fd (fail e, cs) = (refused e, close fd ∷ cs)
    dial_nonblocking a fd (ok _, cs) =
        let r = sys.connect cs fd a in connect_with fd r (connect fd a r ∷ cs)

    -- By what socket came to.
    unfoldable pub dial_with : ℕ → Result → Calls → Dial × Calls
    unfolding dial_nonblocking set_nonblocking
    dial_with a (fail e) cs = (refused e, cs)
    dial_with a (ok fd) cs = dial_nonblocking a fd (set_nonblocking true fd cs)

    -- The body of the loop over the addresses.
    unfoldable pub dial : ℕ → Calls → Dial × Calls
    unfolding dial_with
    dial a cs = let r = sys.socket cs a in dial_with a r (socket a r ∷ cs)

    -- From the label `good` on.
    unfoldable pub good : ℕ → Calls → Result × Calls
    unfolding finish set_nonblocking
    good fd cs =
        finish timeout fd (set_nonblocking false fd (nodelay fd ∷ keepalive fd ∷ freeaddrinfo ∷ cs))

    -- What follows an address: `good`, or the rest of the loop.
    unfoldable pub after_dial : (Result → Calls → Result × Calls) → Dial × Calls → Result × Calls
    unfolding good
    after_dial rest (connected fd, cs) = good fd cs
    after_dial rest (refused e, cs) = rest (fail e) cs

    -- The loop over the addresses, with `result` as it stands, and what follows it.
    unfoldable pub dial_all : List ℕ → Result → Calls → Result × Calls
    unfolding dial after_dial
    dial_all [] result cs = (result, freeaddrinfo ∷ cs)
    dial_all (a ∷ rest) result cs = after_dial (dial_all rest) (dial a cs)

    -- By what getaddrinfo came to.
    unfoldable pub open_resolved : Option (List ℕ) → Calls → Result × Calls
    unfolding dial_all
    open_resolved none cs = (fail enoent, cs)
    open_resolved (some addresses) cs = dial_all addresses (ok 0) cs

    -- `amqp_open_socket`
    unfoldable pub amqp_open_socket : Calls → Result × Calls
    unfolding open_resolved
    amqp_open_socket cs =
        let found = sys.resolve cs in open_resolved found (getaddrinfo (present found) ∷ cs)
