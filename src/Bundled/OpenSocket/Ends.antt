-- ===== src/Bundled/OpenSocket/Ends.antt =====
-- The tallies of the system calls of `amqp_open_socket`, and how its steps may end.
use pg_amqp.Base.{
  ℕ, ◌+◌, ◌-◌, ◌∙◌, ◌≡◌, ap, Bool, true, false, List, [], ◌∷◌, ◌==◌, arith, if◌then◌else◌,
}
use pg_amqp.Bundled.Frame.{Result, ok, fail}
use pg_amqp.Bundled.OpenSocket.{
  Calls, getaddrinfo, freeaddrinfo, socket, set_flags, close, Dial, connected, refused,
}

abbrev pub remove : ℕ → List ℕ → List ℕ
remove k [] = []
remove k (x ∷ xs) = if k == x then xs else x ∷ remove k xs

-- The descriptors that were opened and not closed, the latest first.
abbrev pub open_fds : Calls → List ℕ
open_fds [] = []
open_fds (socket a (ok fd) ∷ cs) = fd ∷ open_fds cs
open_fds (close fd ∷ cs) = remove fd (open_fds cs)
open_fds (_ ∷ cs) = open_fds cs

-- The address lists that were returned and not freed.
abbrev pub held_lists : Calls → ℕ
held_lists [] = 0
held_lists (getaddrinfo true ∷ cs) = held_lists cs + 1
held_lists (freeaddrinfo ∷ cs) = held_lists cs - 1
held_lists (_ ∷ cs) = held_lists cs

-- The last mode that was set.
abbrev pub is_nonblocking : Calls → Bool
is_nonblocking [] = false
is_nonblocking (set_flags fd flags b (ok _) ∷ cs) = b
is_nonblocking (_ ∷ cs) = is_nonblocking cs

-- Calls that change neither.
abbrev pub Keeps : Calls → Calls → Type 0
Keeps cs cs' = (open_fds cs' ≡ open_fds cs) × (held_lists cs' ≡ held_lists cs)

-- What one address leaves: the new descriptor in front, or nothing new.
abbrev pub Dialed : Calls → Dial × Calls → Type 0
Dialed cs (connected fd, cs') = (open_fds cs' ≡ fd ∷ open_fds cs) × (held_lists cs' ≡ held_lists cs)
Dialed cs (refused e, cs') = Keeps cs cs'

-- What setting the mode leaves.
abbrev pub Moded : Bool → Calls → Result × Calls → Type 0
Moded b cs (fail e, cs') = Keeps cs cs'
Moded b cs (ok n, cs') = Keeps cs cs' × (is_nonblocking cs' ≡ b)

-- A close of the latest descriptor.
pub remove-first : (fd : ℕ) (l m : List ℕ) → l ≡ fd ∷ m → remove fd l ≡ m
remove-first fd l m h = ground arith

-- The end of the loop, with one list held before it: an error and nothing new open, or one new
-- descriptor in blocking mode.
abbrev pub Opened : Calls → Result × Calls → Type 0
Opened cs (fail e, cs') = (open_fds cs' ≡ open_fds cs) × (held_lists cs' + 1 ≡ held_lists cs)
Opened cs (ok fd, cs') =
    (open_fds cs' ≡ fd ∷ open_fds cs)
    × (held_lists cs' + 1 ≡ held_lists cs)
    × (is_nonblocking cs' ≡ false)

pub Keeps-Opened : (cs c0 : Calls) (r : Result × Calls) → Keeps cs c0 → Opened c0 r → Opened cs r
Keeps-Opened cs c0 (fail e, cs') (o, l) (p, q) = (p ∙ o, q ∙ l)
Keeps-Opened cs c0 (ok fd, cs') (o, l) (p, q, b) = (p ∙ ap (λ x. fd ∷ x) o, q ∙ l, b)

-- With no address left, `result` is an error.
abbrev pub Ends : List ℕ → Result → Type 0
Ends [] (ok n) = ⊥
Ends _ _ = Unit

pub failed : (addresses : List ℕ) (e : ℕ) → Ends addresses (fail e)
failed [] e = tt
failed (a ∷ rest) e = tt

-- How `amqp_open_socket` ends: an error and no descriptor more than before, or one new descriptor,
-- in blocking mode; the list of addresses is freed.
abbrev pub Socket : Calls → Result × Calls → Type 0
Socket cs (fail e, cs') = (open_fds cs' ≡ open_fds cs) × (held_lists cs' ≡ held_lists cs)
Socket cs (ok fd, cs') =
    (open_fds cs' ≡ fd ∷ open_fds cs)
    × (held_lists cs' ≡ held_lists cs)
    × (is_nonblocking cs' ≡ false)

pub Opened-Socket :
    (cs : Calls) (r : Result × Calls) → Opened (getaddrinfo true ∷ cs) r → Socket cs r
Opened-Socket cs (fail e, cs') (o, l) = (o, omega arith)
Opened-Socket cs (ok fd, cs') (o, l, b) = (o, omega arith, b)
