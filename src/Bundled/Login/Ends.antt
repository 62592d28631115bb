-- ===== src/Bundled/Login/Ends.antt =====
-- `amqp_login_inner` ends.
use pg_amqp.Bundled.Pool
use pg_amqp.Bundled.Input.Ready.{Ready}
use pg_amqp.Bundled.Receive.{Receiver, Waited, found, starving}
use pg_amqp.Bundled.Login.{Peer, Stage, passed, ended, unfinished}

-- A stage that does not run out of fuel, and leaves the connection ready for input if the next follows.
unfoldable pub Lasts : {A M P : Type 0} → Stage A × Peer M P → Type 0
Lasts (passed a, p) = Ready p.receiver.inbound
Lasts (ended unfinished, p) = ⊥
Lasts (ended _, p) = Unit

abbrev WaitReady : {M P : Type 0} → Waited M P × Receiver M P → Type 0
WaitReady (found f, r) = Ready r.inbound
WaitReady (starving, r) = ⊥
WaitReady (_, r) = Unit
