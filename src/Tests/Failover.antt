-- ===== src/Tests/Failover.antt =====
-- The failover loop at concrete hosts: the first two refuse, the third accepts.
use pg_amqp.Base.{arith, ◌≡◌, refl, true, false, none, some, [], ◌∷◌, pos}
use pg_amqp.World.{World}
use pg_amqp.Broker.{Host, Ctx, new_state, defaults}
use pg_amqp.Broker.Invariant.{IsWf}
use pg_amqp.Connect.{get_bs, backoff}
use pg_amqp.Connect.Failover.{Accepts, get_bs-Connects}
use pg_amqp.Base.{inr, present}
use pg_amqp.Tests.Fixtures.{fine}

abbrev plain_host : Host
plain_host = record {
  host = "down";
  port = pos 5672;
  vhost = "/";
  user = "guest";
  pass = "guest";
  use_ssl = false;
  ssl_verify = false;
  ssl_cacert = none;
  ssl_cert = none;
  ssl_key = none;
}

abbrev tls_host : Host
tls_host = record plain_host { host = "up"; use_ssl = true }

-- No TCP socket can be made.
abbrev only_tls : World
only_tls = record fine { tcp_socket_new = λ _ _. false }

-- The host at index 0 was the last one that was tried.
abbrev three_hosts : Ctx
three_hosts = record {
  bs = record (new_state 1) {
    hosts = some (plain_host ∷ plain_host ∷ tls_host ∷ []);
    nhosts = 3;
    idx = 0;
  };
  trace = [];
}

tls_host-Accepts : Accepts only_tls defaults tls_host
unfolding pg_amqp.Connect.handshake
tls_host-Accepts k c = refl

-- The last connect failed at 90, and the four seconds and the jitter after it have passed at 100.
abbrev after_failure : Ctx
after_failure = record three_hosts {
  bs = record (three_hosts.bs) { consecutive_failures = 1; last_failed_connect = 90 };
}

after_failure-IsWf : IsWf after_failure.bs
after_failure-IsWf = record {
  closed = (refl, refl, refl);
  cached = (refl, omega arith, (refl, (refl, (refl, tt))));
}

get_bs-Connects_example : present (get_bs only_tls defaults after_failure).bs.conn ≡ true
unfolding backoff
get_bs-Connects_example =
    get_bs-Connects only_tls defaults after_failure (plain_host ∷ plain_host ∷ tls_host ∷ []) 2
      tls_host after_failure-IsWf refl refl tls_host-Accepts (inr (omega arith)) refl (λ t. refl)
