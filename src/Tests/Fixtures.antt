-- ===== src/Tests/Fixtures.antt =====
-- Concrete worlds, brokers and arguments for src/pg_amqp.c.
use pg_amqp.Base.{arith, refl, true, false, none, some, [], ◌∷◌, codes, pos}
use pg_amqp.Events.{Status, Reply, ReplyType, Row, channel_close}
use pg_amqp.World.{World, timed_out}
use pg_amqp.Broker.{Ctx, new_state}
use pg_amqp.Broker.Invariant.{IsWf}
use pg_amqp.Publish.{PublishArgs, DeclareArgs}

abbrev pub normal_reply : Reply
normal_reply = record { reply_type = ReplyType.normal; library_error = 0 }

abbrev pub refusal : Reply
refusal = record { reply_type = ReplyType.server_exception; library_error = 0 }

abbrev pub a_row : Row
a_row = record {
  host = some "rabbit";
  port = some (pos 70000);
  vhost = none;
  user = none;
  pass = none;
  ssl = some true;
  ssl_verify = some false;
  ssl_cacert = none;
  ssl_cert = none;
  ssl_key = none;
}

-- Everything works, and no frame is pending.
abbrev pub fine : World
fine = record {
  pid = 5;
  time = λ _. 100;
  now_ms = λ _. 100000;
  spi_connect = λ _. true;
  spi_execute = λ _ _. some (a_row ∷ []);
  new_connection = λ _. some 7;
  tcp_socket_new = λ _ _. true;
  ssl_socket_new = λ _ _. true;
  socket_open_noblock = λ _ _. Status.ok;
  get_sockfd = λ _ _. some 3;
  login = λ _ _. normal_reply;
  get_rpc_reply = λ _ _. normal_reply;
  basic_publish = λ _ _ _ _. Status.ok;
  pending = λ _ _. record { frames = []; ending = timed_out };
}

-- The broker refuses every call that is answered.
abbrev pub refusing : World
refusing = record fine { get_rpc_reply = λ _ _. refusal }

-- The broker has closed the channel.
abbrev pub closing : World
closing = record fine {
  pending = λ _ _. record { frames = channel_close ∷ []; ending = timed_out };
}

-- A connected broker with two buffered messages.
abbrev pub busy : Ctx
busy = record {
  bs = record (new_state 1) { conn = some 7; sockfd = some 3; uncommitted = 2 };
  trace = [];
}

abbrev pub idle : Ctx
idle = record { bs = new_state 1; trace = [] }

pub busy-IsWf : IsWf busy.bs
busy-IsWf = record { closed = tt; cached = omega arith }

pub idle-IsWf : IsWf idle.bs
idle-IsWf = record { closed = (refl, refl, refl); cached = refl }

abbrev pub hello : PublishArgs
hello = record {
  exchange = none;
  routing_key = some (codes "foo");
  body = some (codes "message");
  delivery_mode = some (pos 2);
  content_type = none;
  reply_to = none;
  correlation_id = none;
  mandatory = none;
}

abbrev pub declaration : DeclareArgs
declaration = record {
  exchange = some (codes "orders");
  exchange_type = some (codes "direct");
  passive = none;
  durable = some true;
  auto_delete = none;
}
