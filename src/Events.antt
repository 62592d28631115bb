-- ===== src/Events.antt =====
-- What src/pg_amqp.c exchanges with the world: the values it hands to rabbitmq-c, PostgreSQL and the
-- operating system, the answers it gets, and the log of all of these, the newest first. The answers
-- come from the parameter of World.antt; nothing here says what they are.
use pg_amqp.Base.{ℕ, String, Bool, Option, List, ℤ}

abbrev pub Bytes : Type 0
Bytes = List ℕ

-- `struct timeval`
pub record TimeVal : Type 0 where
  pub sec : ℕ
  pub usec : ℕ

-- `amqp_connection_state_t`, as the address that `amqp_new_connection` returned.
abbrev pub Conn : Type 0
Conn = ℕ

-- The library's status codes, as far as the code tells them apart: AMQP_STATUS_OK,
-- AMQP_STATUS_TIMEOUT and all others.
pub data Status : Type 0 where
  ok timeout : Status
  error : ℕ → Status

pub data ReplyType : Type 0 where
  no_reply normal library_exception server_exception : ReplyType

-- `amqp_rpc_reply_t`
pub record Reply : Type 0 where
  pub reply_type : ReplyType
  pub library_error : ℕ

-- `amqp_basic_return_t`
pub record Return : Type 0 where
  pub reply_code : ℕ
  pub reply_text : Bytes
  pub exchange : Bytes
  pub routing_key : Bytes

-- A frame that `amqp_simple_wait_frame_noblock` hands over: a method, or a frame of another type.
pub data Frame : Type 0 where
  basic_return : Return → Frame
  connection_blocked connection_unblocked channel_close connection_close : Frame
  other_method : ℕ → Frame
  other_type : ℕ → Frame

-- The properties of a message; a field is present where its bit of `_flags` is set.
pub record Properties : Type 0 where
  pub delivery_mode : Option ℤ
  pub content_type : Option Bytes
  pub reply_to : Option Bytes
  pub correlation_id : Option Bytes

-- The arguments of `amqp_basic_publish` behind the channel. `properties` is the pointer, or NULL.
pub record Message : Type 0 where
  pub exchange : Bytes
  pub routing_key : Bytes
  pub mandatory : Bool
  pub immediate : Bool
  pub properties : Option Properties
  pub body : Bytes

-- The arguments of `amqp_exchange_declare` behind the channel, without the empty table.
pub record Declaration : Type 0 where
  pub exchange : Bytes
  pub exchange_type : Bytes
  pub passive : Bool
  pub durable : Bool
  pub auto_delete : Bool
  pub internal : Bool

-- The arguments of `amqp_login_with_properties`; the client properties are those that
-- `local_amqp_login` builds, a table with the one capability connection.blocked.
pub record Login : Type 0 where
  pub vhost : String
  pub channel_max : ℕ
  pub frame_max : ℕ
  pub heartbeat : ℕ
  pub capabilities : List (String × Bool)
  pub user : String
  pub pass : String

-- A row of amqp.broker, in the order of the SELECT. An absent field is NULL.
pub record Row : Type 0 where
  pub host : Option String
  pub port : Option ℤ
  pub vhost : Option String
  pub user : Option String
  pub pass : Option String
  pub ssl : Option Bool
  pub ssl_verify : Option Bool
  pub ssl_cacert : Option String
  pub ssl_cert : Option String
  pub ssl_key : Option String

pub data SockOpt : Type 0 where
  rcvtimeo sndtimeo : TimeVal → SockOpt
  keepalive nodelay keepidle keepintvl keepcnt : ℕ → SockOpt

-- The WARNINGs, with the values that their texts show, the broker's id first where it is shown.
pub data Warning : Type 0 where
  unroutable : ℕ → Return → Warning
  blocked_publishers : ℕ → Warning
  discarding : ℕ → ℕ → Warning
  commit_failed rollback_failed : ℕ → ℕ → Reply → Warning
  savepoint_rolled_back : ℕ → ℕ → Warning
  invalid_port : ℕ → String → ℤ → Warning
  not_verified : ℕ → String → Warning
  unknown_broker : ℕ → Warning
  lookup_failed : Warning
  no_tls_socket no_tcp_socket connect_failed login_failed : ℕ → String → ℤ → Warning
  channel_open_failed tx_select_failed : ℕ → String → ℤ → Warning
  budget_exhausted : ℕ → ℕ → Warning
  trying_next_host : String → ℤ → Warning
  body_too_large : ℕ → ℕ → Warning
  blocking : ℕ → Warning
  ignored_delivery_mode : ℤ → Warning

-- A call with its arguments, the connection first, and what it returned. `fault` is no call: it marks
-- an access to memory that C leaves undefined.
pub data Event : Type 0 where
  fault : Event
  warn : Warning → Event
  time now_ms : ℕ → Event
  spi_connect : Bool → Event
  spi_execute : ℕ → Option (List Row) → Event
  spi_finish : Event
  new_connection : Option Conn → Event
  tcp_socket_new ssl_socket_new : Conn → Bool → Event
  ssl_set_versions : Conn → Event
  ssl_set_verify_peer ssl_set_verify_hostname : Conn → Bool → Event
  ssl_set_cacert : Conn → String → Event
  ssl_set_key : Conn → String → String → Event
  socket_open_noblock : Conn → String → ℤ → TimeVal → Status → Event
  get_sockfd : Conn → Option ℕ → Event
  setsockopt : ℕ → SockOpt → Event
  set_rpc_timeout : Conn → TimeVal → Event
  login : Conn → Login → Reply → Event
  channel_open tx_select tx_commit tx_rollback : Conn → ℕ → Event
  exchange_declare : Conn → ℕ → Declaration → Event
  get_rpc_reply : Conn → Reply → Event
  basic_publish : Conn → ℕ → Message → Status → Event
  wait_frame : Conn → Frame → Event
  wait_frame_end : Conn → Status → Event
  maybe_release_buffers : Conn → Event
  connection_close : Conn → Event
  destroy_connection : Conn → Event

abbrev pub Trace : Type 0
Trace = List Event
