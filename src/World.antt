-- ===== src/World.antt =====
-- Everything that src/pg_amqp.c calls and does not define: rabbitmq-c, SPI, the clocks and the
-- process id. Each answer is any function of the call and of all that happened before it, so a
-- theorem for every `World` holds for every broker, database and clock.
use pg_amqp.Base.{ℕ, Bool, Option, List}
use pg_amqp.Events.{Trace, Conn, Status, Reply, Frame, Message, Row}

-- What ends a run of `amqp_simple_wait_frame_noblock`, which is never AMQP_STATUS_OK.
pub data WaitEnd : Type 0 where
  timed_out : WaitEnd
  failed : ℕ → WaitEnd

-- The frames that a non-blocking poll finds, and the status at which it finds none: the socket
-- holds finitely many.
pub record Pending : Type 0 where
  pub frames : List Frame
  pub ending : WaitEnd

pub record World : Type 0 where
  -- MyProcPid
  pub pid : ℕ
  pub time : Trace → ℕ
  pub now_ms : Trace → ℕ
  -- Whether SPI_connect succeeds, and the rows of SPI_execute, or none where it does not return
  -- SPI_OK_SELECT.
  pub spi_connect : Trace → Bool
  pub spi_execute : ℕ → Trace → Option (List Row)
  pub new_connection : Trace → Option Conn
  pub tcp_socket_new : Conn → Trace → Bool
  pub ssl_socket_new : Conn → Trace → Bool
  pub socket_open_noblock : Conn → Trace → Status
  -- none is a negative descriptor.
  pub get_sockfd : Conn → Trace → Option ℕ
  pub login : Conn → Trace → Reply
  pub get_rpc_reply : Conn → Trace → Reply
  pub basic_publish : Conn → ℕ → Message → Trace → Status
  pub pending : Conn → Trace → Pending
