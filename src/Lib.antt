-- ===== src/Lib.antt =====
-- Verification of pg_amqp, the PostgreSQL extension that publishes messages to an AMQP broker.
--
-- The program is src/pg_amqp.c. A PostgreSQL backend keeps a list of brokers, each with at most one
-- connection: channel 1 for amqp.autonomous_publish and amqp.exchange_declare, and channel 2, in AMQP
-- transaction mode, for amqp.publish, whose messages are flushed or dropped by callbacks when the
-- PostgreSQL transaction ends. rabbitmq-c, SPI, the clocks and the process id are not part of it.
--
-- Events: the values that the program hands to those and gets from them, and the log of all calls,
--   WARNINGs among them. World: a record of what they answer, each answer any function of the call
--   and of the log so far. Every theorem is for every such record, so for any behaviour of broker,
--   database, network and clock; none is assumed. The frames that a poll without waiting finds are a
--   finite list.
-- Readings: what the theorems read off a log.
-- Broker: struct broker_host, struct brokerstate, the settings (constant during a run), and the
--   context of a function that is handed one brokerstate. Broker.Invariant: when such a state is in
--   order.
-- Connection: local_amqp_set_timeout, local_amqp_disconnect_bs, local_amqp_drain_returns.
-- Hosts: local_amqp_load_hosts and local_amqp_free_hosts.
-- Connect: the backoff (Connect.Backoff), local_amqp_open_socket, local_amqp_login,
--   local_amqp_set_keepalive and the handshake (Connect.Handshake), and local_amqp_get_bs with its
--   loop over the hosts, which recurs on the tries left.
-- Publish: pg_amqp_publish_opt, whose jump to `redo` is a second pass that has no further one,
--   pg_amqp_exchange_declare and local_amqp_disconnect.
-- Xact: amqp_local_phase2, amqp_local_subxact and amqp_atexit, for one broker.
-- Session: HEAD_BS, local_amqp_get_a_bs, and any list of calls by PostgreSQL, one step each.
-- Timeouts: which timeout was set last, by amqp_set_rpc_timeout, before each blocking call.
-- Outbox: an abstract outbox of messages as a step relation on counts by the call, and the calls for one broker
--   (publish_opt, the callbacks, declarations, amqp.disconnect, the exit) as steps on its state.
-- Bundled: src/librabbitmq, the client library that the repository bundles and has extended. Since
--   0.5.0 the build links rabbitmq-c instead, so nothing above uses these files. Bundled.Buffer: the
--   outbound buffer and the macros E_8 to E_64 of amqp_private.h. Of amqp_connection.c:
--   Bundled.Frame, inner_send_frame and amqp_send_frame; Bundled.Input, amqp_handle_input;
--   Bundled.Lifecycle, amqp_tune_connection and the release of the pools, with
--   Bundled.Lifecycle.Creation for amqp_new_connection and amqp_destroy_connection. Bundled.Publish:
--   amqp_basic_publish of amqp_api.c; Bundled.Calls: its calls that wait for a reply. Of
--   amqp_socket.c: Bundled.OpenSocket, amqp_open_socket; Bundled.Tls, amqp_ssl_handshake and
--   amqp_ssl_shutdown; Bundled.Receive, wait_frame_inner, amqp_simple_wait_frame and amqp_simple_rpc
--   with its queue of frames; Bundled.Login, amqp_login, with the structs of its methods as
--   parameters. Bundled.Pool: amqp_mem.c without its copies of byte strings. Bundled.Encoder and
--   Bundled.Reader: the macros E_8 to E_BYTES and D_8 to D_BYTES of amqp_private.h as the codec uses
--   them. Bundled.Table: amqp_table.c. Bundled.Methods: amqp_encode_method and amqp_decode_method of
--   amqp_framing.c; each case of their switches is one entry of a list, by the method's number, of
--   the members that it writes or reads in order (one list for the encoder, one for the decoder, and
--   one for the structs of amqp_framing.h), and Bundled.Fields says what the statements for one
--   member do. Bundled.Properties: amqp_encode_properties and amqp_decode_properties, with such a
--   list for each class and the words of the flags. Bundled.Link: the codec as inner_send_frame and
--   amqp_handle_input call it, so that two ends of a connection can meet; a decoder that writes
--   through NULL counts as an error there. What the parts of this library take from outside it, and
--   the codec within Bundled.Frame and Bundled.Input, are parameters (the function that writes to
--   the socket, the success of an allocation, the sizes of structs, OpenSSL, the system calls): any
--   function of the calls before, with hypotheses where a theorem names them.
-- Tests: fixtures, runs, and the theorems at concrete inputs.
--
-- Every loop is over a list or counts down, but for those that have fuel: the loop over the body in
-- amqp_basic_publish has one round for each byte and one more; the loop over the entries in
-- amqp_decode_table as many rounds, nested tables included, as the buffer has bytes and one more;
-- the loop of wait_frame_inner over its input as many as the buffer has bytes and one more, as the
-- loop of amqp_decode_properties over the words of the flags has; amqp_encode_properties writes two
-- words of flags at most, as they have 32 bits; and the retries of amqp_simple_rpc as many as there
-- are bytes in the buffer and still to come and one more. What the socket will give is a finite
-- list, and a wait for more is a result of its own (blocked). Offsets and lengths
-- of type int in the bundled library are natural numbers too, which is right below 2^31: the theorems
-- that need it say so. Counters of type int in pg_amqp.c are
-- natural numbers, so their overflow is not modelled; a broker id is only compared, and stands for
-- its bit pattern. Memory management, the texts of WARNINGs (their values are kept), the
-- registration of settings and callbacks (_PG_init), and the SQL and PL/pgSQL files are not
-- modelled. The socket options are those of a system that has TCP_KEEPIDLE.
pub mod Base
pub mod Events
pub mod World
pub mod Readings
pub mod Broker
pub mod Connection
pub mod Hosts
pub mod Connect
pub mod Publish
pub mod Xact
pub mod Session
pub mod Timeouts
pub mod Outbox
pub mod Bundled
pub mod Tests
