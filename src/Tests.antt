-- ===== src/Tests.antt =====
-- The fixtures, the tests of src/pg_amqp.c's model and the theorems at concrete inputs.
mod Fixtures
mod Runs
mod Witnesses
mod Bundled
mod Codec
mod Failover
mod Receive
mod Link
mod Properties
mod Outbox
mod Login
