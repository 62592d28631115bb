-- ===== src/Connect/Backoff.antt =====
-- src/pg_amqp.c, the reconnect backoff: how long `local_amqp_get_bs` waits after a failure.
use pg_amqp.Base.{ℕ, ◌+◌, ◌*◌, ◌%◌, ◌^◌, ltb, if◌then◌else◌}

-- AMQP_RECONNECT_BACKOFF_BASE_SEC and AMQP_RECONNECT_BACKOFF_CAP_SEC
abbrev pub backoff_base_sec : ℕ
backoff_base_sec = 2

abbrev pub backoff_cap_sec : ℕ
backoff_cap_sec = 30

-- The exponential part of the window, for a number of failures in a row.
unfoldable pub backoff_window : ℕ → ℕ
backoff_window failures =
    let shift = if ltb 4 failures then 4 else failures in
    let window = backoff_base_sec * 2 ^ shift in
    if ltb backoff_cap_sec window then backoff_cap_sec else window

-- The window with the jitter of the process.
unfoldable pub backoff : ℕ → ℕ → ℕ
unfolding backoff_window
backoff pid failures = backoff_window failures + pid % (backoff_base_sec + 1)
