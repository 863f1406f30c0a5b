-- ===== src/Time.antt =====
-- artnet/time_util.c, and the time-outs of artnet/artnet.c in milliseconds.
-- A time is a uint64_t, so a difference is taken modulo 2^64 and read as an int64_t.
use libartnet.Base.{ℕ, ◌+◌, ◌-◌, ◌%◌, ◌^◌, Bool, ◌&&◌, ltb, leb}

abbrev pub merge_timeout_ms : ℕ
merge_timeout_ms = 10000

abbrev pub nodelist_timeout_ms : ℕ
nodelist_timeout_ms = 15000

abbrev pub dmx_failsafe_timeout_ms : ℕ
dmx_failsafe_timeout_ms = 800

abbrev pub firmware_timeout_ms : ℕ
firmware_timeout_ms = 30000

abbrev pub artsync_timeout_ms : ℕ
artsync_timeout_ms = 4000

abbrev pub dmx_keepalive_interval_ms : ℕ
dmx_keepalive_interval_ms = 1000

-- The bit pattern of `now - since`; it is a negative int64_t from 2^63 on.
abbrev pub diff : ℕ → ℕ → ℕ
diff now since = (now + 2 ^ 64 - since) % 2 ^ 64

-- `artnet_is_timeout`: `(int64_t)(now - since) >= timeout_ms`
unfoldable pub artnet_is_timeout : ℕ → ℕ → ℕ → Bool
artnet_is_timeout now since timeout_ms =
    ltb (diff now since) (2 ^ 63) && leb timeout_ms (diff now since)

-- `(int64_t)(now - since) > limit`
unfoldable pub is_older : ℕ → ℕ → ℕ → Bool
is_older now since limit = ltb (diff now since) (2 ^ 63) && ltb limit (diff now since)
