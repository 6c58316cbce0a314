-- ===== src/ConfigApi/Timings.antt =====
-- server/config.go over raft/node.go: durations and the numbers of a request.
use raftly.Common.{ℕ, ◌*◌, ◌^◌, ◌<◌, ◌≡◌, arith}
use raftly.Config.{millisecond}
use raftly.Node.{Node}
use raftly.Lifecycle.{update_timings}
use raftly.ConfigApi.{get_timings, TimingsBody, duration, milliseconds, set_timings}

-- A positive `time.Duration`, as `time.NewTicker` and `rand.Int63n` need it.
abbrev pub IsPositive : ℕ → Type 0
IsPositive d = (0 < d) × (d < 2 ^ 63)

-- A number of milliseconds whose nanoseconds are a duration.
abbrev pub IsMillis : ℕ → Type 0
IsMillis ms = (0 < ms) × (ms * millisecond < 2 ^ 63)

pub duration-IsMillis :
    (ms : ℕ) → IsMillis ms → (duration ms ≡ ms * millisecond) × (milliseconds (duration ms) ≡ ms)
unfolding duration
duration-IsMillis ms h = ground arith

pub set_timings-IsMillis :
    (body : TimingsBody) (n : Node)
    → IsMillis body.election_timeout_ms
    → IsMillis body.heartbeat_ms
    → get_timings (set_timings body n)
      ≡ (duration body.election_timeout_ms, duration body.heartbeat_ms)
unfolding get_timings set_timings update_timings
set_timings-IsMillis body n et hb =
    let a = (duration-IsMillis body.election_timeout_ms et).0 in
    let b = (duration-IsMillis body.heartbeat_ms hb).0 in ground arith
