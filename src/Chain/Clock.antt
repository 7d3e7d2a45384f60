-- ===== src/Chain/Clock.antt =====
-- mod.rs, `set_time_base` and `advance_time`, with the clock that host functions read.
use near_mock.Base.{ℕ, ◌+◌, ◌*◌, ◌%◌, ◌≡◌, arith, some, Option-cases, inl, inr}
use near_mock.Host.{u64_mod}
use near_mock.Host.Context.{Env, mock_now_nanos}

unfoldable pub set_time_base : ℕ → Env → Env
set_time_base unix_secs env = record env { base_ts = some unix_secs }

-- An `i64` is its 64 bits.
unfoldable pub advance_time : ℕ → Env → Env
advance_time secs env = record env { advance_secs = (env.advance_secs + secs) % u64_mod }

-- The clock goes on by the seconds of an advance, in nanoseconds and modulo 2^64, whether or not its base
-- was pinned before.
pub advance_time-mock_now_nanos :
    (secs : ℕ) (env : Env)
    → mock_now_nanos (advance_time secs env) ≡ (mock_now_nanos env + secs * 1000000000) % u64_mod
unfolding advance_time
advance_time-mock_now_nanos secs env = elim (Option-cases env.base_ts) [
  | inl e ↦ rw (e, mock_now_nanos) (omega arith)
  | inr (t, e) ↦ rw (e, mock_now_nanos) (omega arith)
]
