-- ===== src/Proxy/Wait/Timing.antt =====
-- wait_for_server of src/proxy.rs and its intervals. Times are milliseconds since the wait began.
pub mod Bounds
use redoxide.Common.{
  ℕ, zero, suc, ◌+◌, ◌*◌, ◌≤◌, ◌<◌, ◌≡◌, sym, ◌∙◌, refl, true, false, Bytes, List, [], ◌∷◌, none,
  some, leb, ◌==◌, Bool-cases, inl, inr, arith, length, drop,
}
use redoxide.Outcome.{Error, Result, ok, err, panic, no_answer, client_disconnected}
use redoxide.Protocol.Packet.{RawPacket, read_packet}
use redoxide.Proxy.Wait.{
  Wait, Branch, probe, keepalive, changed, closed, read, lost, Round, Next, again, finished, bail,
  take_packet, on_packet, and_then, read_client, send_keepalive, disconnect, on_change, on_branch,
  wait_round, wait_loop, drain_answers, begin_wait, drain, wait_for_server_with,
}
use redoxide.State.{ServerState, stopped, starting, running, stopping, is_stopped, SharedState}
use redoxide.Status.{Json}
use redoxide.VersionCache.{CacheFormat, CacheDir}

pub record WaitTiming : Type 0 where
  pub probe_every : ℕ
  pub probe_timeout : ℕ
  pub keepalive_every : ℕ
  pub answer_timeout : ℕ

abbrev pub default_timing : WaitTiming
default_timing = record {
  probe_every = 2_000;
  probe_timeout = 5_000;
  keepalive_every = 10_000;
  answer_timeout = 5_000;
}

-- A round with the times at which it starts, with its look at the clock, and ends.
pub record Moment : Type 0 where
  pub starts : ℕ
  pub ends : ℕ
  pub taken : ℕ
  pub branch : Branch

abbrev pub round_of : ℕ → Moment → Round
round_of deadline m = record { late = leb deadline m.starts; taken = m.taken; branch = m.branch }

abbrev pub schedule : ℕ → List Moment → List Round
schedule deadline [] = []
schedule deadline (m ∷ ms) = round_of deadline m ∷ schedule deadline ms

-- When the n-th tick of an interval is due, the tick at its creation not counted.
abbrev pub due : ℕ → ℕ → ℕ
due every zero = 0
due every (suc n) = due every n + every

-- How many ticks of the keepalive interval were taken behind a round.
abbrev pub ticked : Branch → ℕ → ℕ
ticked (keepalive writes) n = suc n
ticked _ n = n

-- The rounds come one behind the other, and no tick of the keepalive interval is taken before it is
-- due.
abbrev pub Paced : WaitTiming → (now n : ℕ) → List Moment → Type 0
Paced timing now n [] = Unit
Paced timing now n (m ∷ ms) =
    (now ≤ m.starts)
    × (m.starts ≤ m.ends)
    × (due timing.keepalive_every (ticked m.branch n) ≤ m.ends)
    × Paced timing m.ends (ticked m.branch n) ms

-- `wait_for_server`, which takes the default intervals: its deadline is the configured one.
unfoldable pub wait_for_server :
    (Json → Bytes) → CacheFormat → CacheDir → List Moment → SharedState → Bytes → Next
wait_for_server to_string format dir moments shared stream =
    wait_for_server_with to_string format dir
      (schedule (shared.config.docker.startup_timeout_secs * 1_000) moments) shared stream
