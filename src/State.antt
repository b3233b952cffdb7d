-- ===== src/State.antt =====
-- src/state.rs: the state that all connections share, and the operations on it. Each operation is
-- a function on the whole state; the idle timers that were spawned are part of it.
pub mod Timers
pub mod Memory
pub mod Work
pub mod Cuts
use redoxide.Common.{
  ℕ, zero, suc, ◌+◌, ◌-◌, ◌%◌, ◌^◌, ◌<◌, Bool, true, false, not, ◌&&◌, ◌||◌, Bytes, List, [], ◌∷◌,
  Option, none, some, ltb, ◌==◌, if◌then◌else◌,
}
use redoxide.Common.Family.{assign}
use redoxide.Config.{Config}
use redoxide.Config.Text.{same_text}
use redoxide.Outcome.{Result, ok, err, panic}
use redoxide.VersionCache
use redoxide.VersionCache.{VersionCache, CacheFormat, CacheDir}
use mathlib.Core.Option
use mathlib.Core.Option.{get_or}

pub data ServerState : Type 0 where
  stopped starting running stopping : ServerState

abbrev pub is_stopped : ServerState → Bool
is_stopped stopped = true
is_stopped _ = false

abbrev pub is_running_state : ServerState → Bool
is_running_state running = true
is_running_state _ = false

abbrev pub is_stopping : ServerState → Bool
is_stopping stopping = true
is_stopping _ = false

-- Where a task spawned by `schedule_idle_shutdown` stands. An abort takes effect where the task
-- awaits: in its sleep, in `docker.stop`, or, for a task that just found nobody connected, at the
-- `docker.stop` that it reaches next.
pub data Timer : Type 0 where
  sleeping : Timer
  awake : Timer
  doomed : Timer
  in_stop : Timer
  over : Timer

-- `JoinHandle::abort`
abbrev pub aborted : Timer → Timer
aborted sleeping = over
aborted awake = doomed
aborted doomed = doomed
aborted in_stop = over
aborted over = over

-- `SharedState`, with the tasks that its handles name: a handle is the number of its task, and
-- tasks are numbered in the order in which they are spawned.
pub record SharedState : Type 0 where
  pub config : Config
  pub server : ServerState
  pub player_count : ℕ
  pub idle_timer : Option ℕ
  pub detected_protocol : ℕ
  pub detected_version : Option Bytes
  pub tasks : ℕ → Timer
  pub spawned : ℕ
  -- the contents of the version cache
  pub cache_file : Option Bytes

unfoldable pub new : CacheFormat → Config → Option Bytes → SharedState
new format config file =
    let cached = VersionCache.load format file in
    record {
      config = config;
      server = stopped;
      player_count = 0;
      idle_timer = none;
      detected_protocol =
          get_or (Option.map (λ c. c.protocol) cached) config.status.protocol_version;
      detected_version = Option.map (λ c. c.version) cached;
      tasks = λ _. over;
      spawned = 0;
      cache_file = file;
    }

abbrev pub set_state : ServerState → SharedState → SharedState
set_state x s = record s { server = x }

-- `usize` arithmetic: `fetch_add` wraps.
pub add_player : SharedState → SharedState × ℕ
add_player s = (record s { player_count = (s.player_count + 1) % 2 ^ 64 }, s.player_count + 1)

-- The update saturates, and so does the result, which is computed from the old count.
pub remove_player : SharedState → SharedState × ℕ
remove_player s = (record s { player_count = s.player_count - 1 }, s.player_count - 1)

abort_timer : Option ℕ → (ℕ → Timer) → ℕ → Timer
abort_timer none tasks = tasks
abort_timer (some i) tasks = assign tasks i (aborted (tasks i))

-- `idle_timer.lock().await.take()`, and the abort of what was there.
unfoldable pub take_timer : SharedState → SharedState
unfolding abort_timer
take_timer s = record s { idle_timer = none; tasks = abort_timer s.idle_timer s.tasks }

unfoldable pub cancel_idle_shutdown : SharedState → SharedState
unfolding take_timer abort_timer
cancel_idle_shutdown s = if is_stopping s.server then s else take_timer s

-- The task sleeps first; `Timers` has its later steps.
unfoldable pub schedule_idle_shutdown : SharedState → SharedState
unfolding take_timer abort_timer
schedule_idle_shutdown s =
    let t = take_timer s in
    record t {
      idle_timer = some t.spawned;
      tasks = assign t.tasks t.spawned sleeping;
      spawned = t.spawned + 1;
    }

unfoldable pub adopt_running : SharedState → SharedState
adopt_running s =
    if is_stopped s.server
    then (if s.player_count == 0
        then schedule_idle_shutdown (set_state running s)
        else set_state running s)
    else s

unfoldable pub begin_session : SharedState → SharedState
unfolding add_player
begin_session s = (add_player s).0

-- `SessionGuard::drop`: the state, and whether it spawned a task that calls
-- `schedule_idle_shutdown`.
unfoldable pub drop_session : SharedState → SharedState × Bool
unfolding remove_player
drop_session s = let (s', remaining) = remove_player s in (s', remaining == 0)

unfoldable pub protocol_version : SharedState → ℕ
protocol_version s = s.detected_protocol

unfoldable pub version_name : SharedState → Bytes
version_name s = get_or s.detected_version s.config.status.version_name

-- The task of `schedule_idle_shutdown`, number `i`: it wakes, and goes on only if nobody is
-- connected.
unfoldable pub wake_timer : ℕ → SharedState → SharedState
wake_timer i s = record s {
  tasks = assign s.tasks i (if ltb 0 s.player_count then over else awake);
}

-- It publishes that the stop is in flight, and enters `docker.stop`, where an abort that came
-- meanwhile ends it.
entered_stop : Timer → Timer
entered_stop doomed = over
entered_stop _ = in_stop

unfoldable pub mark_stopping : ℕ → SharedState → SharedState
unfolding entered_stop
mark_stopping i s = record s {
  server = stopping;
  tasks = assign s.tasks i (entered_stop (s.tasks i));
}

-- The state behind `docker.stop`. A panic ends the task where it stands.
abbrev pub after_stop : Result (Unit {0}) → ServerState → ServerState
after_stop (ok u) x = stopped
after_stop (err e) x = running
after_stop panic x = x

unfoldable pub finish_stop : ℕ → Result (Unit {0}) → SharedState → SharedState
finish_stop i outcome s = record s {
  server = after_stop outcome s.server;
  tasks = assign s.tasks i over;
}

-- A step of the task of an idle timer, by its number; it is none where the task is not there.
pub data TimerStep : Type 0 where
  wakes : ℕ → TimerStep
  marks : ℕ → TimerStep
  ends : ℕ → Result (Unit {0}) → TimerStep

unfoldable pub timer_step : SharedState → TimerStep → SharedState
unfolding wake_timer mark_stopping finish_stop
timer_step s (wakes i) = elim (s.tasks i) [ sleeping ↦ wake_timer i s | _ ↦ s ]
timer_step s (marks i) = elim (s.tasks i) [
  | awake ↦ mark_stopping i s
  | doomed ↦ mark_stopping i s
  | _ ↦ s
]
timer_step s (ends i outcome) = elim (s.tasks i) [ in_stop ↦ finish_stop i outcome s | _ ↦ s ]

-- What the timers do while another task waits.
unfoldable pub timer_steps : List TimerStep → SharedState → SharedState
timer_steps [] s = s
timer_steps (x ∷ xs) s = timer_steps xs (timer_step s x)

-- Is this the version that is known already?
unfoldable pub known : ℕ → Bytes → SharedState → Bool
known protocol version s =
    s.detected_protocol == protocol
    && elim s.detected_version [ none ↦ false | some v ↦ same_text v version ]

unfoldable pub update_version_info : CacheFormat → CacheDir → ℕ → Bytes → SharedState → SharedState
unfolding known
update_version_info format dir protocol version s = record s {
  detected_protocol = protocol;
  detected_version = some version;
  cache_file =
      if known protocol version s
      then s.cache_file
      else VersionCache.save format dir s.cache_file protocol version;
}
