-- ===== src/System.antt =====
-- The tasks of the proxy over the shared state of src/state.rs: the logins of src/proxy.rs
-- (`handle_login`), the idle timers, the started containers and the synchronisation of
-- src/main.rs. Any task may make the next step. A step is one access to shared memory, or the
-- accesses under the lock of the idle timer.
pub mod Invariant
pub mod Stuck
pub mod Atomic
pub mod Frees
pub mod Progress
pub mod Service
pub mod Attended
pub mod Idle
pub mod Starts
pub mod Sessions
pub mod Quiet
pub mod Undisturbed
use redoxide.Common.{
  ℕ, ◌+◌, ◌-◌, ◌<◌, ◌≡◌, ◌≢◌, ◌⊎◌, Bool, true, false, Option, none, some, ltb, ◌==◌, if◌then◌else◌,
}
use redoxide.Common.Family.{assign}
use redoxide.Outcome.{Result}
use redoxide.State.{
  ServerState, stopped, starting, running, stopping, is_stopping, sleeping, awake, doomed, in_stop,
  SharedState, set_state, take_timer, schedule_idle_shutdown, begin_session, drop_session,
  wake_timer, mark_stopping, finish_stop,
}

-- Where a login stands, from the packet that named its user on.
pub data Login : Type 0 where
  absent : Login  -- not there, or before `cancel_idle_shutdown`
  unchecked : Login  -- saw a state other than Stopping, and is about to take the timer
  cancelled : Login  -- behind `cancel_idle_shutdown`
  counted : Login  -- behind `begin_session`
  locked : Login  -- holds `start_mutex`, and waits while the state is Stopping
  resolved : Login  -- behind that wait
  claiming : Login  -- saw Stopped, and is about to set Starting
  admitted : Login  -- behind the mutex
  waiting : Login  -- in `wait_for_server`
  forwarding : Login  -- in `forward`

-- `handle_login` holds its session guard.
abbrev pub in_session : Login → Bool
in_session absent = false
in_session unchecked = false
in_session cancelled = false
in_session _ = true

-- It holds the guard of `start_mutex`.
abbrev pub in_mutex : Login → Bool
in_mutex locked = true
in_mutex resolved = true
in_mutex claiming = true
in_mutex _ = false

pub record System : Type 0 where
  pub shared : SharedState
  pub login : ℕ → Login
  -- who holds `start_mutex`
  pub start_mutex : Option ℕ
  -- tasks that will call `schedule_idle_shutdown`: spawned where the last session ended, or
  -- behind an adoption
  pub schedulers : ℕ
  -- tasks in `adopt_running`, behind its change of the state
  pub adopters : ℕ
  -- tasks in `docker.start`
  pub starts : ℕ
  -- whether the synchronisation found the container down while the state was Running
  pub found_down : Bool

abbrev pub move : System → ℕ → Login → System
move s i l = record s { login = assign s.login i l }

-- The end of a login that holds a session: the guard is dropped.
unfoldable pub leave : System → ℕ → System
leave s i =
    let (shared, last) = drop_session s.shared in
    record s {
      shared = shared;
      login = assign s.login i absent;
      schedulers = if last then s.schedulers + 1 else s.schedulers;
    }

-- The steps of login `i`.
pub data LoginStep (s : System) (i : ℕ) : Login → System → Type 0 where
  -- `cancel_idle_shutdown`
  leave_stop : is_stopping s.shared.server ≡ true → LoginStep s i absent (move s i cancelled)
  check_stop : is_stopping s.shared.server ≡ false → LoginStep s i absent (move s i unchecked)
  take :
      LoginStep s i unchecked
        (record s { shared = take_timer s.shared; login = assign s.login i cancelled })
  begin :
      LoginStep s i cancelled
        (record s { shared = begin_session s.shared; login = assign s.login i counted })
  lock :
      s.start_mutex ≡ none
      → LoginStep s i counted (record s { start_mutex = some i; login = assign s.login i locked })
  -- the loop ends when the state is not Stopping
  resolve : is_stopping s.shared.server ≡ false → LoginStep s i locked (move s i resolved)
  claim : s.shared.server ≡ stopped → LoginStep s i resolved (move s i claiming)
  pass :
      s.shared.server ≢ stopped
      → LoginStep s i resolved (record s { start_mutex = none; login = assign s.login i admitted })
  start : LoginStep s i claiming (record s {
    shared = set_state starting s.shared;
    start_mutex = none;
    login = assign s.login i admitted;
    starts = s.starts + 1;
  })
  -- the last look at the state
  forward_at_once : s.shared.server ≡ running → LoginStep s i admitted (move s i forwarding)
  wait : s.shared.server ≢ running → LoginStep s i admitted (move s i waiting)
  -- a status reply of the server
  probed :
      LoginStep s i waiting
        (record s { shared = set_state running s.shared; login = assign s.login i forwarding })
  seen_running : s.shared.server ≡ running → LoginStep s i waiting (move s i forwarding)
  give_up : LoginStep s i waiting (leave s i)
  disconnect : LoginStep s i forwarding (leave s i)

-- One step of the whole, with `n` logins.
pub data Step (n : ℕ) (s : System) : System → Type 0 where
  by_login : (i : ℕ) {t : System} → i < n → LoginStep s i (s.login i) t → Step n s t
  -- the task spawned by the last guard
  schedule :
      0 < s.schedulers
      → Step n s
          (record s { shared = schedule_idle_shutdown s.shared; schedulers = s.schedulers - 1 })
  -- an idle timer
  wake :
      (i : ℕ) → s.shared.tasks i ≡ sleeping → Step n s (record s { shared = wake_timer i s.shared })
  mark :
      (i : ℕ)
      → (s.shared.tasks i ≡ awake) ⊎ (s.shared.tasks i ≡ doomed)
      → Step n s (record s { shared = mark_stopping i s.shared })
  finish :
      (i : ℕ) (r : Result (Unit {0}))
      → s.shared.tasks i ≡ in_stop
      → Step n s (record s { shared = finish_stop i r s.shared })
  -- `docker.start` returns
  started : 0 < s.starts → Step n s (record s { starts = s.starts - 1 })
  start_failed :
      0 < s.starts
      → Step n s (record s { shared = set_state stopped s.shared; starts = s.starts - 1 })
  -- the synchronisation, and the adoption at startup
  find_down : s.shared.server ≡ running → Step n s (record s { found_down = true })
  set_down :
      s.found_down ≡ true
      → Step n s (record s { shared = set_state stopped s.shared; found_down = false })
  adopt :
      s.shared.server ≡ stopped
      → Step n s (record s { shared = set_state running s.shared; adopters = s.adopters + 1 })
  -- its look at the player count: with nobody there it goes on to `schedule_idle_shutdown`
  look :
      0 < s.adopters
      → Step n s (record s {
        adopters = s.adopters - 1;
        schedulers = if s.shared.player_count == 0 then s.schedulers + 1 else s.schedulers;
      })

-- Before the first connection.
unfoldable pub initial : SharedState → System
initial shared = record {
  shared = shared;
  login = λ _. absent;
  start_mutex = none;
  schedulers = 0;
  adopters = 0;
  starts = 0;
  found_down = false;
}

pub data Reach (n : ℕ) (s : System) : System → Type 0 where
  here : Reach n s s
  next : {t u : System} → Reach n s t → Step n t u → Reach n s u
