-- ===== src/Main/Sync.antt =====
-- What a tick does to the state.
use redoxide.Common.{
  ℕ, ◌≡◌, refl, Bool, true, false, Bytes, Option, none, some, if◌then◌else◌, arith,
}
use redoxide.Docker.Stop.{is_running}
use redoxide.Main.{sync_tick, by_answer, by_state, detect}
use redoxide.State.{
  ServerState, stopped, starting, running, stopping, SharedState, adopt_running,
  update_version_info, schedule_idle_shutdown,
}
use redoxide.VersionCache.{CacheFormat, CacheDir}

-- No task is about to change the state: neither a start nor a stop is in flight.
pub is_settled : ServerState → Bool
is_settled stopped = true
is_settled running = true
is_settled _ = false

module _ (format : CacheFormat) (dir : CacheDir) where
  detect-server :
      (probe : Option (ℕ × Bytes)) (s : SharedState)
      → ((detect format dir probe s).server ≡ s.server)
        × ((detect format dir probe s).player_count ≡ s.player_count)
  unfolding detect update_version_info
  detect-server none s = (refl, refl)
  detect-server (some p) s = (refl, refl)

  -- After a tick whose inspection succeeded, a settled state agrees with the container; one in
  -- which a start or a stop is in flight is left as it was.
  by_state-server :
      (up : Bool) (x : ServerState) (f : SharedState → SharedState) (probe : Option (ℕ × Bytes))
      (s : SharedState)
      → ((y : SharedState) → (f y).server ≡ y.server)
      → s.server ≡ x
      → (by_state format dir up x f probe s).server
        ≡ (if is_settled x then (if up then running else stopped) else x)
  unfolding by_state is_settled adopt_running schedule_idle_shutdown
  by_state-server true stopped f probe s k e =
      let (a, b) = detect-server probe (f (adopt_running s)) in
      ground (arith, a, k (adopt_running s))
  by_state-server false stopped f probe s k e = e
  by_state-server true running f probe s k e = e
  by_state-server false running f probe s k e = refl
  by_state-server true starting f probe s k e = e
  by_state-server false starting f probe s k e = e
  by_state-server true stopping f probe s k e = e
  by_state-server false stopping f probe s k e = e

  -- After a tick whose inspection found the container up or down, and in whose probe no other task
  -- changes the server state, a state in which nothing is in flight agrees with the container, and
  -- one in which a start or a stop is in flight is left as it was.
  pub sync_tick_agrees :
      (inspection : Option (Option (Option Bool))) (f : SharedState → SharedState)
      (probe : Option (ℕ × Bytes)) (s : SharedState) (up : Bool)
      → ((y : SharedState) → (f y).server ≡ y.server)
      → is_running inspection ≡ some up
      → (sync_tick format dir inspection f probe s).server
        ≡ (if is_settled s.server then (if up then running else stopped) else s.server)
  unfolding sync_tick by_answer
  sync_tick_agrees inspection f probe s up k e = rw e (by_state-server up s.server f probe s k refl)
