-- ===== src/System/Frees.antt =====
-- Runs that lead a login of src/proxy.rs from inside `start_mutex` to be forwarded.
use redoxide.Common.{ℕ, ◌+◌, ◌<◌, ◌≡◌, ◌≢◌, inl, refl, Bool, true, false, none, arith}
use redoxide.Common.Family.{assign, assign_same}
use redoxide.Outcome.{Result, ok, err, panic}
use redoxide.State.{
  ServerState, stopped, starting, running, stopping, is_stopping, Timer, sleeping, awake, doomed,
  in_stop, over, set_state, mark_stopping, finish_stop,
}
use redoxide.System.{
  Login, locked, resolved, claiming, admitted, waiting, forwarding, System, move, resolve, claim,
  pass, start, forward_at_once, wait, probed, mark, Reach, here, next,
}
use redoxide.System.Atomic.{at_login}

-- A timer task that will report the end of a stop.
abbrev pub is_stopper : Timer → Bool
is_stopper awake = true
is_stopper in_stop = true
is_stopper _ = false

unfoldable pub Reach-trans : {n : ℕ} {s t u : System} → Reach n s t → Reach n t u → Reach n s u
Reach-trans r here = r
Reach-trans r (next q st) = next (Reach-trans r q) st

-- From `s` a run leads login `i` to the given place.
abbrev pub Comes : ℕ → System → ℕ → Login → Type 0
Comes n s i l = (t : System) × Reach n s t × (t.login i ≡ l)

-- Some run leads to `docker.stop`; from behind it, with whatever result but a panic, some run leads
-- login `i` to be forwarded.
abbrev pub StopFrees : ℕ → System → ℕ → Type 0
StopFrees n s i =
    (j : ℕ) × (t : System) × Reach n s t
    × (t.shared.tasks j ≡ in_stop)
    × ((r : Result (Unit {0}))
        → r ≢ panic
        → Comes n (record t { shared = finish_stop j r t.shared }) i forwarding)

Comes-trans :
    {n : ℕ} (s t : System) (i : ℕ) (l : Login) → Reach n s t → Comes n t i l → Comes n s i l
Comes-trans s t i l r (u, q, e) = (u, Reach-trans r q, e)

module _ {n : ℕ} (i : ℕ) (lt : i < n) where
  admitted-forwarding : (s : System) → s.login i ≡ admitted → Comes n s i forwarding
  admitted-forwarding s e = by_server s.shared.server refl
    where
      let_wait : s.shared.server ≢ running → Comes n s i forwarding
      let_wait ne = (
        _,
        next (next here (at_login lt e (wait ne)))
            (at_login lt (assign_same s.login i waiting) probed),
        assign_same (assign s.login i waiting) i forwarding,
      )

      by_server : (x : ServerState) → s.shared.server ≡ x → Comes n s i forwarding
      by_server running q =
          (_, next here (at_login lt e (forward_at_once q)), assign_same s.login i forwarding)
      by_server stopped q = let_wait (λ h. cc)
      by_server starting q = let_wait (λ h. cc)
      by_server stopping q = let_wait (λ h. cc)

  resolved-forwarding : (s : System) → s.login i ≡ resolved → Comes n s i forwarding
  resolved-forwarding s e = by_server s.shared.server refl
    where
      let_pass : s.shared.server ≢ stopped → Comes n s i forwarding
      let_pass ne =
          let t : System = record s { start_mutex = none; login = assign s.login i admitted } in
          Comes-trans s t i forwarding (next here (at_login lt e (pass ne)))
            (admitted-forwarding t (assign_same s.login i admitted))

      by_server : (x : ServerState) → s.shared.server ≡ x → Comes n s i forwarding
      by_server stopped q =
          let c : System = move s i claiming in
          let t : System = record c {
            shared = set_state starting c.shared;
            start_mutex = none;
            login = assign c.login i admitted;
            starts = c.starts + 1;
          } in
          Comes-trans s t i forwarding
            (next (next here (at_login lt e (claim q)))
              (at_login lt (assign_same s.login i claiming) start))
            (admitted-forwarding t (assign_same c.login i admitted))
      by_server starting q = let_pass (λ h. cc)
      by_server running q = let_pass (λ h. cc)
      by_server stopping q = let_pass (λ h. cc)

  pub locked-forwarding :
      (s : System)
      → s.login i ≡ locked
      → is_stopping s.shared.server ≡ false
      → Comes n s i forwarding
  locked-forwarding s e go =
      let t = move s i resolved in
      Comes-trans s t i forwarding (next here (at_login lt e (resolve go)))
        (resolved-forwarding t (assign_same s.login i resolved))

  -- A stop that is in flight frees the login when it ends, with whatever result but a panic.
  in_stop-frees :
      (s : System) (j : ℕ)
      → s.login i ≡ locked
      → (r : Result (Unit {0})) → r ≢ panic
      → Comes n (record s { shared = finish_stop j r s.shared }) i forwarding
  unfolding finish_stop
  in_stop-frees s j e (ok u) h = locked-forwarding _ e refl
  in_stop-frees s j e (err x) h = locked-forwarding _ e refl
  in_stop-frees s j e panic h = absurd (h refl)

  awake-StopFrees :
      (s : System) (j : ℕ) → s.login i ≡ locked → s.shared.tasks j ≡ awake → StopFrees n s i
  unfolding mark_stopping
  awake-StopFrees s j e q =
      let t : System = record s { shared = mark_stopping j s.shared } in
      (j, t, next here (mark j (inl q)), ground arith, in_stop-frees t j e)

  pub stopper-StopFrees :
      (s : System) (j : ℕ) (x : Timer)
      → s.login i ≡ locked
      → s.shared.tasks j ≡ x
      → is_stopper x ≡ true
      → StopFrees n s i
  stopper-StopFrees s j awake e q h = awake-StopFrees s j e q
  stopper-StopFrees s j in_stop e q h = (j, s, here, q, in_stop-frees s j e)
  stopper-StopFrees s j sleeping e q h = cc
  stopper-StopFrees s j doomed e q h = cc
  stopper-StopFrees s j over e q h = cc
