-- ===== src/System/Progress.antt =====
-- What a login that waits inside `start_mutex` may still come to.
use redoxide.Common.{
  ℕ, ◌^◌, ◌<◌, ◌≡◌, ◌⊎◌, inl, inr, ◌∙◌, sym, refl, true, false, Option, none, some, Bytes, arith,
  Bool-cases,
}
use redoxide.Config.{Config}
use redoxide.VersionCache.{CacheFormat}
use redoxide.State.{ServerState, stopped, starting, running, stopping, is_stopping, Timer, new}
use redoxide.State.Timers.{is_live}
use redoxide.System.{locked, forwarding, System, initial, Reach}
use redoxide.State.Cuts.{Honest}
use redoxide.System.Attended.{stop_failed}
use redoxide.System.Undisturbed.{timer_cut, initial-Honest, Reach-Honest}
use redoxide.System.Invariant.{Inv, initial-Inv, Reach-Inv}
use redoxide.System.Frees.{is_stopper, Comes, StopFrees, stopper-StopFrees, locked-forwarding}

-- The state is Stopping, and no task is left that would report the end of the stop.
pub record Deserted (s : System) : Type 0 where
  pub server : s.shared.server ≡ stopping
  pub alone : (j : ℕ) → is_stopper (s.shared.tasks j) ≡ false

-- A stop failed on the way, or a timer was aborted behind its look at the player count.
abbrev pub Disturbed : {n : ℕ} {s t : System} → Reach n s t → Type 0
Disturbed r = (stop_failed r ≡ true) ⊎ (timer_cut r ≡ true)

-- What login `i` waits for inside the mutex, at the end of a run.
abbrev pub Held : {n : ℕ} {s t : System} → Reach n s t → ℕ → Type 0
Held {n} {s} {t} r i =
    ((is_stopping t.shared.server ≡ false) × Comes n t i forwarding)
    ⊎ ((t.shared.server ≡ stopping) × (StopFrees n t i ⊎ (Deserted t × Disturbed r)))

stopper-live : (x : Timer) → is_stopper x ≡ true → is_live x ≡ true
stopper-live x h = ground arith

module _ {n : ℕ} {s : System} (v : Inv n s) where
  -- Only the task that the state names can be a stopper.
  alone-of :
      (o : Option ℕ)
      → s.shared.idle_timer ≡ o
      → ((j : ℕ) → o ≡ some j → is_stopper (s.shared.tasks j) ≡ false)
      → (k : ℕ) → is_stopper (s.shared.tasks k) ≡ false
  alone-of o e none_named k = elim (Bool-cases (is_stopper (s.shared.tasks k))) [
    | inr no_stopper ↦ no_stopper
    | inl stopper ↦ none_named k (sym e ∙ v.timer.named k (stopper-live (s.shared.tasks k) stopper))
  ]

  stopping-cases :
      (i : ℕ)
      → i < n
      → s.login i ≡ locked
      → s.shared.server ≡ stopping
      → (o : Option ℕ) → s.shared.idle_timer ≡ o
      → StopFrees n s i ⊎ Deserted s
  stopping-cases i lt e q none t = inr (record { server = q; alone = alone-of none t (λ j h. cc) })
  stopping-cases i lt e q (some j) t = elim (Bool-cases (is_stopper (s.shared.tasks j))) [
    | inl stopper ↦ inl (stopper-StopFrees i lt s j (s.shared.tasks j) e refl stopper)
    | inr no_stopper ↦ inr (record {
      server = q;
      alone = alone-of (some j) t (λ k h. let same : k ≡ j = cc in rw same no_stopper);
    })
  ]

-- Without a disturbance a task is in `docker.stop`.
Deserted-Disturbed :
    {n : ℕ} {s t : System}
    → Inv n s
    → Honest s.shared
    → (r : Reach n s t) → Deserted t
    → Disturbed r
Deserted-Disturbed v h r d = elim (Bool-cases (stop_failed r)) [
  | inl failed ↦ inl failed
  | inr fine ↦ elim (Bool-cases (timer_cut r)) [
    | inl cut ↦ inr cut
    | inr whole ↦ let (j, e) = (Reach-Honest v h r fine whole).stopper d.server in cc (d.alone j)
  ]
]

locked-Held :
    {n : ℕ} {s t : System}
    → Inv n s
    → Honest s.shared
    → (r : Reach n s t) (i : ℕ) → i < n
    → t.login i ≡ locked
    → Held r i
locked-Held {n} {s} {t} v h r i lt e = by_server t.shared.server refl
  where
    held : t.shared.server ≡ stopping → StopFrees n t i ⊎ Deserted t → Held r i
    held q (inl frees) = inr (q, inl frees)
    held q (inr d) = inr (q, inr (d, Deserted-Disturbed v h r d))

    by_server : (x : ServerState) → t.shared.server ≡ x → Held r i
    by_server stopping q = held q (stopping-cases (Reach-Inv v r) i lt e q t.shared.idle_timer refl)
    by_server stopped q = inl (rw q refl, locked-forwarding i lt t e (rw q refl))
    by_server starting q = inl (rw q refl, locked-forwarding i lt t e (rw q refl))
    by_server running q = inl (rw q refl, locked-forwarding i lt t e (rw q refl))

-- At the end of every run from the start, take a login that waits inside `start_mutex`. Where the
-- state is not Stopping, some run leads it to be forwarded. Where it is Stopping, either some run
-- leads to `docker.stop`, and from behind that stop, with whatever result but a panic, some run
-- leads the login to be forwarded; or no timer task is left that would report the end of the stop,
-- and on the way a stop failed or a timer was aborted between its look at the player count and the
-- end of its stop.
pub login_goes_on :
    (format : CacheFormat) (config : Config) (file : Option Bytes) (n : ℕ) (s : System) (i : ℕ)
    → n < 2 ^ 64
    → (r : Reach n (initial (new format config file)) s) → i < n
    → s.login i ≡ locked
    → Held r i
login_goes_on format config file n s i few r lt e =
    locked-Held (initial-Inv format config file n few) (initial-Honest format config file) r i lt e
