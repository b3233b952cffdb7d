-- ===== src/System/Quiet/Goes.antt =====
-- Which tasks of the system can make a step when nothing new comes.
use redoxide.Common.{
  ◌<◌, ◌≡◌, ◌≢◌, ◌⊎◌, inl, inr, refl, true, false, Option, none, some, arith, ℕ, Bool-cases,
  Option-cases,
}
use mathlib.Core.Path.{subst}
use redoxide.Outcome.{ok}
use redoxide.State.{
  ServerState, stopped, starting, running, stopping, is_stopping, Timer, sleeping, awake, doomed,
  in_stop, over, SharedState,
}
use redoxide.System.{
  Login, absent, unchecked, cancelled, counted, locked, resolved, claiming, admitted, waiting,
  forwarding, System, LoginStep, leave_stop, check_stop, take, begin, lock, resolve, claim, pass,
  start, forward_at_once, wait, probed, disconnect, Step, by_login, wake, mark, finish,
}
use redoxide.State.Cuts.{cut_by, cuts_timer}
use redoxide.System.Attended.{fails_stop}
use redoxide.System.Undisturbed.{cuts_by, cuts}
use redoxide.System.Quiet.{goes_on, is_quiet}

-- A quiet step, in which no stop fails, and no timer is aborted behind its look.
abbrev pub Goes : ℕ → System → Type 0
Goes n s =
    (t : System) × (st : Step n s t) × (is_quiet st ≡ true)
    × (fails_stop st ≡ false)
    × (cuts st ≡ false)

-- Where a login can rest: not there, or held up by the one that holds the mutex, or by a stop.
abbrev pub Rests : System → ℕ → Type 0
Rests s i =
    (s.login i ≡ absent)
    ⊎ ((s.login i ≡ counted) × (s.start_mutex ≢ none))
    ⊎ ((s.login i ≡ locked) × (is_stopping s.shared.server ≡ true))

-- A timer task makes a step, or is over.
pub timer-Goes : {n : ℕ} {s : System} (j : ℕ) → Goes n s ⊎ (s.shared.tasks j ≡ over)
timer-Goes {n} {s} j = by_task (s.shared.tasks j) refl
  where
    by_task : (x : Timer) → s.shared.tasks j ≡ x → Goes n s ⊎ (s.shared.tasks j ≡ over)
    by_task sleeping e = inl (_, wake j e, refl, refl, refl)
    by_task awake e = inl (_, mark j (inl e), refl, refl, refl)
    by_task doomed e = inl (_, mark j (inr e), refl, refl, refl)
    by_task in_stop e = inl (_, finish j (ok tt) e, refl, refl, refl)
    by_task over e = inr e

-- With every timer over there is none to abort.
pub over-cuts_timer : (s : SharedState) → ((j : ℕ) → s.tasks j ≡ over) → cuts_timer s ≡ false
unfolding cuts_timer
over-cuts_timer s h = by_name s.idle_timer
  where
    by_name : (o : Option ℕ) → cut_by o s.tasks ≡ false
    by_name none = refl
    by_name (some j) = rw (h j) refl

safe-cuts_by :
    {s : System} {i : ℕ} {l : Login} {t : System}
    → cuts_timer s.shared ≡ false
    → (st : LoginStep s i l t) → cuts_by st ≡ false
safe-cuts_by safe take = safe
safe-cuts_by safe st = ground arith

module _ {n : ℕ} {s : System} (safe : cuts_timer s.shared ≡ false) where
  login_step :
      {l : Login} {t : System} (i : ℕ)
      → i < n
      → s.login i ≡ l
      → (st : LoginStep s i l t) → goes_on st ≡ true
      → Goes n s
  login_step {t} i lt e st q =
      subst (λ l. (st' : LoginStep s i l t) → goes_on st' ≡ true → Goes n s) e
        (λ st' q'. (t, by_login i lt st', q', refl, safe-cuts_by safe st')) st q

  -- A login makes a step, or rests.
  pub login-Goes : (i : ℕ) → i < n → Goes n s ⊎ Rests s i
  login-Goes i lt = by_place (s.login i) refl
    where
      by_check : s.login i ≡ resolved → (x : ServerState) → s.shared.server ≡ x → Goes n s
      by_check e stopped q = login_step i lt e (claim q) refl
      by_check e starting q = login_step i lt e (pass (λ h. cc)) refl
      by_check e running q = login_step i lt e (pass (λ h. cc)) refl
      by_check e stopping q = login_step i lt e (pass (λ h. cc)) refl

      by_look : s.login i ≡ admitted → (x : ServerState) → s.shared.server ≡ x → Goes n s
      by_look e running q = login_step i lt e (forward_at_once q) refl
      by_look e stopped q = login_step i lt e (wait (λ h. cc)) refl
      by_look e starting q = login_step i lt e (wait (λ h. cc)) refl
      by_look e stopping q = login_step i lt e (wait (λ h. cc)) refl

      by_place : (l : Login) → s.login i ≡ l → Goes n s ⊎ Rests s i
      by_place absent e = inr (inl e)
      by_place unchecked e = inl (login_step i lt e take refl)
      by_place cancelled e = inl (login_step i lt e begin refl)
      by_place counted e = elim (Option-cases s.start_mutex) [
        | inl free ↦ inl (login_step i lt e (lock free) refl)
        | inr (j, held) ↦ inr (inr (inl (e, λ free. cc)))
      ]
      by_place locked e = elim (Bool-cases (is_stopping s.shared.server)) [
        | inl busy ↦ inr (inr (inr (e, busy)))
        | inr free ↦ inl (login_step i lt e (resolve free) refl)
      ]
      by_place resolved e = inl (by_check e s.shared.server refl)
      by_place claiming e = inl (login_step i lt e start refl)
      by_place admitted e = inl (by_look e s.shared.server refl)
      by_place waiting e = inl (login_step i lt e probed refl)
      by_place forwarding e = inl (login_step i lt e disconnect refl)

-- A login that rests makes no step, but may come anew.
pub Rests-stays :
    {s : System} {i : ℕ} {l : Login} {t : System}
    → s.login i ≡ l
    → Rests s i
    → (st : LoginStep s i l t) → goes_on st ≡ false
Rests-stays e r (leave_stop h) = refl
Rests-stays e r (check_stop h) = refl
Rests-stays e (inl a) st = cc
Rests-stays e (inr (inl (a, held))) (lock free) = absurd (held free)
Rests-stays e (inr (inl (a, held))) st = cc
Rests-stays e (inr (inr (a, busy))) (resolve free) = cc
Rests-stays e (inr (inr (a, busy))) st = cc
