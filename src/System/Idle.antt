-- ===== src/System/Idle.antt =====
-- A container whose stop fails with nobody there, for the idle timers of src/state.rs.
use redoxide.Common.{
  ℕ, ◌^◌, ◌<◌, ◌≡◌, inl, inr, ◌∙◌, refl, Bool, true, false, Option, Bytes, arith, ◌&&◌,
}
use redoxide.Common.Family.{count-eq-zero}
use redoxide.Config.{Config}
use redoxide.Outcome.{Error, err}
use redoxide.VersionCache.{CacheFormat}
use redoxide.State.{in_stop, new, running, mark_stopping, finish_stop}
use redoxide.State.Timers.{is_live}
use redoxide.System.{
  absent, in_session, System, Step, by_login, schedule, wake, mark, finish, started, start_failed,
  find_down, set_down, adopt, look, initial, Reach, here, next,
}
use redoxide.System.Invariant.{Inv, initial-Inv, Reach-Inv}
use redoxide.System.Quiet.{goes_on}
use redoxide.System.Quiet.Goes.{Rests-stays}

-- The state behind a stop that failed.
abbrev pub failed : System → ℕ → Error → System
failed s i e = record s { shared = finish_stop i (err e) s.shared }

-- No login comes, and no container is adopted.
abbrev pub is_still : {n : ℕ} {s t : System} → Step n s t → Bool
is_still (by_login i lt st) = goes_on st
is_still (adopt h) = false
is_still st = true

unfoldable pub all_still : {n : ℕ} {s t : System} → Reach n s t → Bool
all_still here = true
all_still (next r st) = all_still r && is_still st

-- Nobody is there, and no task will stop the container or arm a timer that would.
pub record Abandoned (s : System) : Type 0 where
  pub logins : (k : ℕ) → s.login k ≡ absent
  pub schedulers : s.schedulers ≡ 0
  pub adopters : s.adopters ≡ 0
  pub dead : (j : ℕ) → is_live (s.shared.tasks j) ≡ false

-- The steps that are left change neither.
Step-Abandoned :
    {n : ℕ} {s t : System} → Abandoned s → (st : Step n s t) → is_still st ≡ true → Abandoned t
unfolding mark_stopping
Step-Abandoned v (by_login i lt st) q = cc (Rests-stays refl (inl (v.logins i)) st)
Step-Abandoned v (schedule h) q = absurd (omega (arith, h, v.schedulers))
Step-Abandoned v (wake i e) q = cc (v.dead i)
Step-Abandoned v (mark i (inl e)) q = cc (v.dead i)
Step-Abandoned v (mark i (inr e)) q = record {
  logins = v.logins;
  schedulers = v.schedulers;
  adopters = v.adopters;
  dead = λ j. ground (arith, v.dead j);
}
Step-Abandoned v (finish i r e) q = cc (v.dead i)
Step-Abandoned v (started h) q = record {
  logins = v.logins;
  schedulers = v.schedulers;
  adopters = v.adopters;
  dead = v.dead;
}
Step-Abandoned v (start_failed h) q = record {
  logins = v.logins;
  schedulers = v.schedulers;
  adopters = v.adopters;
  dead = v.dead;
}
Step-Abandoned v (find_down h) q = record {
  logins = v.logins;
  schedulers = v.schedulers;
  adopters = v.adopters;
  dead = v.dead;
}
Step-Abandoned v (set_down h) q = record {
  logins = v.logins;
  schedulers = v.schedulers;
  adopters = v.adopters;
  dead = v.dead;
}
Step-Abandoned v (adopt h) q = cc
Step-Abandoned v (look h) q = absurd (omega (arith, h, v.adopters))

Reach-Abandoned :
    {n : ℕ} {s t : System} → Abandoned s → (r : Reach n s t) → all_still r ≡ true → Abandoned t
unfolding all_still
Reach-Abandoned v here q = v
Reach-Abandoned v (next r st) q =
    Step-Abandoned (Reach-Abandoned v r (ground (arith, q))) st (ground (arith, q))

-- Only the timer that was in `docker.stop` was live.
failed-Abandoned :
    {n : ℕ} {s : System} (i : ℕ) (e : Error)
    → Inv n s
    → s.shared.tasks i ≡ in_stop
    → ((k : ℕ) → s.login k ≡ absent)
    → s.schedulers ≡ 0
    → s.adopters ≡ 0
    → Abandoned (failed s i e)
unfolding finish_stop
failed-Abandoned i e v q a b c = record {
  logins = a;
  schedulers = b;
  adopters = c;
  dead = λ j. ground (arith, v.timer.named i, v.timer.named j);
}

-- From a state that is reached from the start with fewer than 2 ^ 64 logins, in which a timer is in
-- `docker.stop`, no login is there, no task is to arm another timer and no adoption is under way:
-- when that stop fails, the state becomes Running. From there on, over every run in which no login
-- comes and no container is adopted, nobody is counted, and no timer task is asleep, about to stop
-- the container or in `docker.stop`.
pub failed_stop_abandons :
    (format : CacheFormat) (config : Config) (file : Option Bytes) (n : ℕ) (s : System) (i : ℕ)
    (e : Error)
    → n < 2 ^ 64
    → Reach n (initial (new format config file)) s
    → s.shared.tasks i ≡ in_stop
    → ((k : ℕ) → s.login k ≡ absent)
    → s.schedulers ≡ 0
    → s.adopters ≡ 0
    → (t : System) (r : Reach n (failed s i e) t) → all_still r ≡ true
    → Step n s (failed s i e)
      × ((failed s i e).shared.server ≡ running)
      × (t.shared.player_count ≡ 0)
      × ((j : ℕ) → is_live (t.shared.tasks j) ≡ false)
unfolding finish_stop
failed_stop_abandons format config file n s i e few r q a b c t after still =
    let v = Reach-Inv (initial-Inv format config file n few) r in
    let st : Step n s (failed s i e) = finish i (err e) q in
    let w = Reach-Abandoned (failed-Abandoned i e v q a b c) after still in
    let u = Reach-Inv (Reach-Inv v (next here st)) after in
    (st, refl, u.players ∙ count-eq-zero in_session n t.login (λ k. rw (w.logins k) refl), w.dead)
