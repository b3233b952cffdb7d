-- ===== src/System/Quiet/Comes.antt =====
-- How the tasks of the system come to such a state.
use redoxide.Common.{
  ℕ, zero, suc, ◌^◌, ◌<◌, ◌≡◌, ◌⊎◌, inl, inr, refl, true, false, Option, Bytes, arith, Bool-cases,
  leb,
}
use native.Mathlib.Decide.{ℕ_discrete}
use redoxide.Common.Family.{search_below}
use redoxide.Config.{Config}
use redoxide.VersionCache.{CacheFormat}
use redoxide.State.{stopped, over, new}
use redoxide.System.{
  absent, System, by_login, schedule, wake, mark, finish, started, start_failed, find_down,
  set_down, adopt, look, initial, Reach, here, next,
}
use redoxide.System.Attended.{stop_failed}
use redoxide.System.Invariant.{Inv, initial-Inv, Reach-Inv}
use redoxide.State.Cuts.{cuts_timer}
use redoxide.System.Undisturbed.{timer_cut}
use redoxide.System.Frees.{Reach-trans}
use redoxide.System.Quiet.{all_quiet, ahead, Step-ahead}
use redoxide.System.Quiet.Goes.{Goes, Rests, login-Goes, timer-Goes, over-cuts_timer, Rests-stays}
use redoxide.System.Quiet.Rest.{AtRest, rest_stopped}

-- No task can go on.
pub record IsIdle (n : ℕ) (s : System) : Type 0 where
  pub logins : (i : ℕ) → i < n → Rests s i
  pub timers : (j : ℕ) → s.shared.tasks j ≡ over
  pub schedulers : s.schedulers ≡ 0
  pub adopters : s.adopters ≡ 0
  pub starts : s.starts ≡ 0
  pub down : s.found_down ≡ false

pub IsIdle-AtRest : {n : ℕ} {s : System} → IsIdle n s → AtRest n s
IsIdle-AtRest v t (by_login i lt st) = Rests-stays refl (v.logins i lt) st
IsIdle-AtRest v t (schedule h) = absurd (omega (arith, h, v.schedulers))
IsIdle-AtRest v t (wake j e) = cc (v.timers j)
IsIdle-AtRest v t (mark j (inl e)) = cc (v.timers j)
IsIdle-AtRest v t (mark j (inr e)) = cc (v.timers j)
IsIdle-AtRest v t (finish j r e) = cc (v.timers j)
IsIdle-AtRest v t (started h) = absurd (omega (arith, h, v.starts))
IsIdle-AtRest v t (start_failed h) = absurd (omega (arith, h, v.starts))
IsIdle-AtRest v t (find_down h) = refl
IsIdle-AtRest v t (set_down h) = cc v.down
IsIdle-AtRest v t (adopt h) = refl
IsIdle-AtRest v t (look h) = absurd (omega (arith, h, v.adopters))

module _ {n : ℕ} {s : System} (v : Inv n s) where
  -- The tasks that are neither logins nor timers.
  helper-Goes :
      cuts_timer s.shared ≡ false
      → Goes n s ⊎ ((s.schedulers ≡ 0) × (s.adopters ≡ 0) × (s.starts ≡ 0) × (s.found_down ≡ false))
  helper-Goes safe = elim (ℕ_discrete s.schedulers 0) [
    | no some_there ↦ inl (_, schedule (omega arith), refl, refl, safe)
    | yes a ↦ elim (ℕ_discrete s.adopters 0) [
      | no some_there ↦ inl (_, look (omega arith), refl, refl, refl)
      | yes b ↦ elim (ℕ_discrete s.starts 0) [
        | no some_there ↦ inl (_, started (omega arith), refl, refl, refl)
        | yes c ↦ elim (Bool-cases s.found_down) [
          | inl found ↦ inl (_, set_down found, refl, refl, refl)
          | inr not_found ↦ inr (a, b, c, not_found)
        ]
      ]
    ]
  ]

  -- With every timer over, the logins and the other tasks.
  others-Goes : ((j : ℕ) → s.shared.tasks j ≡ over) → Goes n s ⊎ AtRest n s
  others-Goes timers =
      let safe = over-cuts_timer s.shared timers in
      elim (search_below n (λ i lt. login-Goes safe i lt)) [
        | inl go ↦ inl go
        | inr logins ↦ elim (helper-Goes safe) [
          | inl go ↦ inl go
          | inr (a, b, c, d) ↦ inr (
              IsIdle-AtRest (record {
                logins = logins;
                timers = timers;
                schedulers = a;
                adopters = b;
                starts = c;
                down = d;
              }))
        ]
      ]

  -- The timers go first.
  Goes-cases : Goes n s ⊎ AtRest n s
  Goes-cases = elim (search_below s.shared.spawned (λ j lt. timer-Goes j)) [
    | inl go ↦ inl go
    | inr timers ↦ others-Goes (λ j. elim (Bool-cases (leb s.shared.spawned j)) [
      | inl later ↦ v.timer.later j (ground (arith, later))
      | inr spawned ↦ timers j (ground (arith, spawned))
    ])
  ]

-- A quiet run without a failed stop and without an abort of a timer behind its look, to a state of
-- rest.
abbrev ComesToRest : ℕ → System → Type 0
ComesToRest n s =
    (t : System) × (r : Reach n s t) × (all_quiet r ≡ true)
    × (stop_failed r ≡ false)
    × (timer_cut r ≡ false)
    × AtRest n t

-- There are at most `fuel` steps left.
comes_to_rest :
    {n : ℕ} {s : System} (fuel : ℕ) (t : System) (r : Reach n s t)
    → Inv n s
    → ahead n t < fuel
    → all_quiet r ≡ true
    → stop_failed r ≡ false
    → timer_cut r ≡ false
    → ComesToRest n s
unfolding all_quiet stop_failed timer_cut
comes_to_rest zero t r v small q f c = absurd (omega (arith, small))
comes_to_rest (suc fuel) t r v small q f c = elim (Goes-cases (Reach-Inv v r)) [
  | inr rest ↦ (t, r, q, f, c, rest)
  | inl (u, st, quiet, fine, whole) ↦
      comes_to_rest fuel u (next r st) v (omega (arith, small, Step-ahead st (Reach-Inv v r) quiet))
        (ground arith) (ground arith) (ground arith)
]

stop_failed_trans :
    {n : ℕ} {s t u : System} (r : Reach n s t) (q : Reach n t u)
    → stop_failed r ≡ false
    → stop_failed q ≡ false
    → stop_failed (Reach-trans r q) ≡ false
unfolding stop_failed Reach-trans
stop_failed_trans r here f g = f
stop_failed_trans r (next q st) f g = ground (arith, stop_failed_trans r q)

timer_cut_trans :
    {n : ℕ} {s t u : System} (r : Reach n s t) (q : Reach n t u)
    → timer_cut r ≡ false
    → timer_cut q ≡ false
    → timer_cut (Reach-trans r q) ≡ false
unfolding timer_cut Reach-trans
timer_cut_trans r here f g = f
timer_cut_trans r (next q st) f g = ground (arith, timer_cut_trans r q)

-- From every state that is reached from the start by a run in which no stop of the container
-- failed and no timer was aborted between its look at the player count and the end of its stop,
-- with fewer than 2 ^ 64 logins, some run in which no login comes anew, no container is adopted and
-- none is found down leads to a state that is Stopped with no login there.
pub comes_to_stop :
    (format : CacheFormat) (config : Config) (file : Option Bytes) (n : ℕ) (s : System)
    → n < 2 ^ 64
    → (r : Reach n (initial (new format config file)) s) → stop_failed r ≡ false
    → timer_cut r ≡ false
    → (t : System) × (q : Reach n s t) × (all_quiet q ≡ true)
      × (t.shared.server ≡ stopped)
      × ((i : ℕ) → t.login i ≡ absent)
unfolding all_quiet stop_failed timer_cut
comes_to_stop format config file n s few r f c =
    let v = Reach-Inv (initial-Inv format config file n few) r in
    let (t, q, quiet, fine, whole, rest) =
      comes_to_rest (suc (ahead n s)) s here v (omega arith) refl refl refl in
    let (down, gone) =
      rest_stopped format config file n t few (Reach-trans r q) (stop_failed_trans r q f fine)
        (timer_cut_trans r q c whole) rest in
    (t, q, quiet, down, gone)
