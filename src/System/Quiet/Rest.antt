-- ===== src/System/Quiet/Rest.antt =====
-- States in which the tasks of the system have nothing left to do.
use redoxide.Common.{
  ℕ, ◌^◌, ◌<◌, ◌≤◌, ◌≡◌, ◌⊎◌, inl, inr, ◌∙◌, refl, true, false, Option, none, some, Bytes, arith,
  leb, Bool-cases, Option-cases,
}
use redoxide.Common.Family.{count-eq-zero}
use redoxide.Config.{Config}
use redoxide.VersionCache.{CacheFormat}
use redoxide.State.{ServerState, stopped, starting, running, stopping, is_stopping, over, new}
use redoxide.System.{absent, in_session, System, Step, schedule, look, initial, Reach}
use redoxide.System.Attended.{
  is_up, stop_failed, Watched, timed, scheduled, adopted, arriving, attended,
}
use redoxide.System.Invariant.{Inv, initial-Inv, Reach-Inv}
use redoxide.State.Cuts.{Honest}
use redoxide.System.Undisturbed.{timer_cut, initial-Honest, Reach-Honest}
use redoxide.System.Quiet.{is_quiet}
use redoxide.System.Quiet.Goes.{Goes, Rests, login-Goes, timer-Goes, over-cuts_timer}
use redoxide.System.Service.{Reach-absent}

-- No step is left but the coming of a login, an adoption, and finding the container down.
abbrev pub AtRest : ℕ → System → Type 0
AtRest n s = (t : System) (st : Step n s t) → is_quiet st ≡ false

module _ {n : ℕ} {s : System} (rest : AtRest n s) where
  not_going : Goes n s → ⊥
  not_going (t, st, quiet, fine, whole) = cc (rest t st)

  rest-over : (j : ℕ) → s.shared.tasks j ≡ over
  rest-over j = elim (timer-Goes j) [ inl go ↦ absurd (not_going go) | inr e ↦ e ]

  rest-schedulers : ¬ (0 < s.schedulers)
  rest-schedulers h = cc (rest _ (schedule h))

  rest-adopters : ¬ (0 < s.adopters)
  rest-adopters h = cc (rest _ (look h))

  rest-login : (i : ℕ) → i < n → Rests s i
  rest-login i lt = elim (login-Goes (over-cuts_timer s.shared rest-over) i lt) [
    | inl go ↦ absurd (not_going go)
    | inr r ↦ r
  ]

  -- With no stop in flight everybody has gone.
  module _ (v : Inv n s) (beyond : (k : ℕ) → n ≤ k → s.login k ≡ absent)
      (free : is_stopping s.shared.server ≡ false) where
    -- The mutex is free.
    rest-mutex : s.start_mutex ≡ none
    rest-mutex = elim (Option-cases s.start_mutex) [
      | inl none_holds ↦ none_holds
      | inr (j, held) ↦ absurd (not_held j held (Bool-cases (leb n j)))
    ]
      where
        not_held : (j : ℕ) → s.start_mutex ≡ some j → (leb n j ≡ true) ⊎ (leb n j ≡ false) → ⊥
        not_held j held (inl outside) = cc (beyond j (ground (arith, outside)), v.held j held)
        not_held j held (inr within) = in_place (rest-login j (ground (arith, within)))
          where
            in_place : Rests s j → ⊥
            in_place (inl e) = cc (v.held j held)
            in_place (inr (inl (e, h))) = cc (v.held j held)
            in_place (inr (inr (e, h))) = cc

    rest-absent : (i : ℕ) → s.login i ≡ absent
    rest-absent i = elim (Bool-cases (leb n i)) [
      | inl outside ↦ beyond i (ground (arith, outside))
      | inr within ↦ in_place (rest-login i (ground (arith, within)))
    ]
      where
        in_place : Rests s i → s.login i ≡ absent
        in_place (inl e) = e
        in_place (inr (inl (e, h))) = absurd (h rest-mutex)
        in_place (inr (inr (e, h))) = cc

    rest-empty : s.shared.player_count ≡ 0
    rest-empty = v.players ∙ count-eq-zero in_session n s.login (λ i. rw (rest-absent i) refl)

    rest-Watched : ¬ Watched n s
    rest-Watched (timed j h) = cc (rest-over j)
    rest-Watched (scheduled h) = rest-schedulers h
    rest-Watched (adopted h) = rest-adopters h
    rest-Watched (arriving i lt h) = cc (rest-absent i)

up-or-down :
    (x : ServerState)
    → (x ≡ stopping)
      ⊎ ((is_stopping x ≡ false) × (is_up x ≡ true))
      ⊎ ((is_stopping x ≡ false) × (x ≡ stopped))
up-or-down stopping = inl refl
up-or-down running = inr (inl (refl, refl))
up-or-down starting = inr (inl (refl, refl))
up-or-down stopped = inr (inr (refl, refl))

-- Take a state that is reached from the start by a run in which no stop of the container failed
-- and no timer was aborted between its look at the player count and the end of its stop, with fewer
-- than 2 ^ 64 logins, and in which no step is left but the coming of a login, an adoption, and
-- finding the container down. Then the state is Stopped, and no login is there.
pub rest_stopped :
    (format : CacheFormat) (config : Config) (file : Option Bytes) (n : ℕ) (s : System)
    → n < 2 ^ 64
    → (r : Reach n (initial (new format config file)) s) → stop_failed r ≡ false
    → timer_cut r ≡ false
    → AtRest n s
    → (s.shared.server ≡ stopped) × ((i : ℕ) → s.login i ≡ absent)
rest_stopped format config file n s few r f c rest = by_server (up-or-down s.shared.server)
  where
    v : Inv n s
    v = Reach-Inv (initial-Inv format config file n few) r

    beyond : (k : ℕ) → n ≤ k → s.login k ≡ absent
    beyond k le = Reach-absent (new format config file) k le r

    honest : Honest s.shared
    honest =
        Reach-Honest (initial-Inv format config file n few) (initial-Honest format config file) r f
          c

    by_server :
        (s.shared.server ≡ stopping)
          ⊎ ((is_stopping s.shared.server ≡ false) × (is_up s.shared.server ≡ true))
          ⊎ ((is_stopping s.shared.server ≡ false) × (s.shared.server ≡ stopped))
        → (s.shared.server ≡ stopped) × ((i : ℕ) → s.login i ≡ absent)
    by_server (inl e) = let (j, h) = honest.stopper e in cc (rest-over rest j)
    by_server (inr (inl (free, up))) = absurd (
        rest-Watched rest v beyond free
          (attended format config file n s few r f up (rest-empty rest v beyond free)))
    by_server (inr (inr (free, down))) = (down, rest-absent rest v beyond free)
