-- ===== src/System/Sessions.antt =====
-- What a login of the system sees of the server state, for `handle_login` of src/proxy.rs.
pub mod Once
use redoxide.Common.{
  ℕ, ◌+◌, ◌^◌, ◌<◌, ◌≤◌, ◌≡◌, ◌≢◌, ◌∙◌, refl, Bool, true, false, Bytes, List, [], ◌∷◌, Option,
  arith, ◌==◌, if◌then◌else◌,
}
use redoxide.Common.Family.{assign, assign_same}
use redoxide.Config.{Config}
use redoxide.VersionCache.{CacheFormat, CacheDir}
use redoxide.State.{
  ServerState, stopped, running, starting, stopping, is_stopped, is_stopping, is_running_state, new,
}
use redoxide.Proxy.Connection.{LoginStart}
use redoxide.Proxy.Login.{Course, Session, await_stop, join_server, start_server, after_wait}
use redoxide.Proxy.Wait.{wait_for_server_with}
use native.Mathlib.Decide.{ℕ_discrete}
use redoxide.Status.{Json}
use redoxide.System.{
  Login, absent, unchecked, cancelled, counted, locked, resolved, claiming, admitted, waiting,
  forwarding, System, leave, LoginStep, leave_stop, check_stop, take, begin, lock, resolve, claim,
  pass, start, forward_at_once, wait, probed, seen_running, give_up, disconnect, Step, by_login,
  schedule, wake, mark, finish, started, start_failed, find_down, set_down, adopt, look, initial,
  Reach, here, next,
}
use redoxide.System.Service.{LoginStep-others}

-- The looks of one login at the server state, and whether it has spawned `docker.start`.
pub record Seen : Type 0 where
  pub stops : List ServerState
  pub at_check : ServerState
  pub at_look : ServerState
  pub starts : Bool

abbrev nothing : Seen
nothing = record { stops = []; at_check = stopped; at_look = stopped; starts = false }

-- What a step of the login itself adds.
abbrev pub see : {s : System} {i : ℕ} {l : Login} {t : System} → LoginStep s i l t → Seen → Seen
see (leave_stop h) o = nothing
see (check_stop h) o = nothing
see {s} (resolve h) o = record o { stops = s.shared.server ∷ [] }
see {s} (claim h) o = record o { at_check = s.shared.server }
see {s} (pass h) o = record o { at_check = s.shared.server }
see start o = record o { starts = true }
see {s} (forward_at_once h) o = record o { at_look = s.shared.server }
see {s} (wait h) o = record o { at_look = s.shared.server }
see st o = o

abbrev pub see_step : {n : ℕ} {s t : System} → ℕ → Step n s t → Seen → Seen
see_step i (by_login j lt st) o = if i == j then see st o else o
see_step i st o = o

-- What login `i` has seen since it came last.
unfoldable pub seen : {n : ℕ} {s t : System} → ℕ → Reach n s t → Seen
seen i here = nothing
seen i (next r st) = see_step i st (seen i r)

-- The login is behind the block of `start_mutex`.
abbrev pub is_behind : Login → Bool
is_behind admitted = true
is_behind waiting = true
is_behind forwarding = true
is_behind _ = false

-- What the place of a login tells of what it has seen.
abbrev Sees : Login → Seen → Type 0
Sees absent o = Unit
Sees resolved o = (o.starts ≡ false) × (await_stop o.stops ≡ true)
Sees claiming o = (o.starts ≡ false) × (await_stop o.stops ≡ true) × (o.at_check ≡ stopped)
Sees admitted o = (o.starts ≡ is_stopped o.at_check) × (await_stop o.stops ≡ true)
Sees forwarding o = (o.starts ≡ is_stopped o.at_check) × (await_stop o.stops ≡ true)
Sees waiting o =
    (o.starts ≡ is_stopped o.at_check) × (await_stop o.stops ≡ true) × (o.at_look ≢ running)
Sees l o = o.starts ≡ false

there : (f : ℕ → Login) (i : ℕ) (l : Login) (o : Seen) → Sees l o → Sees (assign f i l i) o
there f i l o h = rw (assign_same f i l) h

awaited : (x : ServerState) → is_stopping x ≡ false → await_stop (x ∷ []) ≡ true
awaited x h = rw h refl

passed : (x : ServerState) → x ≢ stopped → false ≡ is_stopped x
passed stopped h = absurd (h refl)
passed starting h = refl
passed running h = refl
passed stopping h = refl

LoginStep-Sees :
    {s : System} {i : ℕ} {l : Login} {t : System} (st : LoginStep s i l t) (o : Seen)
    → Sees l o
    → Sees (t.login i) (see st o)
unfolding leave
LoginStep-Sees {s} {i} (leave_stop h) o v = there s.login i cancelled _ refl
LoginStep-Sees {s} {i} (check_stop h) o v = there s.login i unchecked _ refl
LoginStep-Sees {s} {i} take o v = there s.login i cancelled _ v
LoginStep-Sees {s} {i} begin o v = there s.login i counted _ v
LoginStep-Sees {s} {i} (lock h) o v = there s.login i locked _ v
LoginStep-Sees {s} {i} (resolve h) o v = there s.login i resolved _ (v, awaited s.shared.server h)
LoginStep-Sees {s} {i} (claim h) o (calm, free) = there s.login i claiming _ (calm, free, h)
LoginStep-Sees {s} {i} (pass h) o (calm, free) =
    there s.login i admitted _ (calm ∙ passed s.shared.server h, free)
LoginStep-Sees {s} {i} start o (calm, free, due) =
    there s.login i admitted (record o { starts = true }) (rw due refl, free)
LoginStep-Sees {s} {i} (forward_at_once h) o v = there s.login i forwarding _ v
LoginStep-Sees {s} {i} (wait h) o (behind, free) = there s.login i waiting _ (behind, free, h)
LoginStep-Sees {s} {i} probed o (behind, free, late) = there s.login i forwarding _ (behind, free)
LoginStep-Sees {s} {i} (seen_running h) o (behind, free, late) =
    there s.login i forwarding _ (behind, free)
LoginStep-Sees {s} {i} give_up o v = there s.login i absent _ tt
LoginStep-Sees {s} {i} disconnect o v = there s.login i absent _ tt

same_index : (j : ℕ) → (j == j) ≡ true
same_index j = ground arith

other_index : (i j : ℕ) → i ≢ j → (i == j) ≡ false
other_index i j ne = ground arith

own_step :
    {s t : System} (j : ℕ) (st : LoginStep s j (s.login j) t) (o : Seen)
    → Sees (s.login j) o
    → Sees (t.login j) (if j == j then see st o else o)
own_step j st o v = rw (same_index j) (LoginStep-Sees st o v)

other_step :
    {s t : System} (i j : ℕ) (st : LoginStep s j (s.login j) t) (o : Seen)
    → i ≢ j
    → Sees (s.login i) o
    → Sees (t.login i) (if i == j then see st o else o)
other_step i j st o ne v = rw (other_index i j ne, LoginStep-others i ne st) v

Step-Sees :
    {n : ℕ} {s t : System} (i : ℕ) (st : Step n s t) (o : Seen)
    → Sees (s.login i) o
    → Sees (t.login i) (see_step i st o)
Step-Sees i (by_login j lt st) o v = elim (ℕ_discrete i j) [
  | yes same ↦ rw same (own_step j st o (rw same at v))
  | no other ↦ other_step i j st o other v
]
Step-Sees i (schedule h) o v = v
Step-Sees i (wake j e) o v = v
Step-Sees i (mark j e) o v = v
Step-Sees i (finish j r e) o v = v
Step-Sees i (started h) o v = v
Step-Sees i (start_failed h) o v = v
Step-Sees i (find_down h) o v = v
Step-Sees i (set_down h) o v = v
Step-Sees i (adopt h) o v = v
Step-Sees i (look h) o v = v

Reach-Sees :
    {n : ℕ} {s t : System} (i : ℕ) (r : Reach n s t)
    → s.login i ≡ absent
    → Sees (t.login i) (seen i r)
unfolding seen
Reach-Sees i here e = rw e tt
Reach-Sees i (next r st) e = Step-Sees i st (seen i r) (Reach-Sees i r e)
