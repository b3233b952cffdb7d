-- ===== src/System/Service.antt =====
-- Logins that a step leaves where they are, for the step relation of System.
use redoxide.Common.{ℕ, ◌≤◌, ◌≡◌, ◌≢◌, ◌∙◌, refl, arith}
use redoxide.State.{SharedState}
use redoxide.System.{
  Login, absent, System, leave, LoginStep, leave_stop, check_stop, take, begin, lock, resolve,
  claim, pass, start, forward_at_once, wait, probed, seen_running, give_up, disconnect, Step,
  by_login, schedule, wake, mark, finish, started, start_failed, find_down, set_down, adopt, look,
  initial, Reach, here, next,
}

-- A step of a login moves no other.
pub LoginStep-others :
    {s : System} {i : ℕ} {l : Login} {t : System} (k : ℕ)
    → k ≢ i
    → LoginStep s i l t
    → t.login k ≡ s.login k
unfolding leave
LoginStep-others k ne (leave_stop h) = ground arith
LoginStep-others k ne (check_stop h) = ground arith
LoginStep-others k ne take = ground arith
LoginStep-others k ne begin = ground arith
LoginStep-others k ne (lock h) = ground arith
LoginStep-others k ne (resolve h) = ground arith
LoginStep-others k ne (claim h) = ground arith
LoginStep-others k ne (pass h) = ground arith
LoginStep-others k ne start = ground arith
LoginStep-others k ne (forward_at_once h) = ground arith
LoginStep-others k ne (wait h) = ground arith
LoginStep-others k ne probed = ground arith
LoginStep-others k ne (seen_running h) = ground arith
LoginStep-others k ne give_up = ground arith
LoginStep-others k ne disconnect = ground arith

Step-absent :
    {n : ℕ} {s t : System} (k : ℕ) → n ≤ k → s.login k ≡ absent → Step n s t → t.login k ≡ absent
Step-absent k le e (by_login i lt st) =
    LoginStep-others k (λ same. omega (arith, le, lt, same)) st ∙ e
Step-absent k le e (schedule h) = e
Step-absent k le e (wake i h) = e
Step-absent k le e (mark i h) = e
Step-absent k le e (finish i r h) = e
Step-absent k le e (started h) = e
Step-absent k le e (start_failed h) = e
Step-absent k le e (find_down h) = e
Step-absent k le e (set_down h) = e
Step-absent k le e (adopt h) = e
Step-absent k le e (look h) = e

pub Reach-absent :
    {n : ℕ} (shared : SharedState) {s : System} (k : ℕ)
    → n ≤ k
    → Reach n (initial shared) s
    → s.login k ≡ absent
unfolding initial
Reach-absent shared k le here = refl
Reach-absent shared k le (next r st) = Step-absent k le (Reach-absent shared k le r) st
