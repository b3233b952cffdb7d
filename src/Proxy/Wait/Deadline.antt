-- ===== src/Proxy/Wait/Deadline.antt =====
-- What becomes of a wait whose deadline passes.
use redoxide.Common.{◌≡◌, refl, ◌⊎◌, inl, inr, true, false, Bytes, List, [], ◌∷◌, Bool-cases}
use redoxide.Outcome.{Error, startup_timeout, start_failed}
use redoxide.State.{is_stopped, SharedState}
use redoxide.Status.{Json}
use redoxide.VersionCache.{CacheFormat, CacheDir}
use redoxide.Proxy.Wait.{
  Wait, Round, Next, again, finished, bail, and_then, disconnect, wait_round, wait_loop, begin_wait,
  drain, wait_for_server_with,
}
use redoxide.Proxy.Wait.Drain.{is_ready, wait_round-ready}

-- In some round of the schedule the deadline has passed.
abbrev pub SomeLate : List Round → Type 0
SomeLate [] = ⊥
SomeLate (r ∷ rs) = (r.late ≡ true) ⊎ SomeLate rs

-- A round that is in time ends the loop well, with none before it in which the deadline has passed.
abbrev pub ReadyFirst : List Round → Type 0
ReadyFirst [] = ⊥
ReadyFirst (r ∷ rs) = (is_ready r ≡ true) ⊎ ((r.late ≡ false) × ReadyFirst rs)

-- The end is an error.
abbrev pub Fails : Next → Type 0
Fails x = (e : Error) × (w : Wait) × (x ≡ bail e w)

module _ (to_string : Json → Bytes) (format : CacheFormat) (dir : CacheDir) where
  disconnect-Fails : (e : Error) (w : Wait) → Fails (disconnect to_string format dir e w)
  unfolding disconnect
  disconnect-Fails e w = (e, _, refl)

  wait_round-late :
      (r : Round) (w : Wait) → r.late ≡ true → Fails (wait_round to_string format dir r w)
  unfolding wait_round
  wait_round-late r w h = rw h (disconnect-Fails startup_timeout w)

  wait_loop-late :
      (rs : List Round) (w : Wait)
      → SomeLate rs
      → ¬ ReadyFirst rs
      → Fails (wait_loop to_string format dir rs w)
  unfolding wait_loop and_then
  wait_loop-late [] w h k = absurd h
  wait_loop-late (r ∷ rs) w h k =
      go (wait_round to_string format dir r w) refl (λ y. wait_loop-late rs y)
    where
      -- The loop goes on, so this round was in time.
      in_time : (y : Wait) → wait_round to_string format dir r w ≡ again y → r.late ≡ false
      in_time y e = elim (Bool-cases r.late) [
        | inl late ↦ let (x, v, bails) = wait_round-late r w late in cc
        | inr early ↦ early
      ]

      go :
          (x : Next)
          → wait_round to_string format dir r w ≡ x
          → ((y : Wait)
              → SomeLate rs
              → ¬ ReadyFirst rs
              → Fails (wait_loop to_string format dir rs y))
          → Fails (and_then x (λ y. wait_loop to_string format dir rs y))
      go (again y) e ih = elim h [
        | inl now ↦ cc (in_time y e)
        | inr later ↦ ih y later (λ q. k (inr (in_time y e, q)))
      ]
      go (finished y) e ih = absurd (k (inl (wait_round-ready to_string format dir r w y e)))
      go (bail x y) e ih = (x, y, refl)

  drain-Fails : (x : Next) → Fails x → Fails (drain x)
  unfolding drain
  drain-Fails x (e, w, h) = (e, w, rw h refl)

  -- Where the deadline has passed in some round of the schedule, and no probe was answered and no
  -- news that the server runs came in a round before the first such round, the wait fails, whatever
  -- the client sends.
  pub wait_deadline :
      (rs : List Round) (shared : SharedState) (stream : Bytes)
      → SomeLate rs
      → ¬ ReadyFirst rs
      → Fails (wait_for_server_with to_string format dir rs shared stream)
  unfolding wait_for_server_with
  wait_deadline rs shared stream h k = elim (Bool-cases (is_stopped shared.server)) [
    | inl down ↦ rw down (disconnect-Fails start_failed (begin_wait shared stream))
    | inr up ↦ rw up (drain-Fails _ (wait_loop-late rs (begin_wait shared stream) h k))
  ]
