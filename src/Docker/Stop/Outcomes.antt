-- ===== src/Docker/Stop/Outcomes.antt =====
-- When a stop reports success, and when it uses `docker stop`.
use redoxide.Common.{
  ℕ, zero, suc, ◌+◌, ◌≤◌, ◌<◌, ◌≡◌, ◌≢◌, refl, ◌⊎◌, inl, inr, true, false, not, Option, none, some,
  arith, Bytes, ◌++◌, length, Bool-cases,
}
use redoxide.Config.{RconConfig}
use redoxide.Docker.Rcon.{Peer, to_le_bytes, rcon_recv, rcon_stop}
use redoxide.Docker.Rcon.Wire.{rcon_recv_panics}
use redoxide.Docker.Stop.{Daemon, is_running, answered, exits, after_rcon, max_polls, Stop, stop}
use native.Mathlib.Decide.{ℕ_discrete}
use redoxide.Outcome.{Result, ok, err, panic}
use mathlib.Core.Option.{get_or}

-- A poll, among the first `n` from the k-th on, that found the container down.
pub record SeenDown (d : Daemon) (k n : ℕ) : Type 0 where
  pub poll : ℕ
  pub from : k ≤ poll
  pub until : poll < k + n
  pub down : is_running (d.inspect_container poll) ≡ some false

exits-SeenDown : (d : Daemon) (n k : ℕ) → exits d n k ≡ true → SeenDown d k n
unfolding exits
exits-SeenDown d zero k h = cc
exits-SeenDown d (suc n) k h =
    elim (Bool-cases (not (get_or (is_running (d.inspect_container k)) true))) [
      | inl down ↦ record { poll = k; from = omega arith; until = omega arith; down = ground arith }
      | inr up ↦
          let later = exits-SeenDown d n (k + 1) (rw up at h) in
          record { poll = later.poll; from = omega arith; until = omega arith; down = later.down }
    ]

exits-of-SeenDown : (d : Daemon) (n k : ℕ) → SeenDown d k n → exits d n k ≡ true
unfolding exits
exits-of-SeenDown d zero k s = absurd (omega arith)
exits-of-SeenDown d (suc n) k s = elim (ℕ_discrete s.poll k) [
  | yes first ↦ ground (arith, rw first at s.down)
  | no later ↦
      let rest : SeenDown d (k + 1) n = record {
        poll = s.poll;
        from = omega arith;
        until = omega arith;
        down = s.down;
      } in
      ground (arith, exits-of-SeenDown d n (k + 1) rest)
]

-- The end of a stop says how it came about.
abbrev pub Confirmed : Daemon → Stop → Type 0
Confirmed d s =
    ((s.forced ≡ true) × (d.stop_container ≡ some tt))
    ⊎ ((s.forced ≡ false) × SeenDown d 0 max_polls)

after_rcon-Confirmed :
    (d : Daemon) (r : Result (Unit {0}))
    → (after_rcon d r).outcome ≡ ok tt
    → Confirmed d (after_rcon d r)
unfolding after_rcon
after_rcon-Confirmed d (ok u) h = elim (Bool-cases (exits d max_polls 0)) [
  | inl down ↦ rw down (inr (refl, exits-SeenDown d max_polls 0 down))
  | inr up ↦ rw up (inl (refl, ground arith))
]
after_rcon-Confirmed d (err e) h = inl (refl, ground arith)
after_rcon-Confirmed d panic h = cc

-- A stop that reports success has seen the container down in one of its thirty polls, or had
-- `docker stop` succeed.
pub stop-Confirmed :
    (rcon : Option RconConfig) (peer : Peer) (d : Daemon)
    → (stop rcon peer d).outcome ≡ ok tt
    → Confirmed d (stop rcon peer d)
unfolding stop
stop-Confirmed none peer d h = inl (refl, ground arith)
stop-Confirmed (some cfg) peer d h = after_rcon-Confirmed d (rcon_stop cfg peer).outcome h

not-SeenDown : (d : Daemon) → ¬ SeenDown d 0 max_polls → exits d max_polls 0 ≡ false
not-SeenDown d no_poll = elim (Bool-cases (exits d max_polls 0)) [
  | inl down ↦ absurd (no_poll (exits-SeenDown d max_polls 0 down))
  | inr up ↦ up
]

after_rcon_graceful :
    (d : Daemon) (r : Result (Unit {0}))
    → r ≡ ok tt
    → SeenDown d 0 max_polls
    → after_rcon d r ≡ record { outcome = ok tt; forced = false }
unfolding after_rcon
after_rcon_graceful d r h s = rw (h, exits-of-SeenDown d max_polls 0 s)

after_rcon_forced :
    (d : Daemon) (r : Result (Unit {0}))
    → r ≢ panic
    → ¬ SeenDown d 0 max_polls
    → after_rcon d r ≡ record { outcome = answered d.stop_container; forced = true }
unfolding after_rcon
after_rcon_forced d (ok u) h s = rw (not-SeenDown d s)
after_rcon_forced d (err e) h s = refl
after_rcon_forced d panic h s = absurd (h refl)

-- Where the RCON command was sent and one of thirty polls finds the container down, the stop
-- succeeds with no `docker stop`.
pub stop_graceful :
    (cfg : RconConfig) (peer : Peer) (d : Daemon)
    → (rcon_stop cfg peer).outcome ≡ ok tt
    → SeenDown d 0 max_polls
    → stop (some cfg) peer d ≡ record { outcome = ok tt; forced = false }
unfolding stop
stop_graceful cfg peer d h s = after_rcon_graceful d _ h s

-- Where no poll finds the container down, and RCON does not panic, the stop is `docker stop`, with
-- its result, whether the RCON command was sent or not.
pub stop_forced :
    (cfg : RconConfig) (peer : Peer) (d : Daemon)
    → (rcon_stop cfg peer).outcome ≢ panic
    → ¬ SeenDown d 0 max_polls
    → stop (some cfg) peer d ≡ record { outcome = answered d.stop_container; forced = true }
unfolding stop
stop_forced cfg peer d h s = after_rcon_forced d _ h s

rcon_stop_panics :
    (cfg : RconConfig) (peer : Peer)
    → peer.connects ≡ true
    → peer.takes_auth ≡ true
    → rcon_recv peer.reply ≡ panic
    → (rcon_stop cfg peer).outcome ≡ panic
unfolding rcon_stop
rcon_stop_panics cfg peer c a p = ground arith

-- An RCON peer whose answer has a body of fewer than ten bytes makes the whole stop panic: the
-- container is not stopped by `docker stop` either.
pub stop_panics :
    (cfg : RconConfig) (peer : Peer) (d : Daemon) (body rest : Bytes)
    → peer.connects ≡ true
    → peer.takes_auth ≡ true
    → peer.reply ≡ to_le_bytes (length body) ++ (body ++ rest)
    → length body < 10
    → stop (some cfg) peer d ≡ record { outcome = panic; forced = false }
unfolding stop after_rcon
stop_panics cfg peer d body rest c a e h =
    rw (rcon_stop_panics cfg peer c a (rw e (rcon_recv_panics body rest h)))
