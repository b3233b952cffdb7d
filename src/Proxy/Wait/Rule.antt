-- ===== src/Proxy/Wait/Rule.antt =====
-- A rule for wait_for_server_with: what each step keeps, a wait keeps.
use redoxide.Common.{
  ℕ, zero, suc, ◌≡◌, refl, Bool, true, false, Bytes, List, [], ◌∷◌, ◌++◌, none, some, drop, ◌==◌,
  Bool-cases, inl, inr,
}
use mathlib.Core.Path.{subst}
use redoxide.Config.{codes}
use redoxide.Outcome.{
  Error, Result, ok, err, panic, write_failed, start_failed, startup_timeout, channel_closed,
  client_disconnected, no_answer,
}
use redoxide.Protocol.Packet.{RawPacket, read_packet}
use redoxide.State.{stopped, starting, running, stopping, is_stopped, SharedState}
use redoxide.Status.{Json, encode_login_disconnect}
use redoxide.VersionCache.{CacheFormat, CacheDir}
use redoxide.Proxy.Wait.{
  Wait, Branch, probe, keepalive, changed, closed, read, lost, Round, Next, again, finished, bail,
  take_packet, on_packet, and_then, read_client, send_keepalive, disconnect, on_change, on_branch,
  wait_round, wait_loop, drain_answers, begin_wait, drain, wait_for_server_with,
}

-- The errors after which the client is told.
abbrev pub is_told : Error → Bool
is_told start_failed = true
is_told startup_timeout = true
is_told _ = false

module _ (to_string : Json → Bytes) where
  -- What the client is told when the wait fails.
  abbrev pub farewell : Bytes
  farewell = encode_login_disconnect to_string (codes "Server failed to start. Contact admin.")

  -- `P` holds while the loop goes on, and `Q` behind an error.
  pub record Keeps (P : Wait → Type 0) (Q : Error → Wait → Type 0) : Type 0 where
    pub packet :
        (w : Wait) (p : RawPacket) (raw rest : Bytes)
        → read_packet w.stream ≡ ok ((p, raw), rest)
        → P w
        → P (take_packet w p rest)
    pub query : (w : Wait) → P w → P (send_keepalive w)
    pub lose : (w : Wait) (n : ℕ) → P w → P (record w { stream = drop n w.stream })
    pub note : (w : Wait) (x : SharedState) → P w → P (record w { shared = x })
    pub quiet : (e : Error) (w : Wait) → is_told e ≡ false → P w → Q e w
    pub told :
        (e : Error) (w : Wait)
        → is_told e ≡ true
        → P w
        → Q e (record w { written = w.written ++ farewell })

  module _ {P : Wait → Type 0} {Q : Error → Wait → Type 0} (k : Keeps P Q) where
    abbrev pub At : Next → Type 0
    At (again w) = P w
    At (finished w) = P w
    At (bail e w) = Q e w

    read_client-At : (e : Error) (w : Wait) → is_told e ≡ false → P w → At (read_client e w)
    unfolding read_client
    read_client-At e w q h = case (read_packet w.stream) refl
      where
        case :
            (r : Result ((RawPacket × Bytes) × Bytes))
            → read_packet w.stream ≡ r
            → At (on_packet e w r)
        case (ok ((p, raw), rest)) g = k.packet w p raw rest g h
        case (err x) g = k.quiet e w q h
        case panic g = k.quiet e w q h

    and_then-At :
        (x : Next) (f : Wait → Next) → At x → ((v : Wait) → P v → At (f v)) → At (and_then x f)
    unfolding and_then
    and_then-At (again v) f h g = g v h
    and_then-At (finished v) f h g = h
    and_then-At (bail e v) f h g = h

    drain_answers-At : (fuel : ℕ) (w : Wait) → P w → At (drain_answers fuel w)
    unfolding drain_answers
    drain_answers-At zero w h = elim (Bool-cases (w.unanswered == 0)) [
      | inl done ↦ rw done h
      | inr more ↦ rw more h
    ]
    drain_answers-At (suc fuel) w h = elim (Bool-cases (w.unanswered == 0)) [
      | inl done ↦ rw done h
      | inr more ↦ rw more (
          and_then-At (read_client no_answer w) _ (read_client-At no_answer w refl h)
            (λ v g. drain_answers-At fuel v g))
    ]

    drain-At : (x : Next) → At x → At (drain x)
    unfolding drain
    drain-At (again w) h = h
    drain-At (finished w) h = drain_answers-At _ w h
    drain-At (bail e w) h = h

    module _ (format : CacheFormat) (dir : CacheDir) where
      on_branch-At : (b : Branch) (w : Wait) → P w → At (on_branch to_string format dir b w)
      unfolding on_branch on_change disconnect
      on_branch-At (probe none) w h = h
      on_branch-At (probe (some (protocol, version))) w h = k.note w _ h
      on_branch-At (keepalive true) w h = k.query w h
      on_branch-At (keepalive false) w h = k.quiet write_failed w refl h
      on_branch-At (changed running) w h = h
      on_branch-At (changed stopped) w h = k.told start_failed w refl h
      on_branch-At (changed starting) w h = h
      on_branch-At (changed stopping) w h = h
      on_branch-At closed w h = k.quiet channel_closed w refl h
      on_branch-At read w h = read_client-At client_disconnected w refl h

      wait_round-At : (r : Round) (w : Wait) → P w → At (wait_round to_string format dir r w)
      unfolding wait_round disconnect
      wait_round-At r w h = elim (Bool-cases r.late) [
        | inl late ↦ rw late (k.told startup_timeout w refl h)
        | inr early ↦ rw early (on_branch-At r.branch _ (k.lose w (lost r.branch r.taken) h))
      ]

      wait_loop-At : (rs : List Round) (w : Wait) → P w → At (wait_loop to_string format dir rs w)
      unfolding wait_loop
      wait_loop-At [] w h = h
      wait_loop-At (r ∷ rs) w h =
          and_then-At (wait_round to_string format dir r w) _ (wait_round-At r w h)
            (λ v g. wait_loop-At rs v g)

      pub wait_for_server_with-At :
          (rs : List Round) (shared : SharedState) (stream : Bytes)
          → P (begin_wait shared stream)
          → At (wait_for_server_with to_string format dir rs shared stream)
      unfolding wait_for_server_with disconnect
      wait_for_server_with-At rs shared stream h = elim (Bool-cases (is_stopped shared.server)) [
        | inl down ↦ rw down (k.told start_failed _ refl h)
        | inr up ↦ rw up (drain-At _ (wait_loop-At rs _ h))
      ]

    pub At-finished : (x : Next) (w : Wait) → At x → x ≡ finished w → P w
    At-finished (again v) w h e = cc
    At-finished (finished v) w h e = let same : v ≡ w = cc in subst P same h
    At-finished (bail x v) w h e = cc

    pub At-bail : (x : Next) (e : Error) (w : Wait) → At x → x ≡ bail e w → Q e w
    At-bail (again v) e w h g = cc
    At-bail (finished v) e w h g = cc
    At-bail (bail x v) e w h g =
        let same : v ≡ w = cc in
        let cause : x ≡ e = cc in subst (Q e) same (subst (λ y. Q y v) cause h)
