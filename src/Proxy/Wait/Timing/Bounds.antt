-- ===== src/Proxy/Wait/Timing/Bounds.antt =====
-- How many queries the intervals of a wait allow.
use redoxide.Common.{
  ℕ, zero, suc, ◌+◌, ◌*◌, ◌≤◌, ◌<◌, ◌≡◌, sym, ◌∙◌, refl, true, false, Bytes, List, [], ◌∷◌, none,
  some, leb, ◌==◌, Bool-cases, inl, inr, arith, length, drop,
}
use redoxide.Outcome.{Error, Result, ok, err, panic, no_answer, client_disconnected}
use redoxide.Protocol.Packet.{RawPacket, read_packet}
use redoxide.Proxy.Wait.{
  Wait, Branch, probe, keepalive, changed, closed, read, lost, Next, again, finished, bail,
  take_packet, on_packet, and_then, read_client, send_keepalive, disconnect, on_change, on_branch,
  wait_round, wait_loop, drain_answers, begin_wait, drain, wait_for_server_with,
}
use redoxide.State.{ServerState, stopped, starting, running, stopping, is_stopped, SharedState}
use redoxide.Status.{Json}
use redoxide.VersionCache.{CacheFormat, CacheDir}
use redoxide.Proxy.Wait.Timing.{
  WaitTiming, default_timing, Moment, schedule, due, ticked, Paced, wait_for_server,
}

abbrev pub sent_of : Next → ℕ
sent_of (again w) = w.sent
sent_of (finished w) = w.sent
sent_of (bail e w) = w.sent

take_packet-sent : (w : Wait) (p : RawPacket) (rest : Bytes) → (take_packet w p rest).sent ≡ w.sent
unfolding take_packet
take_packet-sent w p rest = ground arith

-- Reading an answer sends nothing.
read_client-sent : (e : Error) (w : Wait) → sent_of (read_client e w) ≡ w.sent
unfolding read_client on_packet
read_client-sent e w = case (read_packet w.stream)
  where
    case : (r : Result ((RawPacket × Bytes) × Bytes)) → sent_of (on_packet e w r) ≡ w.sent
    case (ok ((p, raw), rest)) = take_packet-sent w p rest
    case (err x) = refl
    case panic = refl

and_then-sent :
    (x : Next) (f : Wait → Next) (n : ℕ)
    → ((v : Wait) → sent_of (f v) ≡ v.sent)
    → sent_of x ≡ n
    → sent_of (and_then x f) ≡ n
unfolding and_then
and_then-sent (again v) f n k e = k v ∙ e
and_then-sent (finished v) f n k e = e
and_then-sent (bail x v) f n k e = e

drain_answers-sent : (fuel : ℕ) (w : Wait) → sent_of (drain_answers fuel w) ≡ w.sent
unfolding drain_answers
drain_answers-sent zero w = ground arith
drain_answers-sent (suc fuel) w = elim (Bool-cases (w.unanswered == 0)) [
  | inl done ↦ rw done refl
  | inr left ↦ rw left (
      and_then-sent (read_client no_answer w) (λ v. drain_answers fuel v) w.sent
        (λ v. drain_answers-sent fuel v) (read_client-sent no_answer w))
]

drain-sent : (x : Next) → sent_of (drain x) ≡ sent_of x
unfolding drain
drain-sent (again w) = refl
drain-sent (finished w) = drain_answers-sent (suc (length w.stream)) w
drain-sent (bail e w) = refl

module _ (to_string : Json → Bytes) (format : CacheFormat) (dir : CacheDir) (timing : WaitTiming)
    (deadline : ℕ) where
  -- What holds at the start of a round: all ticks that were taken are due.
  record Allowed (now : ℕ) (w : Wait) : Type 0 where
    past : due timing.keepalive_every w.sent ≤ now
    bound : due timing.keepalive_every w.sent < deadline + timing.keepalive_every

  -- A round ends within the bound, and allows the next.
  abbrev Step : Moment → ℕ → Next → Type 0
  Step m n (again v) =
      (v.sent ≡ ticked m.branch n)
      × (due timing.keepalive_every v.sent < deadline + timing.keepalive_every)
  Step m n (finished v) = due timing.keepalive_every v.sent < deadline + timing.keepalive_every
  Step m n (bail e v) = due timing.keepalive_every v.sent < deadline + timing.keepalive_every

  quiet_step :
      (starts ends taken n : ℕ) (x : Next)
      → sent_of x ≡ n
      → due timing.keepalive_every n < deadline + timing.keepalive_every
      → (b : Branch) → ticked b n ≡ n
      → Step (record { starts = starts; ends = ends; taken = taken; branch = b }) n x
  quiet_step starts ends taken n (again v) e h b k = (e ∙ sym k, rw e h)
  quiet_step starts ends taken n (finished v) e h b k = rw e h
  quiet_step starts ends taken n (bail x v) e h b k = rw e h

  on_change-sent :
      (x : ServerState) (w : Wait) → sent_of (on_change to_string format dir x w) ≡ w.sent
  unfolding on_change disconnect
  on_change-sent stopped w = refl
  on_change-sent starting w = refl
  on_change-sent running w = refl
  on_change-sent stopping w = refl

  on_branch-Step :
      (starts ends taken : ℕ) (b : Branch) (w : Wait)
      → starts < deadline
      → due timing.keepalive_every w.sent ≤ starts
      → due timing.keepalive_every w.sent < deadline + timing.keepalive_every
      → Step
          (record { starts = starts; ends = ends; taken = taken; branch = b })
          w.sent
          (on_branch to_string format dir b w)
  unfolding on_branch send_keepalive
  on_branch-Step starts ends taken (probe none) w l p h = (refl, h)
  on_branch-Step starts ends taken (probe (some (protocol, version))) w l p h = h
  on_branch-Step starts ends taken (keepalive true) w l p h = (refl, omega (arith, l, p))
  on_branch-Step starts ends taken (keepalive false) w l p h = h
  on_branch-Step starts ends taken (changed x) w l p h =
      quiet_step starts ends taken w.sent _ (on_change-sent x w) h (changed x) refl
  on_branch-Step starts ends taken closed w l p h = h
  on_branch-Step starts ends taken read w l p h =
      quiet_step starts ends taken w.sent _ (read_client-sent client_disconnected w) h read refl

  wait_loop-bounded :
      (ms : List Moment) (now : ℕ) (w : Wait)
      → Allowed now w
      → Paced timing now w.sent ms
      → due timing.keepalive_every
          (sent_of (wait_loop to_string format dir (schedule deadline ms) w))
        < deadline + timing.keepalive_every
  unfolding wait_loop wait_round disconnect and_then
  wait_loop-bounded [] now w a p = a.bound
  wait_loop-bounded (m ∷ ms) now w a (from, to, ticks, later) =
      elim (Bool-cases (leb deadline m.starts)) [
        | inl late ↦ rw late a.bound
        | inr early ↦
            let v : Wait = record w { stream = drop (lost m.branch m.taken) w.stream } in
            rw early (
              onward (on_branch to_string format dir m.branch v)
                (on_branch-Step m.starts m.ends m.taken m.branch v (ground (arith, early))
                  (omega (arith, a.past, from)) a.bound)
                (λ u e h.
                  wait_loop-bounded ms m.ends u (record { past = rw e ticks; bound = h })
                    (rw e later)))
      ]
    where
      onward :
          (x : Next)
          → Step m w.sent x
          → ((u : Wait)
              → u.sent ≡ ticked m.branch w.sent
              → due timing.keepalive_every u.sent < deadline + timing.keepalive_every
              → due timing.keepalive_every
                  (sent_of (wait_loop to_string format dir (schedule deadline ms) u))
                < deadline + timing.keepalive_every)
          → due timing.keepalive_every
              (sent_of (and_then x (λ u. wait_loop to_string format dir (schedule deadline ms) u)))
            < deadline + timing.keepalive_every
      onward (again u) (e, h) k = k u e h
      onward (finished u) h k = h
      onward (bail x u) h k = h

due-default : (n : ℕ) → due 10_000 n ≡ n * 10_000
due-default zero = omega arith
due-default (suc n) = omega (arith, due-default n)

-- If no tick of the keepalive interval is taken before it is due, a wait sends a query only while
-- the configured timeout has not passed, or as the first behind it: with `n` queries sent, however
-- it ends, n times ten seconds is less than the timeout and ten seconds.
pub wait_for_server-bounded :
    (to_string : Json → Bytes) (format : CacheFormat) (dir : CacheDir) (moments : List Moment)
    (shared : SharedState) (stream : Bytes)
    → Paced default_timing 0 0 moments
    → sent_of (wait_for_server to_string format dir moments shared stream) * 10_000
      < shared.config.docker.startup_timeout_secs * 1_000 + 10_000
unfolding wait_for_server wait_for_server_with disconnect begin_wait
wait_for_server-bounded to_string format dir moments shared stream p =
    let deadline = shared.config.docker.startup_timeout_secs * 1_000 in
    let looped =
      wait_loop-bounded to_string format dir default_timing deadline moments 0
        (begin_wait shared stream) (record { past = omega arith; bound = omega arith }) p in
    let same =
      drain-sent
        (wait_loop to_string format dir (schedule deadline moments) (begin_wait shared stream)) in
    elim (Bool-cases (is_stopped shared.server)) [
      | inl down ↦ rw down (omega arith)
      | inr up ↦ rw (up, same, ← due-default) looped
    ]
