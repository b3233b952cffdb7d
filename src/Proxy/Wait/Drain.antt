-- ===== src/Proxy/Wait/Drain.antt =====
-- The loop that reads the outstanding answers, and what a wait needs to end well.
use redoxide.Common.{
  ℕ, zero, suc, ◌≤◌, ◌<◌, ◌≡◌, refl, ap, ◌&&◌, ◌⊎◌, inl, inr, Bool, true, false, Bytes, List, [],
  ◌∷◌, ◌++◌, length, length-append, some, arith, ◌==◌, Bool-cases, not,
}
use redoxide.Outcome.{Result, ok, err, panic, no_answer}
use redoxide.Protocol.Packet.{RawPacket, read_packet}
use redoxide.Protocol.Packet.Framing.{read_packet-Frame}
use redoxide.Protocol.Varint.Decode.{read_varint_bounds}
use redoxide.State.{running, is_stopped, SharedState}
use redoxide.Status.{Json}
use redoxide.VersionCache.{CacheFormat, CacheDir}
use redoxide.Proxy.Wait.{
  Wait, Branch, probe, changed, Round, Next, again, finished, bail, take_packet, on_packet,
  and_then, read_client, disconnect, on_branch, on_change, wait_round, wait_loop, drain_answers,
  drain, wait_for_server_with,
}

-- No result: the loop would go on.
abbrev pub goes_on : Next → Bool
goes_on (again w) = true
goes_on _ = false

pub take_packet-stream :
    (w : Wait) (p : RawPacket) (rest : Bytes) → (take_packet w p rest).stream ≡ rest
unfolding take_packet
take_packet-stream w p rest = ground arith

pub take_packet-written :
    (w : Wait) (p : RawPacket) (rest : Bytes) → (take_packet w p rest).written ≡ w.written
unfolding take_packet
take_packet-written w p rest = ground arith

on_packet-zero :
    (fuel : ℕ) (w v : Wait) (r : Result ((RawPacket × Bytes) × Bytes))
    → ((x : Wait) → drain_answers fuel x ≡ finished v → v.unanswered ≡ 0)
    → and_then (on_packet no_answer w r) (λ x. drain_answers fuel x) ≡ finished v
    → v.unanswered ≡ 0
unfolding on_packet and_then
on_packet-zero fuel w v (ok ((p, raw), rest)) ih h = ih (take_packet w p rest) h
on_packet-zero fuel w v (err x) ih h = cc
on_packet-zero fuel w v panic ih h = cc

drain_answers-zero : (fuel : ℕ) (w v : Wait) → drain_answers fuel w ≡ finished v → v.unanswered ≡ 0
unfolding drain_answers read_client
drain_answers-zero zero w v e = ground arith
drain_answers-zero (suc fuel) w v e = elim (Bool-cases (w.unanswered == 0)) [
  | inl done ↦ ground arith
  | inr more ↦
      on_packet-zero fuel w v (read_packet w.stream) (λ x h. drain_answers-zero fuel x v h)
        (rw more at e)
]

-- A packet that is read takes a byte at least.
pub shorter :
    (src : Bytes) {p : RawPacket} {raw rest : Bytes}
    → read_packet src ≡ ok ((p, raw), rest)
    → length rest < length src
shorter src {rest} h =
    let f = read_packet-Frame src h in
    let (front, small, split, one, five) = read_varint_bounds src _ _ f.header in
    let e : length src ≡ length (front ++ (f.buf ++ rest)) = ap length split in
    omega (arith, e, length-append front (f.buf ++ rest), length-append f.buf rest)

on_packet-ends :
    (fuel : ℕ) (w : Wait) (r : Result ((RawPacket × Bytes) × Bytes))
    → read_packet w.stream ≡ r
    → ((x : Wait) → length x.stream < fuel → goes_on (drain_answers fuel x) ≡ false)
    → length w.stream ≤ fuel
    → goes_on (and_then (on_packet no_answer w r) (λ x. drain_answers fuel x)) ≡ false
unfolding on_packet and_then
on_packet-ends fuel w (ok ((p, raw), rest)) e ih h =
    ih (take_packet w p rest) (rw take_packet-stream (omega (arith, shorter w.stream e)))
on_packet-ends fuel w (err x) e ih h = refl
on_packet-ends fuel w panic e ih h = refl

-- One more than the length of the stream is fuel enough.
drain_answers_ends :
    (fuel : ℕ) (w : Wait) → length w.stream < fuel → goes_on (drain_answers fuel w) ≡ false
unfolding drain_answers read_client
drain_answers_ends zero w h = absurd (omega arith)
drain_answers_ends (suc fuel) w h = elim (Bool-cases (w.unanswered == 0)) [
  | inl done ↦ rw done refl
  | inr more ↦ rw more (
      on_packet-ends fuel w (read_packet w.stream) refl (λ x k. drain_answers_ends fuel x k)
        (omega arith))
]

drain-zero : (x : Next) (v : Wait) → drain x ≡ finished v → v.unanswered ≡ 0
unfolding drain
drain-zero (again w) v e = cc
drain-zero (finished w) v e = drain_answers-zero (suc (length w.stream)) w v e
drain-zero (bail x w) v e = cc

-- A round after which the loop ends well: a reply to a probe, or the news that the server runs.
abbrev pub ready_branch : Branch → Bool
ready_branch (probe (some reply)) = true
ready_branch (changed running) = true
ready_branch _ = false

abbrev pub is_ready : Round → Bool
is_ready r = not r.late && ready_branch r.branch

-- Some round of the schedule is such a round.
abbrev pub SomeReady : List Round → Type 0
SomeReady [] = ⊥
SomeReady (r ∷ rs) = (is_ready r ≡ true) ⊎ SomeReady rs

module _ (to_string : Json → Bytes) (format : CacheFormat) (dir : CacheDir) where
  pub wait_drained :
      (rs : List Round) (shared : SharedState) (stream : Bytes) (w : Wait)
      → wait_for_server_with to_string format dir rs shared stream ≡ finished w
      → w.unanswered ≡ 0
  unfolding wait_for_server_with disconnect
  wait_drained rs shared stream w e = elim (Bool-cases (is_stopped shared.server)) [
    | inl down ↦ cc (rw down at e)
    | inr up ↦ drain-zero (wait_loop to_string format dir rs _) w (rw up at e)
  ]

  pub wait_round-ready :
      (r : Round) (w v : Wait)
      → wait_round to_string format dir r w ≡ finished v
      → is_ready r ≡ true
  unfolding wait_round on_branch on_change disconnect read_client on_packet
  wait_round-ready r w v e = ground arith

  wait_loop-ready :
      (rs : List Round) (w v : Wait)
      → wait_loop to_string format dir rs w ≡ finished v
      → SomeReady rs
  unfolding wait_loop and_then
  wait_loop-ready [] w v e = cc
  wait_loop-ready (r ∷ rs) w v e =
      go (wait_round to_string format dir r w) refl e (λ y h. wait_loop-ready rs y v h)
    where
      go :
          (x : Next)
          → wait_round to_string format dir r w ≡ x
          → and_then x (λ y. wait_loop to_string format dir rs y) ≡ finished v
          → ((y : Wait) → wait_loop to_string format dir rs y ≡ finished v → SomeReady rs)
          → SomeReady (r ∷ rs)
      go (again y) k h ih = inr (ih y h)
      go (finished y) k h ih = inl (wait_round-ready r w y k)
      go (bail x y) k h ih = cc

  drain-finished : (x : Next) (v : Wait) → drain x ≡ finished v → (w : Wait) × (x ≡ finished w)
  unfolding drain
  drain-finished (again w) v e = cc
  drain-finished (finished w) v e = (w, refl)
  drain-finished (bail x w) v e = cc

  -- A wait ends well only if the server was not Stopped at its start, and a probe was answered or
  -- the state became Running, before the deadline.
  pub wait_ready :
      (rs : List Round) (shared : SharedState) (stream : Bytes) (w : Wait)
      → wait_for_server_with to_string format dir rs shared stream ≡ finished w
      → (is_stopped shared.server ≡ false) × SomeReady rs
  unfolding wait_for_server_with disconnect
  wait_ready rs shared stream w e = elim (Bool-cases (is_stopped shared.server)) [
    | inl down ↦ cc (rw down at e)
    | inr up ↦
        let (v, k) = drain-finished (wait_loop to_string format dir rs _) w (rw up at e) in
        (up, wait_loop-ready rs _ v k)
  ]
