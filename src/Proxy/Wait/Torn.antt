-- ===== src/Proxy/Wait/Torn.antt =====
-- A read of the client that another branch of the select! ends half way.
use redoxide.Common.{
  ℕ, suc, ◌+◌, ◌≤◌, ◌≡◌, ◌≢◌, refl, sym, ◌∙◌, ap, Bool, true, false, not, ◌&&◌, some, Bytes, List,
  [], ◌∷◌, ◌++◌, none, length, drop, length-append, length-drop, arith, ◌==◌,
}
use redoxide.Outcome.{Result, ok, err, panic, no_answer}
use redoxide.Protocol.Packet.{RawPacket, encode_packet, read_packet}
use redoxide.Protocol.Packet.Framing.{read_packet-Frame}
use redoxide.Protocol.Varint.{read_varint}
use redoxide.Protocol.Varint.Decode.{read_varint_bounds, read_varint_sync-eq}
use redoxide.Proxy.Wait.Drain.{is_ready, ready_branch}
use redoxide.Proxy.Wait.{
  Wait, Branch, probe, keepalive, changed, Round, Next, again, finished, bail, on_change,
  login_plugin_response, on_packet, and_then, read_client, send_keepalive, on_branch, wait_round,
  wait_loop, drain_answers, begin_wait, drain, wait_for_server_with,
}
use redoxide.State
use redoxide.State.{SharedState, is_stopped}
use redoxide.Status.{Json}
use redoxide.VersionCache.{CacheFormat, CacheDir}

length-zero : (s : Bytes) → length s ≡ 0 → s ≡ []
length-zero [] h = refl
length-zero (x ∷ xs) h = absurd (omega arith)

no_varint : (v : ℕ) (rest : Bytes) → read_varint [] ≢ ok (v, rest)
no_varint v rest h =
    let (front, small, split, one, five) = read_varint_bounds [] v rest h in
    let e : length {A = ℕ} [] ≡ length (front ++ rest) = ap length split in
    absurd (omega (arith, e, length-append front rest))

-- A single byte is no packet.
no_packet :
    (src : Bytes) (p : RawPacket) (raw rest : Bytes)
    → length src ≤ 1
    → read_packet src ≢ ok ((p, raw), rest)
no_packet src p raw rest l h =
    let f = read_packet-Frame src h in
    let (front, small, split, one, five) = read_varint_bounds src _ _ f.header in
    let e : length src ≡ length (front ++ (f.buf ++ rest)) = ap length split in
    let none_left : length f.buf ≡ 0 =
      omega (arith, e, length-append front (f.buf ++ rest), length-append f.buf rest) in
    let empty = length-zero f.buf none_left in
    no_varint p.id p.contents (sym (read_varint_sync-eq []) ∙ rw empty at f.first)

drain_answers-torn :
    (fuel : ℕ) (w : Wait)
    → length w.stream ≤ 1
    → (w.unanswered == 0) ≡ false
    → drain_answers (suc fuel) w ≡ bail no_answer w
unfolding drain_answers read_client on_packet and_then
drain_answers-torn fuel w l u = rw u (case (read_packet w.stream) refl)
  where
    case :
        (r : Result ((RawPacket × Bytes) × Bytes))
        → read_packet w.stream ≡ r
        → and_then (on_packet no_answer w r) (λ w'. drain_answers fuel w') ≡ bail no_answer w
    case (ok ((p, raw), rest)) e = absurd (no_packet w.stream p raw rest l e)
    case (err x) e = refl
    case panic e = refl

-- A query, a round in which a probe without a reply ends the read behind `k` bytes, and a round that
-- finds the server ready.
abbrev pub torn_rounds : ℕ → Round → List Round
torn_rounds k r =
    record { late = false; taken = 0; branch = keepalive true }
    ∷ record { late = false; taken = k; branch = probe none }
    ∷ r
    ∷ []

module _ (to_string : Json → Bytes) (format : CacheFormat) (dir : CacheDir) where
  record Kept (x : Next) (w : Wait) (n : ℕ) : Type 0 where
    last : Wait
    ends : x ≡ finished last
    owed : last.unanswered ≡ w.unanswered + n
    sent : last.sent ≡ w.sent + n
    same : (last.stream ≡ w.stream) × (last.answers ≡ w.answers)

  ends_here :
      (x : Next) (w v : Wait)
      → x ≡ finished v
      → v.unanswered ≡ w.unanswered
      → v.sent ≡ w.sent
      → v.stream ≡ w.stream
      → v.answers ≡ w.answers
      → Kept x w 0
  ends_here x w v e u s t a = record {
    last = v;
    ends = e;
    owed = omega (arith, u);
    sent = omega (arith, s);
    same = (t, a);
  }

  ready-Kept :
      (late : Bool) (taken : ℕ) (b : Branch) (w : Wait)
      → not late && ready_branch b ≡ true
      → taken ≡ 0
      → Kept
          (wait_round to_string format dir (record { late = late; taken = taken; branch = b }) w)
          w
          0
  unfolding wait_round on_branch on_change
  ready-Kept false taken (probe (some (p, v))) w h t =
      rw t (ends_here _ w _ refl refl refl refl refl)
  ready-Kept false taken (changed State.running) w h t =
      rw t (ends_here _ w _ refl refl refl refl refl)
  ready-Kept late taken b w h t = ground arith

  last_round-Kept : (x : Next) (w : Wait) → Kept x w 0 → Kept (and_then x (λ v. again v)) w 0
  unfolding and_then
  last_round-Kept x w k =
      rw k.ends (
        ends_here _ w k.last refl (omega (arith, k.owed)) (omega (arith, k.sent)) k.same.0 k.same.1)

  drain-torn :
      (x : Next) (w : Wait)
      → Kept x w 0
      → length w.stream ≤ 1
      → w.unanswered ≡ 1
      → (v : Wait) × (drain x ≡ bail no_answer v)
  unfolding drain
  drain-torn x w k l u =
      (k.last, rw k.ends (drain_answers-torn _ k.last (rw k.same.0 l) (ground (arith, k.owed))))

  -- A client that answers the one query in full is dropped all the same, if a branch of the select!
  -- was taken when the read had all of the answer but its last byte: these bytes are lost with the
  -- read, and the wait ends with an error although the server was found ready in time.
  pub torn_answer :
      (shared : SharedState) (answer : Bytes) (k : ℕ) (r : Round)
      → is_stopped shared.server ≡ false
      → length (encode_packet login_plugin_response answer) ≡ k + 1
      → is_ready r ≡ true
      → r.taken ≡ 0
      → (w : Wait) × (wait_for_server_with to_string format dir
            (torn_rounds k r)
            shared
            (encode_packet login_plugin_response answer)
          ≡ bail no_answer w)
  unfolding wait_for_server_with begin_wait wait_loop wait_round on_branch and_then send_keepalive
  torn_answer shared answer k r up l ready t =
      let w : Wait =
        record (send_keepalive (begin_wait shared (encode_packet login_plugin_response answer))) {
          stream = drop k (encode_packet login_plugin_response answer);
        } in
      let last = length-drop k (encode_packet login_plugin_response answer) in
      rw up (
        drain-torn _ w (last_round-Kept _ w (ready-Kept r.late r.taken r.branch w ready t))
          (omega (arith, last)) refl)
