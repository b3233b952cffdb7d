-- ===== src/Proxy/Wait/Fair/Ends.antt =====
-- How such a wait ends, whatever the order of its rounds.
use redoxide.Common.{
  ℕ, suc, ◌+◌, ◌≡◌, refl, ◌∙◌, Bool, true, false, Bytes, List, [], ◌∷◌, length, All, none, some,
  arith,
}
use redoxide.Outcome.{client_disconnected}
use redoxide.Protocol.Packet.{RawPacket}
use redoxide.State.{stopped, starting, running, stopping, SharedState, is_stopped}
use redoxide.Status.{Json}
use redoxide.VersionCache.{CacheFormat, CacheDir}
use redoxide.Proxy.Wait.Keepalive.{queries, wait_answered}
use redoxide.Proxy.Wait.{
  Wait, Branch, probe, keepalive, changed, closed, read, lost, Round, Next, again, finished,
  take_packet, and_then, send_keepalive, on_branch, on_change, wait_round, wait_loop, begin_wait,
  drain, wait_for_server_with,
}
use redoxide.Proxy.Wait.Fair.{
  sends, Fits, Answers, FairBranch, Fair, asked_by, asked, read_client-sent, take_packet-Took,
  drain_answers-Answers,
}

-- A loop that has ended well, with packets left that answer what is owed.
record Waited (x : Next) (sent : ℕ) (rest : Bytes) : Type 0 where
  last : Wait
  ends : x ≡ finished last
  packets : List RawPacket
  fit : All Fits packets
  left : last.stream ≡ sends packets rest
  owed : Answers last.unanswered packets
  asked : last.sent ≡ sent

module _ (to_string : Json → Bytes) (format : CacheFormat) (dir : CacheDir) (rest : Bytes) where
  -- A round that goes on to `v`.
  further :
      (rs : List Round) (v : Wait) (n m : ℕ)
      → Waited (wait_loop to_string format dir rs v) (v.sent + n) rest
      → v.sent + n ≡ m
      → Waited (and_then (again v) (λ x. wait_loop to_string format dir rs x)) m rest
  unfolding and_then
  further rs v n m k e = record {
    last = k.last;
    ends = k.ends;
    packets = k.packets;
    fit = k.fit;
    left = k.left;
    owed = k.owed;
    asked = k.asked ∙ e;
  }

  branch-Waited :
      (b : Branch) (rs : List Round) (ps : List RawPacket) (w : Wait)
      → ((v : Wait) (qs : List RawPacket)
          → All Fits qs
          → v.stream ≡ sends qs rest
          → Fair v.unanswered rs qs
          → Waited (wait_loop to_string format dir rs v) (v.sent + asked rs) rest)
      → All Fits ps
      → w.stream ≡ sends ps rest
      → FairBranch b w.unanswered ps (λ v qs. Fair v rs qs)
      → Waited
          (and_then (on_branch to_string format dir b w) (λ v. wait_loop to_string format dir rs v))
          (w.sent + asked_by b (asked rs))
          rest
  unfolding on_branch on_change and_then send_keepalive sends
  branch-Waited (probe (some (p, v))) rs ps w ih a s f = record {
    last = _;
    ends = refl;
    packets = ps;
    fit = a;
    left = s;
    owed = f;
    asked = omega arith;
  }
  branch-Waited (changed running) rs ps w ih a s f = record {
    last = _;
    ends = refl;
    packets = ps;
    fit = a;
    left = s;
    owed = f;
    asked = omega arith;
  }
  branch-Waited (probe none) rs ps w ih a s f = ih w ps a s f
  branch-Waited (changed starting) rs ps w ih a s f = ih w ps a s f
  branch-Waited (changed stopping) rs ps w ih a s f = ih w ps a s f
  branch-Waited (keepalive true) rs ps w ih a s f =
      further rs (send_keepalive w) (asked rs) _ (ih (send_keepalive w) ps a s f) (omega arith)
  branch-Waited (keepalive false) rs ps w ih a s f = absurd f
  branch-Waited (changed stopped) rs ps w ih a s f = absurd f
  branch-Waited closed rs ps w ih a s f = absurd f
  branch-Waited read rs [] w ih a s f = absurd f
  branch-Waited read rs (p ∷ ps) w ih a s (causal, f) =
      let t = take_packet-Took w p (sends ps rest) in
      let v = take_packet w p (sends ps rest) in
      let e = read_client-sent client_disconnected w p (sends ps rest) a.0 s in
      rw e (further rs v (asked rs) _ (ih v ps a.1 t.stream (rw t.owed f)) (omega (arith, t.sent)))

  round-Waited :
      (late : Bool) (taken : ℕ) (b : Branch) (rs : List Round) (ps : List RawPacket) (w : Wait)
      → ((v : Wait) (qs : List RawPacket)
          → All Fits qs
          → v.stream ≡ sends qs rest
          → Fair v.unanswered rs qs
          → Waited (wait_loop to_string format dir rs v) (v.sent + asked rs) rest)
      → All Fits ps
      → w.stream ≡ sends ps rest
      → (late ≡ false) × (lost b taken ≡ 0) × FairBranch b w.unanswered ps (λ v qs. Fair v rs qs)
      → Waited
          (and_then
            (wait_round to_string format dir (record { late = late; taken = taken; branch = b }) w)
            (λ v. wait_loop to_string format dir rs v))
          (w.sent + asked_by b (asked rs))
          rest
  unfolding wait_round
  round-Waited late taken b rs ps w ih a s (in_time, whole, f) =
      rw (in_time, whole) (branch-Waited b rs ps w ih a s f)

  wait_loop-Waited :
      (rs : List Round) (ps : List RawPacket) (w : Wait)
      → All Fits ps
      → w.stream ≡ sends ps rest
      → Fair w.unanswered rs ps
      → Waited (wait_loop to_string format dir rs w) (w.sent + asked rs) rest
  unfolding wait_loop Fair
  wait_loop-Waited [] ps w a s f = absurd f
  wait_loop-Waited (r ∷ rs) ps w a s f =
      round-Waited r.late r.taken r.branch rs ps w (λ v qs b t g. wait_loop-Waited rs qs v b t g) a
        s f

  drain-Waited :
      (x : Next) (n : ℕ)
      → Waited x n rest
      → (w : Wait) × (drain x ≡ finished w) × (w.stream ≡ rest) × (w.sent ≡ n)
  unfolding drain
  drain-Waited x n k =
      let (v, ends, left, sent) =
        drain_answers-Answers k.packets rest (suc (length k.last.stream)) k.last k.fit k.left k.owed
          (omega arith) in
      (v, rw k.ends ends, left, sent ∙ k.asked)

  -- A wait for a server that is not Stopped ends well, if its rounds are in time, tear no read and
  -- come to one that finds the server ready, and if the client answers each query behind it, with
  -- whatever other packets in between: the client has got the queries and nothing else, and exactly
  -- the bytes behind the packets that the wait reads (those of its rounds, and then the rest up to
  -- the last answer) are left for the server, however many other packets there were and in whatever
  -- order the rounds came.
  pub wait_fair :
      (shared : SharedState) (rs : List Round) (ps : List RawPacket)
      → is_stopped shared.server ≡ false
      → All Fits ps
      → Fair 0 rs ps
      → (w : Wait) × (wait_for_server_with to_string format dir rs shared (sends ps rest)
          ≡ finished w)
        × (w.stream ≡ rest)
        × (w.sent ≡ asked rs)
        × (w.written ≡ queries (asked rs))
  unfolding wait_for_server_with begin_wait
  wait_fair shared rs ps up a f =
      let (w, e, left, all_sent) =
        drain-Waited _ _ (wait_loop-Waited rs ps (begin_wait shared (sends ps rest)) a refl f) in
      let sent : w.sent ≡ asked rs = omega (arith, all_sent) in
      let ended : wait_for_server_with to_string format dir rs shared (sends ps rest) ≡ finished w =
        rw up e in
      let (enough, written) =
        wait_answered to_string format dir rs shared (sends ps rest) w ended in
      (w, ended, left, sent, rw sent at written)
