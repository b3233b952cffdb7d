-- ===== src/Proxy/Wait/Fair.antt =====
-- Waits that go well, for wait_for_server_with of src/proxy.rs: no read is torn, each query is
-- answered behind it, and the server is found ready in time.
pub mod Ends
use redoxide.Common.{
  ℕ, zero, suc, ◌+◌, ◌-◌, ◌≤◌, ◌<◌, ◌≡◌, refl, ◌∙◌, sym, Bool, true, false, Bytes, List, [], ◌∷◌,
  ◌++◌, length, All, none, some, drop, arith, ◌==◌, if◌then◌else◌, Bool-cases, inl, inr,
}
use redoxide.Outcome.{Error, ok, no_answer, client_disconnected}
use redoxide.Protocol.Packet.{RawPacket, max_packet_len, encode_packet, read_packet}
use redoxide.Protocol.Packet.Framing.{read_packet-encode_packet}
use redoxide.Protocol.Varint.{IsI32, encode_varint}
use redoxide.State.{ServerState, stopped, starting, running, stopping, SharedState, is_stopped}
use redoxide.Status.{Json}
use redoxide.VersionCache.{CacheFormat, CacheDir}
use redoxide.Proxy.Wait.Drain.{shorter}
use redoxide.Proxy.Wait.Keepalive.{queries, wait_answered}
use redoxide.Proxy.Wait.{
  Wait, Branch, probe, keepalive, changed, closed, read, lost, Round, Next, again, finished,
  login_plugin_response, take_packet, on_packet, and_then, read_client, send_keepalive, on_branch,
  on_change, wait_round, wait_loop, drain_answers, begin_wait, drain, wait_for_server_with,
}

abbrev pub is_answer : RawPacket → Bool
is_answer p = p.id == login_plugin_response

-- The queries that are unanswered behind a packet.
abbrev pub owed_after : RawPacket → ℕ → ℕ
owed_after p u = if is_answer p then u - 1 else u

-- The client's packets, and what it sends behind them.
pub sends : List RawPacket → Bytes → Bytes
sends [] rest = rest
sends (p ∷ ps) rest = encode_packet p.id p.contents ++ sends ps rest

pub record Fits (p : RawPacket) : Type 0 where
  pub id_fits : IsI32 p.id
  pub fits : length (encode_varint p.id) + length p.contents ≤ max_packet_len

-- The packets answer `u` queries, the last of them with the last packet; others may stand between.
unfoldable pub Answers : ℕ → List RawPacket → Type 0
Answers u [] = u ≡ 0
Answers u (p ∷ ps) = (0 < u) × Answers (owed_after p u) ps

-- What a branch asks of the packets, and of the rounds behind it.
abbrev pub FairBranch : Branch → ℕ → List RawPacket → (ℕ → List RawPacket → Type 0) → Type 0
FairBranch (probe (some v)) u ps rest = Answers u ps
FairBranch (probe none) u ps rest = rest u ps
FairBranch (keepalive true) u ps rest = rest (u + 1) ps
FairBranch (keepalive false) u ps rest = ⊥
FairBranch (changed running) u ps rest = Answers u ps
FairBranch (changed starting) u ps rest = rest u ps
FairBranch (changed stopping) u ps rest = rest u ps
FairBranch (changed stopped) u ps rest = ⊥
FairBranch closed u ps rest = ⊥
FairBranch read u [] rest = ⊥
FairBranch read u (p ∷ ps) rest = (is_answer p ≡ true → 0 < u) × rest (owed_after p u) ps

-- The rounds, with `u` queries unanswered and these packets to come: in time, with no read torn,
-- up to the one that finds the server ready.
unfoldable pub Fair : ℕ → List Round → List RawPacket → Type 0
Fair u [] ps = ⊥
Fair u (r ∷ rs) ps =
    (r.late ≡ false) × (lost r.branch r.taken ≡ 0) × FairBranch r.branch u ps (λ v qs. Fair v rs qs)

-- The queries up to that round.
abbrev pub asked_by : Branch → ℕ → ℕ
asked_by (keepalive true) n = suc n
asked_by (probe (some v)) n = 0
asked_by (changed running) n = 0
asked_by _ n = n

abbrev pub asked : List Round → ℕ
asked [] = 0
asked (r ∷ rs) = asked_by r.branch (asked rs)

read_sent :
    (p : RawPacket) (rest : Bytes)
    → Fits p
    → read_packet (encode_packet p.id p.contents ++ rest)
      ≡ ok ((p, encode_packet p.id p.contents), rest)
read_sent p rest v = read_packet-encode_packet p.id p.contents rest v.id_fits v.fits

-- Reading a packet of the client.
pub read_client-sent :
    (e : Error) (w : Wait) (p : RawPacket) (rest : Bytes)
    → Fits p
    → w.stream ≡ encode_packet p.id p.contents ++ rest
    → read_client e w ≡ again (take_packet w p rest)
unfolding read_client on_packet
read_client-sent e w p rest v s =
    let h : read_packet w.stream ≡ ok ((p, encode_packet p.id p.contents), rest) =
      rw (sym s) at (read_sent p rest v) in
    rw h refl

-- What is kept behind a packet.
pub record Took (w v : Wait) (p : RawPacket) (rest : Bytes) : Type 0 where
  pub stream : v.stream ≡ rest
  pub owed : v.unanswered ≡ owed_after p w.unanswered
  pub sent : v.sent ≡ w.sent

pub take_packet-Took :
    (w : Wait) (p : RawPacket) (rest : Bytes) → Took w (take_packet w p rest) p rest
unfolding take_packet
take_packet-Took w p rest = record {
  stream = ground arith;
  owed = ground arith;
  sent = ground arith;
}

-- The loop behind the wait reads up to the last answer.
pub drain_answers-Answers :
    (ps : List RawPacket) (rest : Bytes) (fuel : ℕ) (w : Wait)
    → All Fits ps
    → w.stream ≡ sends ps rest
    → Answers w.unanswered ps
    → length w.stream < fuel
    → (v : Wait) × (drain_answers fuel w ≡ finished v) × (v.stream ≡ rest) × (v.sent ≡ w.sent)
unfolding drain_answers Answers sends and_then
drain_answers-Answers ps rest zero w a s u f = absurd (omega arith)
drain_answers-Answers [] rest (suc fuel) w a s u f = (w, rw u refl, s, refl)
drain_answers-Answers (p ∷ ps) rest (suc fuel) w a s (some_left, u) f =
    let first = read_client-sent no_answer w p (sends ps rest) a.0 s in
    let less = shorter w.stream (rw (sym s) at (read_sent p (sends ps rest) a.0)) in
    let t = take_packet-Took w p (sends ps rest) in
    let (v, ends, left, sent) =
      drain_answers-Answers ps rest fuel (take_packet w p (sends ps rest)) a.1 t.stream
        (rw t.owed u) (rw t.stream (omega (arith, less, f))) in
    let more : (w.unanswered == 0) ≡ false = ground arith in
    (v, rw (more, first) ends, left, sent ∙ t.sent)
