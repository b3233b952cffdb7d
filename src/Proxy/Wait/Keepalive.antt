-- ===== src/Proxy/Wait/Keepalive.antt =====
-- The queries that were sent and the answers that were read, when a wait ends.
use redoxide.Common.{
  ℕ, zero, suc, ◌+◌, ◌≤◌, ◌≡◌, refl, inl, inr, Bytes, List, [], ◌++◌, append-nil, arith, ◌==◌,
  if◌then◌else◌, Bool-cases,
}
use redoxide.Outcome.{Error}
use redoxide.Protocol.Packet.{RawPacket, as_i32}
use redoxide.State.{SharedState}
use redoxide.Status.{Json, encode_login_plugin_request}
use redoxide.VersionCache.{CacheFormat, CacheDir}
use redoxide.Proxy.Wait.Rule.{
  is_told, farewell, Keeps, At, wait_for_server_with-At, At-finished, At-bail,
}
use redoxide.Proxy.Wait.Drain.{wait_drained}
use redoxide.Proxy.Wait.{
  keepalive_channel, Wait, Round, finished, bail, take_packet, send_keepalive, begin_wait,
  wait_for_server_with,
}

-- The first `n` keepalive queries, as they are written.
abbrev pub queries : ℕ → Bytes
queries zero = []
queries (suc n) = queries n ++ encode_login_plugin_request (as_i32 n) keepalive_channel

-- The loop's variables agree with what was sent and read.
pub record Tally (w : Wait) : Type 0 where
  pub id : w.keepalive_id ≡ as_i32 w.sent
  pub balance : w.sent ≤ w.answers + w.unanswered
  pub queried : w.written ≡ queries w.sent

take_packet-Tally :
    (w : Wait) (p : RawPacket) (rest : Bytes) → Tally w → Tally (take_packet w p rest)
unfolding take_packet
take_packet-Tally w p rest t = elim (Bool-cases (p.id == 2)) [
  | inl answer ↦
      rw answer (record { id = t.id; balance = omega (arith, t.balance); queried = t.queried })
  | inr other ↦ rw other (record { id = t.id; balance = t.balance; queried = t.queried })
]

send_keepalive-Tally : (w : Wait) → Tally w → Tally (send_keepalive w)
unfolding send_keepalive
send_keepalive-Tally w t = record {
  id = omega (arith, t.id);
  balance = omega (arith, t.balance);
  queried = rw (t.queried, t.id);
}

module _ (to_string : Json → Bytes) where
  -- Behind an error the client got all queries, and the disconnect packet where it is told.
  abbrev Told : Error → Wait → Type 0
  Told e w = w.written ≡ queries w.sent ++ (if is_told e then farewell to_string else [])

  Tally-Keeps : Keeps to_string Tally Told
  Tally-Keeps = record {
    packet = λ w p raw rest g t. take_packet-Tally w p rest t;
    query = send_keepalive-Tally;
    lose = λ w n t. record { id = t.id; balance = t.balance; queried = t.queried };
    note = λ w x t. record { id = t.id; balance = t.balance; queried = t.queried };
    quiet = λ e w q t. rw (q, append-nil) t.queried;
    told = λ e w q t. rw (q, t.queried);
  }

  module _ (format : CacheFormat) (dir : CacheDir) where
    wait_for_server_with-Told :
        (rs : List Round) (shared : SharedState) (stream : Bytes)
        → At to_string Tally-Keeps (wait_for_server_with to_string format dir rs shared stream)
    unfolding begin_wait
    wait_for_server_with-Told rs shared stream =
        wait_for_server_with-At to_string Tally-Keeps format dir rs shared stream
          (record { id = refl; balance = omega arith; queried = refl })

    -- A wait that ends well has read at least as many login plugin responses as it sent queries, and
    -- has written nothing to the client but the queries, in order.
    pub wait_answered :
        (rs : List Round) (shared : SharedState) (stream : Bytes) (w : Wait)
        → wait_for_server_with to_string format dir rs shared stream ≡ finished w
        → (w.sent ≤ w.answers) × (w.written ≡ queries w.sent)
    wait_answered rs shared stream w e =
        let t =
          At-finished to_string Tally-Keeps _ w (wait_for_server_with-Told rs shared stream) e in
        (
          omega (arith, t.balance, wait_drained to_string format dir rs shared stream w e),
          t.queried,
        )

    -- A wait that fails has written the queries, in order, and then the disconnect packet where the
    -- start failed or the deadline passed, and nothing more otherwise.
    pub wait_told :
        (rs : List Round) (shared : SharedState) (stream : Bytes) (e : Error) (w : Wait)
        → wait_for_server_with to_string format dir rs shared stream ≡ bail e w
        → w.written ≡ queries w.sent ++ (if is_told e then farewell to_string else [])
    wait_told rs shared stream e w h =
        At-bail to_string Tally-Keeps _ e w (wait_for_server_with-Told rs shared stream) h
