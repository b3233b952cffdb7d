-- ===== src/Proxy/Wait.antt =====
-- wait_for_server_with of src/proxy.rs: the loop that keeps a client while the server boots, and the
-- reads behind it.
pub mod Rule
pub mod Drain
pub mod Deadline
pub mod Keepalive
pub mod Leftover
pub mod Torn
pub mod Timing
pub mod Fair
use redoxide.Common.{
  ℕ, zero, suc, ◌+◌, ◌-◌, ◌%◌, ◌^◌, Bool, true, false, Bytes, List, [], ◌∷◌, ◌++◌, Option, none,
  some, drop, length, ◌==◌, if◌then◌else◌,
}
use redoxide.Config.{codes}
use redoxide.Outcome.{
  Error, Result, ok, err, panic, write_failed, start_failed, startup_timeout, channel_closed,
  client_disconnected, no_answer,
}
use redoxide.Protocol.Packet.{RawPacket, read_packet, as_i32}
use redoxide.State.{
  ServerState, stopped, starting, running, stopping, is_stopped, SharedState, set_state,
  update_version_info,
}
use redoxide.Status.{Json, encode_login_disconnect, encode_login_plugin_request}
use redoxide.VersionCache.{CacheFormat, CacheDir}

-- Serverbound Login Plugin Response.
abbrev pub login_plugin_response : ℕ
login_plugin_response = 2

abbrev pub keepalive_channel : Bytes
keepalive_channel = codes "redoxide:keepalive"

-- The variables of the loop, with what it works on: the client's bytes that are not read yet, those
-- that were written to the client, and the shared state. `sent` and `answers` are no variables of
-- the code: they count the queries written and the responses read.
pub record Wait : Type 0 where
  pub keepalive_id : ℕ
  pub unanswered : ℕ
  pub stream : Bytes
  pub written : Bytes
  pub shared : SharedState
  pub sent : ℕ
  pub answers : ℕ

-- The branch of `select!` that a round takes: a probe, with the server's version if it replied; a
-- keepalive, and whether its write succeeds; a change of the server state; the end of its channel;
-- the end of a read from the client.
pub data Branch : Type 0 where
  probe : (reply : Option (ℕ × Bytes)) → Branch
  keepalive : (writes : Bool) → Branch
  changed : (current : ServerState) → Branch
  closed : Branch
  read : Branch

-- One round: whether the deadline has passed at its start, its branch, and the number of bytes that
-- the read took before another branch ended it; they are gone with it.
pub record Round : Type 0 where
  pub late : Bool
  pub taken : ℕ
  pub branch : Branch

-- What is gone: nothing of a read that ended.
abbrev pub lost : Branch → ℕ → ℕ
lost read taken = 0
lost _ taken = taken

-- What the loop does next.
pub data Next : Type 0 where
  again : Wait → Next
  finished : Wait → Next
  bail : Error → Wait → Next

-- A packet that was read from the client.
pub take_packet : Wait → RawPacket → Bytes → Wait
take_packet w p rest =
    if p.id == login_plugin_response
    then record w { unanswered = w.unanswered - 1; stream = rest; answers = w.answers + 1 }
    else record w { stream = rest }

on_packet : Error → Wait → Result ((RawPacket × Bytes) × Bytes) → Next
on_packet e w (ok ((p, raw), rest)) = again (take_packet w p rest)
on_packet e w (err x) = bail e w
on_packet e w panic = bail e w

unfoldable pub read_client : Error → Wait → Next
unfolding on_packet take_packet
read_client e w = on_packet e w (read_packet w.stream)

-- The rest of a loop behind one of its rounds.
unfoldable pub and_then : Next → (Wait → Next) → Next
and_then (again w) f = f w
and_then (finished w) f = finished w
and_then (bail e w) f = bail e w

unfoldable pub send_keepalive : Wait → Wait
send_keepalive w = record w {
  written = w.written ++ encode_login_plugin_request w.keepalive_id keepalive_channel;
  keepalive_id = as_i32 (w.keepalive_id + 1);
  unanswered = w.unanswered + 1;
  sent = suc w.sent;
}

-- The loop behind it reads until nothing is unanswered. The stream is what comes within the time
-- limit of each read; a round takes a byte at least, so that its length and one are enough fuel. `again`
-- stands for fuel that ran out.
unfoldable pub drain_answers : ℕ → Wait → Next
drain_answers zero w = if w.unanswered == 0 then finished w else again w
drain_answers (suc fuel) w =
    let more = and_then (read_client no_answer w) (λ w'. drain_answers fuel w') in
    if w.unanswered == 0 then finished w else more

unfoldable pub begin_wait : SharedState → Bytes → Wait
begin_wait shared stream = record {
  keepalive_id = 0;
  unanswered = 0;
  stream = stream;
  written = [];
  shared = shared;
  sent = 0;
  answers = 0;
}

unfoldable pub drain : Next → Next
drain (again w) = again w
drain (finished w) = drain_answers (suc (length w.stream)) w
drain (bail e w) = bail e w

module _ (to_string : Json → Bytes) (format : CacheFormat) (dir : CacheDir) where
  -- The client is told why; whether that write succeeds is ignored.
  unfoldable pub disconnect : Error → Wait → Next
  disconnect e w = bail e (record w {
    written =
        w.written
        ++ encode_login_disconnect to_string (codes "Server failed to start. Contact admin.");
  })

  unfoldable pub on_change : ServerState → Wait → Next
  on_change running w = finished w
  on_change stopped w = disconnect start_failed w
  on_change starting w = again w
  on_change stopping w = again w

  unfoldable pub on_branch : Branch → Wait → Next
  on_branch (probe none) w = again w
  on_branch (probe (some (protocol, version))) w = finished (record w {
    shared = set_state running (update_version_info format dir protocol version w.shared);
  })
  on_branch (keepalive true) w = again (send_keepalive w)
  on_branch (keepalive false) w = bail write_failed w
  on_branch (changed current) w = on_change current w
  on_branch closed w = bail channel_closed w
  on_branch read w = read_client client_disconnected w

  unfoldable pub wait_round : Round → Wait → Next
  wait_round r w =
      if r.late
      then disconnect startup_timeout w
      else on_branch r.branch (record w { stream = drop (lost r.branch r.taken) w.stream })

  -- The loop over the rounds of a schedule; `again` where it goes on behind them.
  unfoldable pub wait_loop : List Round → Wait → Next
  wait_loop [] w = again w
  wait_loop (r ∷ rs) w = and_then (wait_round r w) (λ w'. wait_loop rs w')

  unfoldable pub wait_for_server_with : List Round → SharedState → Bytes → Next
  wait_for_server_with rounds shared stream =
      let w = begin_wait shared stream in
      if is_stopped shared.server then disconnect start_failed w else drain (wait_loop rounds w)
