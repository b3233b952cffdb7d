-- ===== src/Proxy/Forward/Delivery.antt =====
-- What arrives on either side of a forwarded connection.
use redoxide.Common.{
  ℕ, ◌≡◌, refl, Bytes, List, ◌++◌, append_assoc, Option, none, some, take, drop, take-append-drop,
  Bool-cases, inl, inr,
}
use redoxide.Outcome.{ok}
use redoxide.Proxy.Forward.{
  CopyEvent, Direction, Join, joined, broken, moving, Link, Forwarded, begin_copies, outcome_of,
  cut_off, forward, relay_packets, relay_login,
}
use redoxide.Proxy.Forward.Copies.{Sound, Joins, join_loop-Joins}

-- What was written to either side is a front part of what is to be, and all of it where the
-- forwarding ended well.
pub record Delivered (sent server : Bytes) (f : Forwarded) : Type 0 where
  pub kept_up : Bytes
  pub prefix_up : f.to_server ++ kept_up ≡ sent
  pub kept_down : Bytes
  pub prefix_down : f.to_client ++ kept_down ≡ server
  pub whole : f.ended ≡ some (ok tt) → (f.to_server ≡ sent) × (f.to_client ≡ server)

outcome_of-Delivered :
    (sent server : Bytes) (j : Join) → Joins sent server j → Delivered sent server (outcome_of j)
outcome_of-Delivered sent server (joined t) (s, a, b) = record {
  kept_up = t.upload.held ++ t.upload.unread;
  prefix_up = s.upward.kept;
  kept_down = t.download.held ++ t.download.unread;
  prefix_down = s.downward.kept;
  whole = λ h. (s.upward.done a, s.downward.done b);
}
outcome_of-Delivered sent server (broken t) s = record {
  kept_up = t.upload.held ++ t.upload.unread;
  prefix_up = s.upward.kept;
  kept_down = t.download.held ++ t.download.unread;
  prefix_down = s.downward.kept;
  whole = λ h. cc;
}
outcome_of-Delivered sent server (moving t) s = record {
  kept_up = t.upload.held ++ t.upload.unread;
  prefix_up = s.upward.kept;
  kept_down = t.download.held ++ t.download.unread;
  prefix_down = s.downward.kept;
  whole = λ h. cc;
}

cut_off-Delivered :
    (sent server s rest : Bytes) → s ++ rest ≡ sent → Delivered sent server (cut_off s)
cut_off-Delivered sent server s rest h = record {
  kept_up = rest;
  prefix_up = h;
  kept_down = server;
  prefix_down = refl;
  whole = λ k. cc;
}

begin_copies-Sound :
    (sent client server : Bytes) → Sound (sent ++ client) server (begin_copies sent client server)
begin_copies-Sound sent client server = record {
  upward = record { kept = refl; done = λ h. cc };
  downward = record { kept = refl; done = λ h. cc };
}

relay_packets-Delivered :
    (p q : Option ℕ) (h l client server : Bytes) (es : List (Direction × CopyEvent))
    → Delivered (h ++ (l ++ client)) server (relay_packets p q h l client server es)
unfolding relay_packets relay_login
relay_packets-Delivered (some k) q h l client server es =
    cut_off-Delivered _ server (take k h) (drop k h ++ (l ++ client))
      (rw (← append_assoc (take k h) (drop k h) (l ++ client), take-append-drop k h))
relay_packets-Delivered none (some k) h l client server es =
    cut_off-Delivered _ server (h ++ take k l) (drop k l ++ client) (
      rw (
        append_assoc h (take k l) (drop k l ++ client),
        ← append_assoc (take k l) (drop k l) client,
        take-append-drop k l,
      ))
relay_packets-Delivered none none h l client server es = rw (← append_assoc h l client) (
    outcome_of-Delivered _ server _
      (join_loop-Joins _ server es _ (begin_copies-Sound (h ++ l) client server)))

-- However the forwarding goes, and wherever it fails, the server gets a front part of the handshake,
-- the login start and the client's bytes, in this order, and the client a front part of the
-- server's; where it ends well, both get all of it.
pub forward-Delivered :
    (link : Link) (handshake_raw login_raw client server : Bytes)
    (es : List (Direction × CopyEvent))
    → Delivered
        (handshake_raw ++ (login_raw ++ client))
        server
        (forward link handshake_raw login_raw client server es)
unfolding forward
forward-Delivered link h l client server es = elim (Bool-cases link.connects) [
  | inl up_link ↦
      rw up_link
        (relay_packets-Delivered link.handshake_fails link.login_fails h l client server es)
  | inr no_link ↦ rw no_link (record {
    kept_up = h ++ (l ++ client);
    prefix_up = refl;
    kept_down = server;
    prefix_down = refl;
    whole = λ k. cc;
  })
]
