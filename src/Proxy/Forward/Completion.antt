-- ===== src/Proxy/Forward/Completion.antt =====
-- A forwarded connection that ends well.
use redoxide.Common.{
  ◌≡◌, refl, ap, Bytes, List, [], ◌∷◌, ◌++◌, append_assoc, none, some, true, take, drop, length,
}
use redoxide.Outcome.{ok}
use redoxide.Proxy.Forward.{
  CopyEvent, fill, flush, close, copy_step, copy_open, Direction, up, down, join, advance,
  join_loop, Link, forward, relay_packets, relay_login,
}

take-whole : (s : Bytes) → (take (length s) s ≡ s) × (drop (length s) s ≡ [])
take-whole [] = (refl, refl)
take-whole (x ∷ xs) = let (a, b) = take-whole xs in (ap (◌∷◌ x) a, b)

abbrev pub fine : Link
fine = record { connects = true; handshake_fails = none; login_fails = none }

-- Each direction reads all that comes, writes it, and closes.
abbrev pub copies_of : Bytes → Bytes → List (Direction × CopyEvent)
copies_of client server =
    (up, fill (length client))
    ∷ (down, fill (length server))
    ∷ (up, flush (length client))
    ∷ (down, flush (length server))
    ∷ (up, close)
    ∷ (down, close)
    ∷ []

-- Over a connection on which nothing fails, forwarding ends well once each side has sent all that
-- it has and closed, and each has got all of it.
pub forward_completes :
    (h l client server : Bytes)
    → forward fine h l client server (copies_of client server)
      ≡ record { to_server = h ++ (l ++ client); to_client = server; ended = some (ok tt) }
unfolding forward relay_packets relay_login join_loop advance join copy_step copy_open
forward_completes h l client server =
    let (a, b) = take-whole client in
    let (c, d) = take-whole server in rw (a, b, c, d) (rw (a, c, append_assoc h l client) refl)
