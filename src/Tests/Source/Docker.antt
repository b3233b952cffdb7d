-- ===== src/Tests/Source/Docker.antt =====
-- The tests of src/docker.rs. What is written to one end of the pipe is what the other end reads.
use redoxide.Common.{◌+◌, Bool, true, ◌&&◌, ◌≡◌, refl, ◌==◌}
use redoxide.Common.Utf8.{from_utf8_lossy}
use redoxide.Config.{codes}
use redoxide.Config.Text.{same_text}
use redoxide.Docker.Rcon.{rcon_send, rcon_recv, to_le_bytes, from_le_bytes, max_rcon_packet_len}
use redoxide.Outcome.{value_of}
use redoxide.Tests.Source.{unwrap, is_err}

abbrev test_rcon_send_recv_round_trip : Bool
test_rcon_send_recv_round_trip =
    unwrap (value_of (rcon_recv (rcon_send 7 2 (codes "stop"))))
      (λ p. p.id == 7 && p.pkt_type == 2 && same_text p.payload (codes "stop"))

rcon_round_trip : test_rcon_send_recv_round_trip ≡ true
unfolding rcon_send rcon_recv to_le_bytes from_le_bytes same_text from_utf8_lossy
rcon_round_trip = refl

abbrev test_rcon_recv_rejects_negative_length : Bool
test_rcon_recv_rejects_negative_length = is_err (rcon_recv (to_le_bytes 0xffff_ffff))

rejects_negative_rcon : test_rcon_recv_rejects_negative_length ≡ true
unfolding rcon_recv to_le_bytes from_le_bytes
rejects_negative_rcon = refl

abbrev test_rcon_recv_rejects_oversized_length : Bool
test_rcon_recv_rejects_oversized_length = is_err (rcon_recv (to_le_bytes (max_rcon_packet_len + 1)))

rejects_oversized_rcon : test_rcon_recv_rejects_oversized_length ≡ true
unfolding rcon_recv to_le_bytes from_le_bytes
rejects_oversized_rcon = refl
