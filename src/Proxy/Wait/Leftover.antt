-- ===== src/Proxy/Wait/Leftover.antt =====
-- The client's bytes behind a wait are a back part of those before it.
use redoxide.Common.{
  ◌≡◌, refl, sym, ◌∙◌, ap, Bytes, List, [], ◌++◌, append_assoc, take, drop, take-append-drop,
}
use redoxide.Outcome.{ok}
use redoxide.Protocol.Packet.{RawPacket, read_packet}
use redoxide.Protocol.Packet.Framing.{read_packet-Frame}
use redoxide.Protocol.Varint.Decode.{read_varint_bounds}
use redoxide.State.{SharedState}
use redoxide.Status.{Json}
use redoxide.VersionCache.{CacheFormat, CacheDir}
use redoxide.Proxy.Wait.{Wait, Round, finished, send_keepalive, begin_wait, wait_for_server_with}
use redoxide.Proxy.Wait.Drain.{take_packet-stream}
use redoxide.Proxy.Wait.Rule.{Keeps, wait_for_server_with-At, At-finished}

-- `rest` is what is left of `src` behind some of its bytes.
abbrev pub Leaves : Bytes → Bytes → Type 0
Leaves src rest = (front : Bytes) × (src ≡ front ++ rest)

pub Leaves-trans : (a b c : Bytes) → Leaves a b → Leaves b c → Leaves a c
Leaves-trans a b c (f, p) (g, q) = (f ++ g, p ∙ ap (◌++◌ f) q ∙ sym (append_assoc f g c))

pub read_packet-Leaves :
    (src : Bytes) {p : RawPacket} {raw rest : Bytes}
    → read_packet src ≡ ok ((p, raw), rest)
    → Leaves src rest
read_packet-Leaves src {rest} h =
    let f = read_packet-Frame src h in
    let (front, small, split, one, five) = read_varint_bounds src _ _ f.header in
    (front ++ f.buf, split ∙ sym (append_assoc front f.buf rest))

module _ (to_string : Json → Bytes) (src : Bytes) where
  abbrev Behind : Wait → Type 0
  Behind w = Leaves src w.stream

  Behind-Keeps : Keeps to_string Behind (λ e w. Leaves src w.stream)
  unfolding send_keepalive
  Behind-Keeps = record {
    packet = λ w p raw rest g h.
        rw (take_packet-stream w p rest)
          (Leaves-trans src w.stream rest h (read_packet-Leaves w.stream g));
    query = λ w h. h;
    lose = λ w n h.
        Leaves-trans src w.stream (drop n w.stream) h
          (take n w.stream, sym (take-append-drop n w.stream));
    note = λ w x h. h;
    quiet = λ e w q h. h;
    told = λ e w q h. h;
  }

  pub wait_for_server_with-Leaves :
      (format : CacheFormat) (dir : CacheDir) (rs : List Round) (shared : SharedState) (w : Wait)
      → wait_for_server_with to_string format dir rs shared src ≡ finished w
      → Leaves src w.stream
  unfolding begin_wait
  wait_for_server_with-Leaves format dir rs shared w e =
      At-finished to_string Behind-Keeps _ w
        (wait_for_server_with-At to_string Behind-Keeps format dir rs shared src ([], refl)) e
