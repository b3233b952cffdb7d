-- ===== src/Tests/Source/Varint.antt =====
-- The tests of src/protocol/varint.rs.
use redoxide.Common.{Bool, true, ◌&&◌, ◌≡◌, refl, ◌==◌, [], ◌∷◌}
use redoxide.Config.Text.{same_text}
use redoxide.Outcome.{value_of}
use redoxide.Protocol.Varint.{encode_varint, read_varint, read_varint_sync}
use redoxide.Tests.Source.{unwrap, all}

abbrev test_encode_varint_known_values : Bool
test_encode_varint_known_values =
    same_text (encode_varint 0) (0x00 ∷ [])
    && same_text (encode_varint 1) (0x01 ∷ [])
    && same_text (encode_varint 127) (0x7f ∷ [])
    && same_text (encode_varint 128) (0x80 ∷ 0x01 ∷ [])
    && same_text (encode_varint 255) (0xff ∷ 0x01 ∷ [])
    && same_text (encode_varint 2_097_151) (0xff ∷ 0xff ∷ 0x7f ∷ [])
    && same_text (encode_varint 0xffff_ffff) (0xff ∷ 0xff ∷ 0xff ∷ 0xff ∷ 0x0f ∷ [])

known_values : test_encode_varint_known_values ≡ true
unfolding encode_varint same_text
known_values = refl

abbrev test_round_trip_async : Bool
test_round_trip_async =
    all (λ val. unwrap (value_of (read_varint (encode_varint val))) (λ decoded. decoded == val))
      (0 ∷ 1 ∷ 127 ∷ 128 ∷ 255 ∷ 769 ∷ 2_097_151 ∷ 0xffff_ffff ∷ 0x7fff_ffff ∷ [])

round_trip_async : test_round_trip_async ≡ true
unfolding encode_varint read_varint
round_trip_async = refl

abbrev test_round_trip_sync : Bool
test_round_trip_sync =
    all
      (λ val. unwrap (value_of (read_varint_sync (encode_varint val))) (λ decoded. decoded == val))
      (0 ∷ 1 ∷ 128 ∷ 769 ∷ 0xffff_ffff ∷ [])

round_trip_sync : test_round_trip_sync ≡ true
unfolding encode_varint read_varint_sync
round_trip_sync = refl
