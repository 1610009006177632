-- ===== src/Protocol/Input/Tests.antt =====
-- Runs of the codec of the input events, after the test of host/src/protocol/types.rs.
use ord.Prelude.{ℕ, ◌≡◌, refl, List, [], ◌∷◌, some, arith, take}
use ord.Bytes.{IsBytes}
use ord.Protocol.Input.{InputEvent, touch_down, size, encode, decode}
use ord.Protocol.Input.Codec.{FitsWidths, decode_canonical}

abbrev press : InputEvent
press = record {
  event_type = touch_down;
  slot = 1;
  x = 32768;
  y = 16384;
  code_or_btn = 0;
  state_or_flags = 1;
}

abbrev press_bytes : List ℕ
press_bytes = 0 ∷ 1 ∷ 0 ∷ 128 ∷ 0 ∷ 64 ∷ 0 ∷ 0 ∷ 0 ∷ 0 ∷ 1 ∷ 0 ∷ 0 ∷ 0 ∷ 99 ∷ []

press_decoded : decode press_bytes ≡ some press
unfolding decode
press_decoded = refl

press_bytes-IsBytes : IsBytes press_bytes
press_bytes-IsBytes = omega arith

decode_canonical_example : FitsWidths press × (take size press_bytes ≡ encode press)
decode_canonical_example = decode_canonical press_bytes press_bytes-IsBytes press_decoded
