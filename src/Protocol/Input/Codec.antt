-- ===== src/Protocol/Input/Codec.antt =====
-- The codec of the input events of host/src/protocol/types.rs.
use ord.Prelude.{ℕ, ◌^◌, ◌<◌, ◌≡◌, ◌↔◌, ◌⊎◌, refl, List, ◌∷◌, ◌++◌, none, some, arith, length, take}
use ord.Bytes.{IsBytes}
use ord.Protocol.Input.{
  InputEventType, InputEvent, as_u8, from_u8, encode, decode, size, touch_down,
}

-- The fields fit their widths.
pub record FitsWidths (e : InputEvent) : Type 0 where
  pub slot : e.slot < 2 ^ 8
  pub x : e.x < 2 ^ 16
  pub y : e.y < 2 ^ 16
  pub code_or_btn : e.code_or_btn < 2 ^ 32
  pub state_or_flags : e.state_or_flags < 2 ^ 32

-- The numbers that name an event type are exactly the discriminants.
pub from_u8-eq-some : (v : ℕ) (t : InputEventType) → (from_u8 v ≡ some t) ↔ (v ≡ as_u8 t)
unfolding from_u8 as_u8
from_u8-eq-some v touch_down = ground arith
from_u8-eq-some v t = ground arith

pub length-encode : (e : InputEvent) → length (encode e) ≡ size
unfolding encode
length-encode e = refl

-- Decoding reads back an encoded event whose fields fit their widths, whatever follows it in the
-- payload.
pub decode-encode :
    (e : InputEvent) (rest : List ℕ) → FitsWidths e → decode (encode e ++ rest) ≡ some e
unfolding encode decode
decode-encode e rest w = ground arith

-- Of lists of bytes, decoding accepts only those that begin with the encoding of the event that it
-- returns.
pub decode_canonical :
    (bytes : List ℕ) {e : InputEvent}
    → IsBytes bytes
    → decode bytes ≡ some e
    → FitsWidths e × (take size bytes ≡ encode e)
unfolding decode encode
decode_canonical (a ∷ b ∷ c ∷ d ∷ f ∷ g ∷ h ∷ i ∷ j ∷ k ∷ l ∷ m ∷ n ∷ o ∷ rest) hb h' = ground arith
decode_canonical bytes hb h' = ground arith

-- Decoding gives nothing exactly when the payload is short or begins with no event type.
pub decode-eq-none :
    (b : ℕ) (rest : List ℕ)
    → (decode (b ∷ rest) ≡ none) ↔ ((length (b ∷ rest) < size) ⊎ (from_u8 b ≡ none))
unfolding decode
decode-eq-none b (c ∷ d ∷ f ∷ g ∷ h ∷ i ∷ j ∷ k ∷ l ∷ m ∷ n ∷ o ∷ p ∷ rest) = ground arith
decode-eq-none b rest = ground arith
