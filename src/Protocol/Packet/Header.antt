-- ===== src/Protocol/Packet/Header.antt =====
-- The codec of the header: `OrdHeader::encode` and `OrdHeader::decode` of
-- host/src/protocol/packet.rs.
use ord.Prelude.{ℕ, ◌^◌, ◌≤◌, ◌<◌, ◌≡◌, refl, List, ◌∷◌, ◌++◌, arith, ok, length, take}
use ord.Bytes.{IsBytes}
use ord.Protocol.Packet.{OrdHeader, encode_header, decode_header, max_payload_size}

-- The headers that a host writes: the fields fit their widths.
pub record IsWellFormed (h : OrdHeader) : Type 0 where
  pub version : h.version ≡ 1
  pub msg_type : h.msg_type < 2 ^ 8
  pub flags : h.flags < 2 ^ 16
  pub sequence : h.sequence < 2 ^ 32
  pub payload_len : h.payload_len ≤ max_payload_size

pub length-encode_header : (h : OrdHeader) → length (encode_header h) ≡ 16
unfolding encode_header
length-encode_header h = refl

pub encode_header-IsBytes : (h : OrdHeader) → IsWellFormed h → IsBytes (encode_header h)
unfolding encode_header
encode_header-IsBytes h w = omega arith

-- Decoding reads a well-formed header back, whatever follows it.
pub decode_header-encode_header :
    (h : OrdHeader) (rest : List ℕ)
    → IsWellFormed h
    → decode_header (encode_header h ++ rest) ≡ ok h
unfolding encode_header decode_header
decode_header-encode_header h rest w = ground arith

-- Decoding accepts nothing but encodings.
pub decode_header_canonical :
    (bytes : List ℕ) {h : OrdHeader}
    → IsBytes bytes
    → decode_header bytes ≡ ok h
    → IsWellFormed h × (take 16 bytes ≡ encode_header h)
unfolding decode_header encode_header
decode_header_canonical (a ∷ b ∷ c ∷ d ∷ e ∷ f ∷ g ∷ i ∷ j ∷ k ∷ l ∷ m ∷ n ∷ o ∷ p ∷ q ∷ rest) hb
      h =
    ground arith
decode_header_canonical bytes hb h = ground arith
