-- ===== src/Protocol/Packet/Tests.antt =====
-- Runs of the codec of host/src/protocol/packet.rs on concrete packets, after its own tests.
use ord.Prelude.{ℕ, ◌≡◌, refl, List, [], ◌∷◌, ◌++◌, arith, ok, err, take, drop}
use ord.Protocol.Packet.{
  OrdHeader, OrdPacket, incomplete_packet, invalid_magic, encode_header, decode_header,
  encode_packet, decode_packet, new_packet,
}
use ord.Protocol.Packet.Framing.{IsValid, decode_packet-encode_packet, decode_packet_canonical}
use ord.Protocol.Packet.Errors.{decode_header_bad_magic, decode_packet_truncated}

-- A packet of type 0x30 with the payload "Hi".
abbrev hi : OrdPacket
hi = record {
  header = record { version = 1; msg_type = 0x30; flags = 0; sequence = 100; payload_len = 2 };
  payload = 0x48 ∷ 0x69 ∷ [];
}

hi_bytes :
    encode_packet hi
    ≡ 0x4F ∷ 0x52 ∷ 0x44 ∷ 0x31 ∷ 1 ∷ 0x30 ∷ 0 ∷ 0 ∷ 100 ∷ 0 ∷ 0 ∷ 0 ∷ 2 ∷ 0 ∷ 0 ∷ 0 ∷ 0x48 ∷ 0x69
      ∷ []
unfolding encode_packet encode_header
hi_bytes = refl

hi_is_new : new_packet 0x30 0 100 (0x48 ∷ 0x69 ∷ []) ≡ hi
unfolding new_packet
hi_is_new = refl

hi-IsValid : IsValid hi
hi-IsValid = record { header = omega arith; framed = refl }

bad_bytes :
    decode_header (0x42 ∷ 0x41 ∷ 0x44 ∷ 0x31 ∷ 0 ∷ 0 ∷ 0 ∷ 0 ∷ 0 ∷ 0 ∷ 0 ∷ 0 ∷ 0 ∷ 0 ∷ 0 ∷ 0 ∷ [])
    ≡ err (invalid_magic (0x42 ∷ 0x41 ∷ 0x44 ∷ 0x31 ∷ []))
bad_bytes =
    decode_header_bad_magic
      (0x42 ∷ 0x41 ∷ 0x44 ∷ 0x31 ∷ 0 ∷ 0 ∷ 0 ∷ 0 ∷ 0 ∷ 0 ∷ 0 ∷ 0 ∷ 0 ∷ 0 ∷ 0 ∷ 0 ∷ []) (omega arith)
      (λ e. ground (arith, e))

decode_packet-encode_packet_example : decode_packet (encode_packet hi ++ 7 ∷ []) ≡ ok hi
decode_packet-encode_packet_example = decode_packet-encode_packet hi (7 ∷ []) hi-IsValid

abbrev hi_then_more : List ℕ
hi_then_more =
    0x4F ∷ 0x52 ∷ 0x44 ∷ 0x31 ∷ 1 ∷ 0x30 ∷ 0 ∷ 0 ∷ 100 ∷ 0 ∷ 0 ∷ 0 ∷ 2 ∷ 0 ∷ 0 ∷ 0 ∷ 0x48 ∷ 0x69 ∷ 9
    ∷ []

hi_decoded : decode_packet hi_then_more ≡ ok hi
unfolding decode_packet decode_header
hi_decoded = refl

decode_packet_canonical_example :
    IsValid hi × (hi_then_more ≡ encode_packet hi ++ drop 18 hi_then_more)
decode_packet_canonical_example =
    decode_packet_canonical hi_then_more {p = hi} (omega arith) hi_decoded

abbrev old_header : OrdHeader
old_header = record { version = 3; msg_type = 1; flags = 0; sequence = 0; payload_len = 0 }

decode_packet_truncated_example :
    decode_packet (take 17 hi_then_more) ≡ err (incomplete_packet 18 17)
decode_packet_truncated_example =
    decode_packet_truncated hi 0x69 (take 17 hi_then_more) [] hi-IsValid hi_bytes
