-- ===== src/Protocol/Packet/Framing.antt =====
-- The codec of the whole packet: `OrdPacket::new`, `OrdPacket::encode` and `OrdPacket::decode` of
-- host/src/protocol/packet.rs.
use ord.Prelude.{
  ℕ, ◌+◌, ◌-◌, ◌^◌, ◌≤◌, ◌<◌, ◌≡◌, ◌≢◌, sym, ap, ◌∙◌, List, ◌∷◌, ◌++◌, arith, ok, err, length, drop,
  slice,
}
use ord.Prelude.{append_assoc, take-append, length-append, take-slice-drop, length-slice}
use ord.Bytes.{IsBytes}
use ord.Protocol.Packet.{
  OrdHeader, OrdPacket, io, serialization, encode_header, decode_header, encode_packet,
  decode_packet, new_packet, max_payload_size,
}
use ord.Protocol.Packet.Header.{
  IsWellFormed, length-encode_header, decode_header-encode_header, decode_header_canonical,
}

pub record IsValid (p : OrdPacket) : Type 0 where
  pub header : IsWellFormed p.header
  pub framed : p.header.payload_len ≡ length p.payload

pub length-encode_packet : (p : OrdPacket) → length (encode_packet p) ≡ 16 + length p.payload
unfolding encode_packet
length-encode_packet p =
    omega (arith, length-append (encode_header p.header) p.payload, length-encode_header p.header)

pub slice-encode :
    (h : OrdHeader) (payload rest : List ℕ) (n : ℕ)
    → n ≡ length payload
    → slice 16 (16 + n) (encode_header h ++ (payload ++ rest)) ≡ payload
unfolding encode_header
slice-encode h payload rest n e =
    let cut : 16 + n - 16 ≡ length payload = omega arith in rw cut (take-append payload rest)

pub decode_packet_step :
    (bytes : List ℕ) (h : OrdHeader)
    → decode_header bytes ≡ ok h
    → 16 + h.payload_len ≤ length bytes
    → decode_packet bytes
      ≡ ok (record { header = h; payload = slice 16 (16 + h.payload_len) bytes })
unfolding decode_packet
decode_packet_step bytes h e le = ground arith

-- Decoding reads a valid packet back, whatever follows it in the buffer.
pub decode_packet-encode_packet :
    (p : OrdPacket) (rest : List ℕ) → IsValid p → decode_packet (encode_packet p ++ rest) ≡ ok p
unfolding encode_packet
decode_packet-encode_packet p rest v = rw append_assoc (
    decode_packet_step _ p.header
      (decode_header-encode_header p.header (p.payload ++ rest) v.header)
      (omega (
        arith,
        v.framed,
        length-append (encode_header p.header) (p.payload ++ rest),
        length-append p.payload rest,
        length-encode_header p.header,
      ))
    ∙ ap (λ xs. ok (record { header = p.header; payload = xs }))
        (slice-encode p.header p.payload rest _ v.framed))

pub decode_packet_inv :
    (bytes : List ℕ) {p : OrdPacket}
    → decode_packet bytes ≡ ok p
    → (decode_header bytes ≡ ok p.header)
      × (16 + p.header.payload_len ≤ length bytes)
      × (p.payload ≡ slice 16 (16 + p.header.payload_len) bytes)
unfolding decode_packet
decode_packet_inv bytes h = ground arith

-- Decoding accepts only a buffer that begins with the encoding of a valid packet, which it returns.
pub decode_packet_canonical :
    (bytes : List ℕ) {p : OrdPacket}
    → IsBytes bytes
    → decode_packet bytes ≡ ok p
    → IsValid p × (bytes ≡ encode_packet p ++ drop (16 + length p.payload) bytes)
unfolding encode_packet
decode_packet_canonical bytes {p} hb h =
    let (head, fits, body) = decode_packet_inv bytes h in
    let (wf, starts) = decode_header_canonical bytes hb head in
    let framed : p.header.payload_len ≡ length p.payload =
      sym (ap length body ∙ length-slice 16 p.header.payload_len bytes fits) in
    (
      record { header = wf; framed = framed },
      rw (← framed, ← starts, body, append_assoc)
          (sym (take-slice-drop 16 p.header.payload_len bytes)),
    )

-- A packet made by `OrdPacket::new` from fields of their widths is valid, unless its payload is
-- over the maximum.
pub new_packet-IsValid :
    (msg_type flags sequence : ℕ) (payload : List ℕ)
    → msg_type < 2 ^ 8
    → flags < 2 ^ 16
    → sequence < 2 ^ 32
    → length payload ≤ max_payload_size
    → IsValid (new_packet msg_type flags sequence payload)
unfolding new_packet
new_packet-IsValid msg_type flags sequence payload hm hf hs hp = ground arith

decode_header-io :
    (bytes : List ℕ) → (decode_header bytes ≢ err io) × (decode_header bytes ≢ err serialization)
unfolding decode_header
decode_header-io (a ∷ b ∷ c ∷ d ∷ e ∷ f ∷ g ∷ i ∷ j ∷ k ∷ l ∷ m ∷ n ∷ o ∷ p ∷ q ∷ rest) =
    ground arith
decode_header-io _ = ground arith

-- The reads behind the check of the length never run out: no input gives an IO error.
pub decode_packet-io :
    (bytes : List ℕ) → (decode_packet bytes ≢ err io) × (decode_packet bytes ≢ err serialization)
unfolding decode_packet
decode_packet-io bytes = ground (arith, decode_header-io bytes)
