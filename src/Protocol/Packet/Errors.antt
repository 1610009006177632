-- ===== src/Protocol/Packet/Errors.antt =====
-- What `OrdHeader::decode` and `OrdPacket::decode` of host/src/protocol/packet.rs refuse.
use ord.Prelude.{
  ℕ, ◌+◌, ◌%◌, ◌^◌, ◌≤◌, ◌<◌, ◌≡◌, ◌≢◌, sym, ap, ◌∙◌, List, [], ◌∷◌, ◌++◌, arith, ok, err, length,
  take, drop, ltb, ◌==◌, if◌then◌else◌,
}
use ord.Prelude.{
  append_assoc, length-append, length-take, lt→ltb, append-nil, take-append-drop, inl, inr,
  Bool-cases, ltb→lt, ltb→le,
}
use ord.Protocol.Packet.{
  OrdHeader, OrdPacket, payload_too_large, unsupported_version, invalid_magic, incomplete_packet,
  encode_header, decode_header, encode_packet, decode_packet, max_payload_size, ord_magic,
  new_header, new_packet,
}
use ord.Protocol.Packet.Header.{decode_header-encode_header}
use ord.Protocol.Packet.Framing.{IsValid, length-encode_packet}

-- Fields of their widths, with any version and any length.
pub record FitsWidths (h : OrdHeader) : Type 0 where
  pub version : h.version < 2 ^ 8
  pub msg_type : h.msg_type < 2 ^ 8
  pub flags : h.flags < 2 ^ 16
  pub sequence : h.sequence < 2 ^ 32
  pub payload_len : h.payload_len < 2 ^ 32

-- The version is checked first, and the length after it: each refusal names the value that it met.
pub decode_header_checks :
    (h : OrdHeader) (rest : List ℕ)
    → FitsWidths h
    → decode_header (encode_header h ++ rest) ≡ (
        if h.version == 1
        then (if ltb max_payload_size h.payload_len
            then err (payload_too_large h.payload_len)
            else ok h)
        else err (unsupported_version h.version))
unfolding encode_header decode_header
decode_header_checks h rest w = ground arith

-- What does not begin with the magic is refused with the four bytes that stand there.
pub decode_header_bad_magic :
    (bytes : List ℕ)
    → 16 ≤ length bytes
    → take 4 bytes ≢ ord_magic
    → decode_header bytes ≡ err (invalid_magic (take 4 bytes))
unfolding decode_header
decode_header_bad_magic (a ∷ b ∷ c ∷ d ∷ e ∷ f ∷ g ∷ i ∷ j ∷ k ∷ l ∷ m ∷ n ∷ o ∷ p ∷ q ∷ rest) le
      ne =
    ground arith
decode_header_bad_magic bytes le ne = absurd (omega arith)

-- Beyond sixteen bytes the header does not look.
pub decode_header-append :
    (xs ys : List ℕ) → 16 ≤ length xs → decode_header (xs ++ ys) ≡ decode_header xs
unfolding decode_header
decode_header-append (a ∷ b ∷ c ∷ d ∷ e ∷ f ∷ g ∷ i ∷ j ∷ k ∷ l ∷ m ∷ n ∷ o ∷ p ∷ q ∷ rest) ys le =
    ground arith
decode_header-append xs ys le = absurd (omega arith)

pub decode_header-take :
    (xs : List ℕ) → 16 ≤ length xs → decode_header (take 16 xs) ≡ decode_header xs
decode_header-take xs le =
    sym (decode_header-append (take 16 xs) (drop 16 xs) (omega (arith, length-take 16 xs le)))
    ∙ ap decode_header (take-append-drop 16 xs)

-- The header of a packet is read from any sixteen bytes or more of a stream that begins with it.
pub decode_header_of_prefix :
    (p : OrdPacket) (xs ys tail : List ℕ)
    → IsValid p
    → 16 ≤ length xs
    → xs ++ ys ≡ encode_packet p ++ tail
    → decode_header xs ≡ ok p.header
unfolding encode_packet
decode_header_of_prefix p xs ys tail v le e =
    sym (decode_header-append xs ys le)
    ∙ ap decode_header (e ∙ append_assoc (encode_header p.header) p.payload tail)
    ∙ decode_header-encode_header p.header (p.payload ++ tail) v.header

decode_header_short :
    (xs : List ℕ) → length xs < 16 → decode_header xs ≡ err (incomplete_packet 16 (length xs))
unfolding decode_header
decode_header_short xs lt = rw (lt→ltb (length xs) 16 lt)

-- A proper prefix of an encoded packet is refused as incomplete: first the header is wanted, then
-- the whole packet.
pub decode_packet_truncated :
    (p : OrdPacket) (x : ℕ) (front back : List ℕ)
    → IsValid p
    → encode_packet p ≡ front ++ x ∷ back
    → decode_packet front
      ≡ err (
          incomplete_packet
            (if ltb (length front) 16 then 16 else 16 + length p.payload)
            (length front))
unfolding decode_packet
decode_packet_truncated p x front back v e = elim (Bool-cases (ltb (length front) 16)) [
  | inl short ↦ rw (short, decode_header_short front (ltb→lt _ _ short))
  | inr long ↦ ground (
    arith,
    v.framed,
    decode_header_of_prefix p front (x ∷ back) [] v (ltb→le _ _ long)
        (sym e ∙ sym (append-nil (encode_packet p))),
    length-append front (x ∷ back),
    ap length e,
    length-encode_packet p,
  )
]

-- `OrdPacket::new` does not check the size: of a payload over the maximum it makes a packet that no
-- receiver decodes.
pub decode_packet_oversized :
    (msg_type flags sequence : ℕ) (payload rest : List ℕ)
    → msg_type < 2 ^ 8
    → flags < 2 ^ 16
    → sequence < 2 ^ 32
    → max_payload_size < length payload
    → length payload < 2 ^ 32
    → decode_packet (encode_packet (new_packet msg_type flags sequence payload) ++ rest)
      ≡ err (payload_too_large (length payload))
unfolding decode_packet encode_packet new_packet
decode_packet_oversized msg_type flags sequence payload rest hm hf hs over fits =
    let h : OrdHeader = new_header msg_type flags sequence (length payload % 2 ^ 32) in
    let fits_widths : FitsWidths h = unfold new_header in omega arith in
    let len : length payload % 2 ^ 32 ≡ length payload = omega arith in
    rw append_assoc (ground (arith, len, decode_header_checks h (payload ++ rest) fits_widths))
