-- ===== src/Session/Reader/Scanning.antt =====
-- What the loop over the accumulator of the USB read worker does to the bytes (host/src/session/mod.rs).
use ord.Prelude.{
  ℕ, inl, inr, Result-cases, slice, All-take, drop-take, ◌+◌, ◌≤◌, ◌<◌, ◌≡◌, sym, ap, ◌∙◌, List,
  ◌++◌, ok, err, arith, length, take, drop,
}
use ord.Prelude.{
  length-append, take-append-drop, length-take, length-drop, take-append_short, drop-append_short,
  append-nil, Result,
}
use ord.Bytes.{IsByte, IsBytes}
use ord.Protocol.Packet.{
  OrdHeader, OrdPacket, PacketError, decode_header, decode_packet, encode_packet,
}
use ord.Protocol.Packet.Framing.{IsValid, decode_packet_step, decode_packet_canonical}
use ord.Protocol.Packet.Errors.{decode_header-append}
use ord.Session.Reader.{emit, skip, round}

-- What a round that emits has seen.
pub record Emits (acc rest : List ℕ) (r : Result PacketError OrdPacket) : Type 0 where
  pub header : OrdHeader
  pub decoded : decode_header acc ≡ ok header
  pub fits : 16 + header.payload_len ≤ length acc
  pub result : r ≡ decode_packet (take (16 + header.payload_len) acc)
  pub left : rest ≡ drop (16 + header.payload_len) acc

pub round-Emits :
    (acc rest : List ℕ) (r : Result PacketError OrdPacket)
    → round acc ≡ emit r rest
    → Emits acc rest r
unfolding round
round-Emits acc rest r h = elim (Result-cases (decode_header acc)) [
  | inl (header, e) ↦ record {
    header = header;
    decoded = e;
    fits = ground (arith, e);
    result = ground (arith, e);
    left = ground (arith, e);
  }
  | inr (x, e) ↦ absurd (ground (arith, e))
]

-- What a round that skips has seen.
pub record Skips (acc rest : List ℕ) : Type 0 where
  pub error : PacketError
  pub long : 16 ≤ length acc
  pub refused : decode_header acc ≡ err error
  pub left : rest ≡ drop 1 acc

pub round-Skips : (acc rest : List ℕ) → round acc ≡ skip rest → Skips acc rest
unfolding round
round-Skips acc rest h = elim (Result-cases (decode_header acc)) [
  | inl (header, e) ↦ absurd (ground (arith, e))
  | inr (x, e) ↦ record {
    error = x;
    long = ground (arith, e);
    refused = e;
    left = ground (arith, e);
  }
]

-- A round that goes on takes a byte at least.
pub emit-length :
    (acc rest : List ℕ) (r : Result PacketError OrdPacket)
    → round acc ≡ emit r rest
    → length rest < length acc
emit-length acc rest r h =
    let s = round-Emits acc rest r h in
    omega (arith, s.fits, ap length s.left, length-drop (16 + s.header.payload_len) acc)

pub skip-length : (acc rest : List ℕ) → round acc ≡ skip rest → length rest < length acc
skip-length acc rest h =
    let s = round-Skips acc rest h in omega (arith, s.long, ap length s.left, length-drop 1 acc)

-- The bytes that a round takes out of a buffer of bytes are the encoding of a valid packet, and it
-- is decoded: nothing that is drained is lost.
pub emit-canonical :
    (acc rest : List ℕ) (r : Result PacketError OrdPacket)
    → IsBytes acc
    → round acc ≡ emit r rest
    → (p : OrdPacket) × (r ≡ ok p) × IsValid p × (acc ≡ encode_packet p ++ rest)
emit-canonical acc rest r hb h =
    let s = round-Emits acc rest r h in
    let total = 16 + s.header.payload_len in
    let body = take total acc in
    let len : length body ≡ total = length-take total acc s.fits in
    let head : decode_header body ≡ ok s.header =
      sym (decode_header-append body (drop total acc) (omega (arith, len)))
      ∙ ap decode_header (take-append-drop total acc)
      ∙ s.decoded in
    let p : OrdPacket = record { header = s.header; payload = slice 16 total body } in
    let done : decode_packet body ≡ ok p = decode_packet_step body s.header head (omega arith) in
    let (v, e) = decode_packet_canonical body {p = p} (All-take IsByte total acc hb) done in
    let exact : body ≡ encode_packet p =
      e
      ∙ ap (λ k. encode_packet p ++ drop (16 + k) body) (sym v.framed)
      ∙ ap (λ t. encode_packet p ++ t) (drop-take total acc)
      ∙ append-nil (encode_packet p) in
    (
      p,
      s.result ∙ done,
      v,
      sym (take-append-drop total acc)
          ∙ ap (λ t. t ++ drop total acc) exact
          ∙ ap (λ t. encode_packet p ++ t) (sym s.left),
    )

-- What a round does, it does whatever follows the bytes that it looked at.
pub emit-append :
    (acc rest more : List ℕ) (r : Result PacketError OrdPacket)
    → round acc ≡ emit r rest
    → round (acc ++ more) ≡ emit r (rest ++ more)
unfolding round
emit-append acc rest more r h =
    let s = round-Emits acc rest r h in
    let total = 16 + s.header.payload_len in
    ground (
      arith,
      length-append acc more,
      decode_header-append acc more,
      s.decoded,
      s.fits,
      s.result,
      s.left,
      take-append_short total acc more,
      drop-append_short total acc more,
    )

pub skip-append :
    (acc rest more : List ℕ) → round acc ≡ skip rest → round (acc ++ more) ≡ skip (rest ++ more)
unfolding round
skip-append acc rest more h =
    let s = round-Skips acc rest h in
    ground (
      arith,
      length-append acc more,
      decode_header-append acc more,
      s.long,
      s.refused,
      s.left,
      drop-append_short 1 acc more,
    )
