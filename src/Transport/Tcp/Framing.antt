-- ===== src/Transport/Tcp/Framing.antt =====
-- What `read_packet` of host/src/transport/tcp.rs sees in its buffer.
use mathlib.Core.List.{tail as rest_of}
use ord.Prelude.{
  ℕ, ◌+◌, ◌≤◌, ◌<◌, ◌≡◌, refl, sym, ap, ◌∙◌, List, [], ◌∷◌, ◌++◌, ok, arith, length, take, drop,
  slice,
}
use ord.Prelude.{append_assoc}
use ord.Bytes.{IsBytes}
use ord.Protocol.Packet.{OrdPacket, decode_header, decode_packet, encode_packet}
use ord.Protocol.Packet.Framing.{
  slice-encode, IsValid, decode_packet_canonical, length-encode_packet,
}
use ord.Protocol.Packet.Errors.{decode_header_of_prefix, decode_header-take}
use ord.Transport.Tcp.{incomplete, complete, next_packet}

-- Of two equal appends, the shorter front is the front of the longer.
front_split :
    (xs ys front back : List ℕ)
    → xs ++ ys ≡ front ++ back
    → length front ≤ length xs
    → (xs ≡ front ++ drop (length front) xs) × (drop (length front) xs ++ ys ≡ back)
front_split xs ys [] back e le = (refl, e)
front_split [] ys (f ∷ front) back e le = elim le [ ]
front_split (x ∷ xs) ys (f ∷ front) back e le =
    ground (arith, ap rest_of e, front_split xs ys front back)

-- The decoded payload of a buffer that begins with a valid packet.
slice_of_packet :
    (p : OrdPacket) (rest : List ℕ)
    → IsValid p
    → slice 16 (16 + p.header.payload_len) (encode_packet p ++ rest) ≡ p.payload
unfolding encode_packet
slice_of_packet p rest v =
    rw append_assoc (slice-encode p.header p.payload rest p.header.payload_len v.framed)

module _ (p : OrdPacket) (v : IsValid p) (buf more tail : List ℕ)
    (e : buf ++ more ≡ encode_packet p ++ tail) where
  header_of_prefix : 16 ≤ length buf → decode_header (take 16 buf) ≡ ok p.header
  header_of_prefix le = decode_header-take buf le ∙ decode_header_of_prefix p buf more tail v le e

  -- While the buffer holds less than the packet, the look at it waits for more.
  pub next_packet_partial : length buf < 16 + length p.payload → next_packet buf ≡ incomplete
  unfolding next_packet
  next_packet_partial lt = ground (arith, v.framed, header_of_prefix)

  -- Once the packet is whole in the buffer, it is taken out, and what follows it stays.
  pub next_packet_whole :
      16 + length p.payload ≤ length buf
      → (next_packet buf ≡ complete p (drop (16 + length p.payload) buf))
        × (drop (16 + length p.payload) buf ++ more ≡ tail)
  unfolding next_packet
  next_packet_whole le =
      let len : length (encode_packet p) ≡ 16 + length p.payload = length-encode_packet p in
      let (front, back) = front_split buf more (encode_packet p) tail e (omega arith) in
      let body : slice 16 (16 + p.header.payload_len) buf ≡ p.payload =
        ap (slice 16 (16 + p.header.payload_len)) front ∙ slice_of_packet p _ v in
      (ground (arith, v.framed, header_of_prefix (omega arith), body), rw (← len) back)

-- A look that takes a packet out agrees with `OrdPacket::decode` of the whole buffer.
next_packet-decode_packet :
    (buf rest : List ℕ) (p : OrdPacket)
    → next_packet buf ≡ complete p rest
    → (decode_packet buf ≡ ok p) × (rest ≡ drop (16 + p.header.payload_len) buf)
unfolding next_packet decode_packet
next_packet-decode_packet buf rest p h = ground (arith, decode_header-take buf)

-- What is taken out of a buffer of bytes is a valid packet, and the buffer began with its encoding.
pub next_packet_canonical :
    (buf rest : List ℕ) (p : OrdPacket)
    → IsBytes buf
    → next_packet buf ≡ complete p rest
    → IsValid p × (buf ≡ encode_packet p ++ rest)
next_packet_canonical buf rest p hb h =
    let (decoded, left) = next_packet-decode_packet buf rest p h in
    let (v, starts) = decode_packet_canonical buf {p = p} hb decoded in
    (
      v,
      starts
          ∙ ap (λ k. encode_packet p ++ drop (16 + k) buf) (sym v.framed)
          ∙ ap (λ r. encode_packet p ++ r) (sym left),
    )
