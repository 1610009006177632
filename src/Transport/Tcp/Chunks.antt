-- ===== src/Transport/Tcp/Chunks.antt =====
-- However the network cuts the stream, `read_packet` of host/src/transport/tcp.rs delivers the
-- packets that were written to it.
use ord.Prelude.{
  ℕ, zero, suc, ◌+◌, ◌≤◌, ◌<◌, ◌≡◌, refl, ap, ◌∙◌, List, [], ◌∷◌, ◌++◌, ok, err, arith, length,
  drop, ltb, ltb→lt, ltb→le, Bool-cases, inl, inr, All,
}
use ord.Prelude.{append_assoc, length-append}
use ord.Protocol.Packet.{OrdPacket, encode_packet}
use ord.Protocol.Packet.Framing.{IsValid, length-encode_packet}
use ord.Transport.Tcp.{
  next_packet, Read, received, failed, Outcome, returned, waiting, on_next, read_packet,
}
use ord.Transport.Tcp.Framing.{next_packet_partial, next_packet_whole}

-- The bytes that reads bring, and reads that bring some each time.
abbrev pub bytes_of : List Read → List ℕ
bytes_of [] = []
bytes_of (received bs ∷ reads) = bs ++ bytes_of reads
bytes_of (failed ∷ reads) = bytes_of reads

abbrev pub Brings : Read → Type 0
Brings (received (b ∷ bs)) = Unit
Brings (received []) = ⊥
Brings failed = ⊥

abbrev pub IsFlowing : List Read → Type 0
IsFlowing = All Brings

-- The call returns the packet, and what it leaves in the buffer and in the reads is the tail.
pub record Delivers (p : OrdPacket) (tail : List ℕ) (o : Outcome) : Type 0 where
  pub buf : List ℕ
  pub reads : List Read
  pub is_returned : o ≡ returned (ok p) buf reads
  pub left : buf ++ bytes_of reads ≡ tail
  pub flows : IsFlowing reads

module _ (p : OrdPacket) (tail buf : List ℕ) (reads : List Read) (v : IsValid p)
    (fl : IsFlowing reads) (e : buf ++ bytes_of reads ≡ encode_packet p ++ tail) where
  Delivers-now :
      (more : Outcome)
      → 16 + length p.payload ≤ length buf
      → Delivers p tail (on_next (next_packet buf) buf reads more)
  Delivers-now more le =
      let (taken, left) = next_packet_whole p v buf (bytes_of reads) tail e le in
      record {
        buf = drop (16 + length p.payload) buf;
        reads = reads;
        is_returned = ap (λ n. on_next n buf reads more) taken;
        left = left;
        flows = fl;
      }

  Delivers-later :
      (more : Outcome)
      → (length buf < 16 + length p.payload → Delivers p tail more)
      → Delivers p tail (on_next (next_packet buf) buf reads more)
  Delivers-later more k = elim (Bool-cases (ltb (length buf) (16 + length p.payload))) [
    | inl part ↦
        let waits = next_packet_partial p v buf (bytes_of reads) tail e (ltb→lt _ _ part) in
        rw waits (k (ltb→lt _ _ part))
    | inr whole ↦ Delivers-now more (ltb→le _ _ whole)
  ]

whole_when_done :
    (p : OrdPacket) (tail buf : List ℕ)
    → buf ++ [] ≡ encode_packet p ++ tail
    → 16 + length p.payload ≤ length buf
whole_when_done p tail buf e = omega (
  arith,
  ap length e,
  length-append (encode_packet p) tail,
  length-append buf [],
  length-encode_packet p,
)

-- A call of `read_packet` on a stream that holds a valid packet returns that packet, for every
-- division of the stream into reads, and loses nothing of what follows.
pub read_packet_chunks :
    (p : OrdPacket) (tail buf : List ℕ) (reads : List Read)
    → IsValid p
    → IsFlowing reads
    → buf ++ bytes_of reads ≡ encode_packet p ++ tail
    → Delivers p tail (read_packet buf reads)
unfolding read_packet
read_packet_chunks p tail buf [] v fl e =
    Delivers-now p tail buf [] v fl e (waiting buf) (whole_when_done p tail buf e)
read_packet_chunks p tail buf (failed ∷ reads) v fl e = elim fl.0 [ ]
read_packet_chunks p tail buf (received [] ∷ reads) v fl e = elim fl.0 [ ]
read_packet_chunks p tail buf (received (b ∷ bs) ∷ reads) v fl e =
    Delivers-later p tail buf (received (b ∷ bs) ∷ reads) v fl e (read_packet (buf ++ b ∷ bs) reads)
      (λ _.
        read_packet_chunks p tail (buf ++ b ∷ bs) reads v fl.1
          (append_assoc buf (b ∷ bs) (bytes_of reads) ∙ e))

-- The packets that successive calls of `read_packet` return, until one does not return a packet.
pub read_packets : ℕ → List ℕ → List Read → List OrdPacket
read_packets zero buf reads = []
read_packets (suc n) buf reads = elim (read_packet buf reads) [
  | returned r buf' reads' ↦ elim r [ ok p ↦ p ∷ read_packets n buf' reads' | err _ ↦ [] ]
  | waiting _ ↦ []
]

abbrev pub encode_packets : List OrdPacket → List ℕ
encode_packets [] = []
encode_packets (p ∷ ps) = encode_packet p ++ encode_packets ps

-- The receiver gets the packets that were sent, in their order, for every division of the stream
-- into reads; what follows them on the stream does not matter.
pub read_packets_chunks :
    (ps : List OrdPacket) (tail buf : List ℕ) (reads : List Read)
    → All IsValid ps
    → IsFlowing reads
    → buf ++ bytes_of reads ≡ encode_packets ps ++ tail
    → read_packets (length ps) buf reads ≡ ps
unfolding read_packets
read_packets_chunks [] tail buf reads vs fl e = refl
read_packets_chunks (p ∷ ps) tail buf reads vs fl e =
    let d : Delivers p (encode_packets ps ++ tail) (read_packet buf reads) =
      read_packet_chunks p (encode_packets ps ++ tail) buf reads vs.0 fl
        (e ∙ append_assoc (encode_packet p) (encode_packets ps) tail) in
    rw (d.is_returned, read_packets)
      (ap (λ r. p ∷ r) (read_packets_chunks ps tail d.buf d.reads vs.1 d.flows d.left))
