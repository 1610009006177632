-- ===== src/Session/Wire/Polling.antt =====
-- What one call of `read_packet` of host/src/transport/tcp.rs gets out of a stream of packets.
use ord.Prelude.{
  ℕ, ◌+◌, ◌<◌, ◌≡◌, refl, sym, ap, subst, ◌∙◌, List, [], ◌∷◌, ◌++◌, Bool-cases, inl, inr, ok,
  length, drop, ltb, ltb→lt, ltb→le, append_assoc, append-nil,
}
use ord.Protocol.Packet.{OrdPacket, encode_packet}
use ord.Protocol.Packet.Framing.{IsValid}
use ord.Transport.Tcp.{
  next_packet, Read, received, failed, Outcome, returned, waiting, on_next, read_packet,
}
use ord.Transport.Tcp.Framing.{next_packet_partial, next_packet_whole}
use ord.Transport.Tcp.Chunks.{bytes_of, IsFlowing}

-- A call of `read_packet` returns the packet whose encoding the bytes begin with, or waits with all of
-- them in its buffer while they are too few.
pub data Progress (p : OrdPacket) (tail more bytes : List ℕ) (o : Outcome) : Type 0 where
  got :
      (buf : List ℕ) (reads : List Read)
      → o ≡ returned (ok p) buf reads
      → buf ++ (bytes_of reads ++ more) ≡ tail
      → IsFlowing reads
      → Progress p tail more bytes o
  blocked : o ≡ waiting bytes → length bytes < 16 + length p.payload → Progress p tail more bytes o

module _ (p : OrdPacket) (tail more : List ℕ) (v : IsValid p) where
  Progress-look :
      (buf : List ℕ) (reads : List Read) (later : Outcome)
      → IsFlowing reads
      → buf ++ (bytes_of reads ++ more) ≡ encode_packet p ++ tail
      → (length buf < 16 + length p.payload → Progress p tail more (buf ++ bytes_of reads) later)
      → Progress p tail more (buf ++ bytes_of reads) (on_next (next_packet buf) buf reads later)
  Progress-look buf reads later fl e k =
      elim (Bool-cases (ltb (length buf) (16 + length p.payload))) [
        | inl part ↦
            rw (next_packet_partial p v buf (bytes_of reads ++ more) tail e (ltb→lt _ _ part))
              (k (ltb→lt _ _ part))
        | inr whole ↦
            let (taken, left) =
              next_packet_whole p v buf (bytes_of reads ++ more) tail e (ltb→le _ _ whole) in
            got (drop (16 + length p.payload) buf) reads (ap (λ n. on_next n buf reads later) taken)
              left fl
      ]

  pub read_packet-Progress :
      (buf : List ℕ) (reads : List Read)
      → IsFlowing reads
      → buf ++ (bytes_of reads ++ more) ≡ encode_packet p ++ tail
      → Progress p tail more (buf ++ bytes_of reads) (read_packet buf reads)
  unfolding read_packet
  read_packet-Progress buf [] fl e =
      Progress-look buf [] (waiting buf) fl e
        (λ lt. blocked (ap waiting (sym (append-nil buf))) (rw (append-nil buf) lt))
  read_packet-Progress buf (failed ∷ reads) fl e = elim fl.0 [ ]
  read_packet-Progress buf (received [] ∷ reads) fl e = elim fl.0 [ ]
  read_packet-Progress buf (received (b ∷ bs) ∷ reads) fl e =
      Progress-look buf (received (b ∷ bs) ∷ reads) (read_packet (buf ++ b ∷ bs) reads) fl e (λ _.
        subst (λ t. Progress p tail more t (read_packet (buf ++ b ∷ bs) reads))
          (append_assoc buf (b ∷ bs) (bytes_of reads))
          (read_packet-Progress (buf ++ b ∷ bs) reads fl.1 (
            append_assoc buf (b ∷ bs) (bytes_of reads ++ more)
            ∙ ap (λ t. buf ++ b ∷ t) (sym (append_assoc bs (bytes_of reads) more))
            ∙ e)))

-- Where nothing is left of the stream, a call waits.
pub read_packet-empty :
    (buf more : List ℕ) (reads : List Read)
    → IsFlowing reads
    → buf ++ (bytes_of reads ++ more) ≡ []
    → (read_packet buf reads ≡ waiting []) × (more ≡ [])
unfolding read_packet next_packet
read_packet-empty [] more [] fl e = (refl, e)
read_packet-empty [] more (failed ∷ reads) fl e = elim fl.0 [ ]
read_packet-empty [] more (received [] ∷ reads) fl e = elim fl.0 [ ]
read_packet-empty [] more (received (b ∷ bs) ∷ reads) fl e = cc
read_packet-empty (b ∷ bs) more reads fl e = cc
