-- ===== src/Session/Reader/Recovery.antt =====
-- The USB read worker of host/src/session/mod.rs gets every packet of a stream, also behind bytes
-- that it takes for no header.
use ord.Prelude.{
  ℕ, zero, suc, ◌+◌, ◌-◌, ◌≤◌, ◌≡◌, refl, sym, ap, subst, ◌∙◌, List, [], ◌∷◌, ◌++◌, some, ok, err,
  arith, length, drop, All,
}
use ord.Prelude.{append_assoc, length-append, append-nil, take-append, drop-append}
use ord.Protocol.Packet.{OrdPacket, PacketError, decode_header, decode_packet, encode_packet}
use ord.Protocol.Packet.Framing.{IsValid, length-encode_packet, decode_packet-encode_packet}
use ord.Protocol.Packet.Errors.{decode_header_of_prefix}
use ord.Transport.Tcp.Chunks.{encode_packets}
use ord.Session.Reader.{emit, skip, round, Worker, Status, running, UsbRead, extend, read_worker}
use ord.Session.Reader.Runs.{Runs, halt, skipped, delivered}
use ord.Session.Reader.Chunks.{Brings, bytes_of, packets_of, Runs-extend, read_worker-stream}
use ord.Session.Reader.Resync.{start}

-- A round on a buffer that begins with a packet takes that packet.
pub round-encode_packet :
    (p : OrdPacket) (rest : List ℕ) → IsValid p → round (encode_packet p ++ rest) ≡ emit (ok p) rest
unfolding round
round-encode_packet p rest v =
    let len = length-encode_packet p in
    let total : 16 + p.header.payload_len ≡ length (encode_packet p) =
      omega (arith, v.framed, len) in
    let head =
      decode_header_of_prefix p (encode_packet p ++ rest) [] rest v
        (omega (arith, len, length-append (encode_packet p) rest))
        (append-nil (encode_packet p ++ rest)) in
    let body : decode_packet (encode_packet p) ≡ ok p =
      ap decode_packet (sym (append-nil (encode_packet p))) ∙ decode_packet-encode_packet p [] v in
    ground (
      arith,
      head,
      total,
      len,
      body,
      length-append (encode_packet p) rest,
      take-append (encode_packet p) rest,
      drop-append (encode_packet p) rest,
    )

-- Bytes in front of a stream at each of which no header is read.
abbrev pub IsJunk : List ℕ → List ℕ → Type 0
IsJunk [] stream = Unit
IsJunk (b ∷ junk) stream =
    ((x : PacketError) × (decode_header (b ∷ junk ++ stream) ≡ err x)) × IsJunk junk stream

round-junk :
    (acc : List ℕ) (x : PacketError)
    → 16 ≤ length acc
    → decode_header acc ≡ err x
    → round acc ≡ skip (drop 1 acc)
unfolding round
round-junk acc x le e = ground arith

abbrev at : List ℕ → List OrdPacket → ℕ → Worker
at acc sent n = record { accumulator = acc; delivered = sent; accepts = n }

Runs-junk :
    (junk stream : List ℕ) (d : List OrdPacket) (n : ℕ) {s : Status}
    → IsJunk junk stream
    → 16 ≤ length stream
    → Runs (at stream d n) s
    → Runs (at (junk ++ stream) d n) s
Runs-junk [] stream d n j le run = run
Runs-junk (b ∷ junk) stream d n j le run =
    skipped (junk ++ stream)
      (round-junk (b ∷ junk ++ stream) j.0.0 (omega (arith, length-append junk stream)) j.0.1)
      (Runs-junk junk stream d n j.1 le run)

Runs-packets :
    (ps : List OrdPacket) (d : List OrdPacket) (n : ℕ)
    → length ps ≤ n
    → All IsValid ps
    → Runs (at (encode_packets ps) d n) (running (at [] (d ++ ps) (n - length ps)))
Runs-packets [] d n le vs =
    let same : n - 0 ≡ n = omega arith in
    subst (λ t. Runs (at [] d n) (running (at [] t (n - 0)))) (sym (append-nil d))
      (subst (λ m. Runs (at [] d n) (running (at [] d m))) (sym same)
        (halt {w = at [] d n} (unfold round in refl)))
Runs-packets (p ∷ ps) d zero le vs = elim le [ ]
Runs-packets (p ∷ ps) d (suc n) le vs =
    let same : suc n - suc (length ps) ≡ n - length ps = omega arith in
    let rest = Runs-packets ps (d ++ p ∷ []) n (omega arith) vs.1 in
    delivered (ok p) (encode_packets ps) (at (encode_packets ps) (d ++ p ∷ []) n)
      (round-encode_packet p (encode_packets ps) vs.0) refl
      (subst (λ m. Runs (at (encode_packets ps) (d ++ p ∷ []) n) (running (at [] (d ++ p ∷ ps) m)))
        (sym same)
        (subst
          (λ t. Runs (at (encode_packets ps) (d ++ p ∷ []) n) (running (at [] t (n - length ps))))
          (append_assoc d (p ∷ []) ps) rest))

-- However the transfers cut the stream, the session gets all the packets behind the junk, if its end
-- of the channel stays open for that many.
pub read_worker-packets :
    (junk : List ℕ) (p : OrdPacket) (ps : List OrdPacket) (n : ℕ) (reads : List UsbRead)
    → All IsValid (p ∷ ps)
    → IsJunk junk (encode_packets (p ∷ ps))
    → length (p ∷ ps) ≤ n
    → All Brings reads
    → bytes_of reads ≡ junk ++ encode_packets (p ∷ ps)
    → packets_of (read_worker (start n) reads) ≡ some (p ∷ ps)
read_worker-packets junk p ps n reads vs j le br e =
    let stream = encode_packets (p ∷ ps) in
    let long : 16 ≤ length stream =
      omega (arith, length-encode_packet p, length-append (encode_packet p) (encode_packets ps)) in
    let run = Runs-junk junk stream [] n j long (Runs-packets (p ∷ ps) [] n le vs) in
    read_worker-stream (start n) reads (unfold round in refl) br
    ∙ ap (λ t. packets_of (extend (start n) t)) e
    ∙ ap packets_of (Runs-extend (start n) (junk ++ stream) _ run)
