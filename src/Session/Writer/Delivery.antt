-- ===== src/Session/Writer/Delivery.antt =====
-- The packets of a USB session of host/src/session/mod.rs on their way: through the write worker, over
-- the bus, and out of the chunks in which the other end reads them.
use ord.Prelude.{
  ℕ, ◌≤◌, ◌≡◌, refl, sym, ap, ◌∙◌, List, [], ◌∷◌, ◌++◌, append_assoc, append-nil, false, ok, err,
  All, length, map,
}
use ord.Protocol.Packet.{OrdPacket, encode_packet}
use ord.Protocol.Packet.Framing.{IsValid}
use ord.Transport.Usb.{Written, returned, writing, write_packet_sync}
use ord.Transport.Usb.Stream.{
  IsWritten, write_packet_sync-IsWritten, taken, Holds, write_packet_sync-total,
}
use ord.Transport.Tcp.{Read}
use ord.Transport.Tcp.Chunks.{
  bytes_of, IsFlowing, encode_packets, read_packets, read_packets_chunks,
}
use ord.Session.Writer.{WriteTurn, Sent, receiving, in_write, ended, behind, on_write, write_worker}

abbrev pub bus : Sent → List ℕ
bus (receiving bytes) = bytes
bus (in_write bytes) = bytes
bus (ended bytes) = bytes

-- The packets of the turns, one behind the other.
abbrev pub stream_of : List WriteTurn → List ℕ
stream_of [] = []
stream_of (t ∷ ts) = t.packet ++ stream_of ts

abbrev IsPrefix : List ℕ → List ℕ → Type 0
IsPrefix xs ys = (back : List ℕ) × (xs ++ back ≡ ys)

bus-behind : (front : List ℕ) (s : Sent) → bus (behind front s) ≡ front ++ bus s
bus-behind front (receiving bytes) = refl
bus-behind front (in_write bytes) = refl
bus-behind front (ended bytes) = refl

on_write-IsPrefix :
    (w : Written) (rest : Sent) (packet more : List ℕ)
    → IsWritten packet w
    → IsPrefix (bus rest) more
    → IsPrefix (bus (on_write w rest)) (packet ++ more)
on_write-IsPrefix (returned (ok _) c bytes) rest packet more h (back, e) = (
  back,
  ap (λ t. t ++ back) (bus-behind bytes rest)
      ∙ append_assoc bytes (bus rest) back
      ∙ ap (λ t. bytes ++ t) e
      ∙ ap (λ t. t ++ more) h.1,
)
on_write-IsPrefix (returned (err _) c bytes) rest packet more (c', (back, e)) h =
    (back ++ more, sym (append_assoc bytes back more) ∙ ap (λ t. t ++ more) e)
on_write-IsPrefix (writing bytes) rest packet more (back, e) h =
    (back ++ more, sym (append_assoc bytes back more) ∙ ap (λ t. t ++ more) e)

-- Whatever the device answers, and whenever the stream is closed, what the worker has put on the bus
-- is the beginning of the packets, one behind the other: nothing is skipped, repeated or reordered.
pub write_worker-IsPrefix :
    (ts : List WriteTurn) → (back : List ℕ) × (bus (write_worker ts) ++ back ≡ stream_of ts)
unfolding write_worker
write_worker-IsPrefix [] = ([], refl)
write_worker-IsPrefix (t ∷ ts) =
    on_write-IsPrefix (write_packet_sync t.is_closed t.packet t.answers) (write_worker ts) t.packet
      (stream_of ts) (write_packet_sync-IsWritten t.is_closed t.packet t.answers)
      (write_worker-IsPrefix ts)

-- The stream is open, no transfer breaks, and the device takes the whole packet.
pub record Succeeds (t : WriteTurn) : Type 0 where
  pub is_open : t.is_closed ≡ false
  pub holds : All Holds t.answers
  pub enough : length t.packet ≤ taken t.answers

write_worker-total :
    (ts : List WriteTurn) → All Succeeds ts → write_worker ts ≡ receiving (stream_of ts)
unfolding write_worker
write_worker-total [] h = refl
write_worker-total (t ∷ ts) h =
    rw
      (
        h.0.is_open,
        write_packet_sync-total t.packet t.answers h.0.holds h.0.enough,
        write_worker-total ts h.1,
      )
      refl

stream_of-encode_packets :
    (ts : List WriteTurn) (ps : List OrdPacket)
    → map (λ (t : WriteTurn). t.packet) ts ≡ map encode_packet ps
    → stream_of ts ≡ encode_packets ps
stream_of-encode_packets [] [] e = refl
stream_of-encode_packets [] (p ∷ ps) e = absurd cc
stream_of-encode_packets (t ∷ ts) [] e = absurd cc
stream_of-encode_packets (t ∷ ts) (p ∷ ps) e =
    let first : t.packet ≡ encode_packet p = cc in
    let others : map (λ (t : WriteTurn). t.packet) ts ≡ map encode_packet ps = cc in
    ap (λ x. x ++ stream_of ts) first
    ∙ ap (λ x. encode_packet p ++ x) (stream_of-encode_packets ts ps others)

-- Valid packets that are encoded, put into the channel and written by the worker to a device that
-- takes them all are the packets that a reader of the same framing gets, in order, however the bytes
-- of the bus are cut into reads.
pub write_worker-read_packets :
    (ts : List WriteTurn) (ps : List OrdPacket) (reads : List Read)
    → map (λ (t : WriteTurn). t.packet) ts ≡ map encode_packet ps
    → All IsValid ps
    → All Succeeds ts
    → IsFlowing reads
    → bytes_of reads ≡ bus (write_worker ts)
    → read_packets (length ps) [] reads ≡ ps
write_worker-read_packets ts ps reads e vs succeed flows b =
    read_packets_chunks ps [] [] reads vs flows (
      b
      ∙ ap bus (write_worker-total ts succeed)
      ∙ stream_of-encode_packets ts ps e
      ∙ sym (append-nil (encode_packets ps)))
