-- ===== src/Session/Reader/Tests.antt =====
-- Runs of the USB read worker of host/src/session/mod.rs.
use ord.Prelude.{◌≡◌, refl, List, [], ◌∷◌, some, arith}
use ord.Protocol.Packet.{OrdPacket, encode_header, encode_packet, decode_packet, decode_header}
use ord.Protocol.Packet.Framing.{IsValid}
use ord.Session.Reader.{UsbRead, arrived, round, extend, while_header, read_worker}
use ord.Session.Reader.Chunks.{packets_of, bytes_of, read_worker-stream}
use ord.Session.Reader.Resync.{start, Sound, read_worker-Sound}
use ord.Session.Reader.Recovery.{read_worker-packets}

abbrev ping : OrdPacket
ping = record {
  header = record { version = 1; msg_type = 0x30; flags = 0; sequence = 5; payload_len = 0 };
  payload = [];
}

ping-IsValid : IsValid ping
ping-IsValid = record { header = omega arith; framed = refl }

-- Two bytes of an earlier packet, and a ping in two transfers.
abbrev arrivals : List UsbRead
arrivals =
    arrived (7 ∷ 8 ∷ 0x4F ∷ 0x52 ∷ [])
    ∷ arrived (0x44 ∷ 0x31 ∷ 1 ∷ 0x30 ∷ 0 ∷ 0 ∷ 5 ∷ 0 ∷ 0 ∷ 0 ∷ 0 ∷ 0 ∷ 0 ∷ 0 ∷ [])
    ∷ []

read_worker_run : packets_of (read_worker (start 1) arrivals) ≡ some (ping ∷ [])
unfolding read_worker extend while_header round decode_packet decode_header
read_worker_run = refl

read_worker-packets_example : packets_of (read_worker (start 120) arrivals) ≡ some (ping ∷ [])
unfolding encode_packet encode_header decode_header
read_worker-packets_example =
    read_worker-packets (7 ∷ 8 ∷ []) ping [] 120 arrivals (ping-IsValid, tt)
      ((_, refl), ((_, refl), tt)) (omega arith) (tt, (tt, tt)) refl

read_worker-stream_example :
    packets_of (read_worker (start 120) arrivals)
    ≡ packets_of (extend (start 120) (bytes_of arrivals))
unfolding round
read_worker-stream_example = read_worker-stream (start 120) arrivals refl (tt, (tt, tt))

read_worker-Sound_example : Sound arrivals (read_worker (start 120) arrivals)
read_worker-Sound_example = read_worker-Sound 120 arrivals (tt, (tt, tt)) (omega arith)
