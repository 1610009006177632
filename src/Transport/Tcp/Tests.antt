-- ===== src/Transport/Tcp/Tests.antt =====
-- Runs of host/src/transport/tcp.rs on a connection that takes what fits into it, and then breaks.
use ord.Prelude.{
  ℕ, zero, suc, ◌-◌, ◌<◌, ◌≡◌, refl, List, [], ◌∷◌, ◌++◌, ok, err, arith, length, take, leb,
  if◌then◌else◌, Bool-cases, inl, inr, Result, ap,
}
use ord.Protocol.Packet.{OrdPacket, encode_header, encode_packet, invalid_magic}
use ord.Protocol.Packet.Framing.{IsValid}
use ord.Transport.Tcp.{Read, received, write_packet}
use ord.Transport.Tcp.Sink.{StreamError, packet, io, ByteSink, IsOrdered, IsCut, whole, broken}
use ord.Transport.Tcp.Chunks.{read_packets}
use ord.Transport.Tcp.Writing.{write_packets, read_packets-write_packets}

record Pipe : Type 0 where
  sent : List ℕ
  room : ℕ

abbrev put : List ℕ → Pipe → Result StreamError (Unit {0}) × Pipe
put bytes s =
    if leb (length bytes) s.room
    then (ok tt, record { sent = s.sent ++ bytes; room = s.room - length bytes })
    else (err io, record { sent = s.sent ++ take s.room bytes; room = 0 })

abbrev pipe : ByteSink
pipe = record { State = Pipe; taken = λ s. s.sent; write_all = put }

IsCut-take : (n : ℕ) (xs : List ℕ) → n < length xs → IsCut (take n xs) xs
IsCut-take n [] h = elim h [ ]
IsCut-take zero (x ∷ xs) h = record { next = x; back = xs; cut = refl }
IsCut-take (suc n) (x ∷ xs) h =
    let c : IsCut (take n xs) xs = IsCut-take n xs (omega arith) in
    record { next = c.next; back = c.back; cut = ap (λ t. x ∷ t) c.cut }

pipe-IsOrdered : IsOrdered pipe
pipe-IsOrdered = record {
  write_all-Wrote = λ bytes s. elim (Bool-cases (leb (length bytes) s.room)) [
    | inl fits ↦ rw fits (whole _ refl)
    | inr over ↦
        rw over (broken _ io (take s.room bytes) (IsCut-take s.room bytes (ground arith)) refl)
  ];
}

abbrev first_stream : Pipe
first_stream = record { sent = []; room = 100 }

-- A ping, and a video packet with one byte.
abbrev ping : OrdPacket
ping = record {
  header = record { version = 1; msg_type = 0x30; flags = 0; sequence = 5; payload_len = 0 };
  payload = [];
}

abbrev video : OrdPacket
video = record {
  header = record { version = 1; msg_type = 0x11; flags = 2; sequence = 6; payload_len = 1 };
  payload = 9 ∷ [];
}

ping-IsValid : IsValid ping
ping-IsValid = record { header = omega arith; framed = refl }

video-IsValid : IsValid video
video-IsValid = record { header = omega arith; framed = refl }

abbrev front : List ℕ
front = 0x4F ∷ 0x52 ∷ 0x44 ∷ 0x31 ∷ 1 ∷ []

abbrev ping_rest : List ℕ
ping_rest = 0x30 ∷ 0 ∷ 0 ∷ 5 ∷ 0 ∷ 0 ∷ 0 ∷ 0 ∷ 0 ∷ 0 ∷ 0 ∷ []

abbrev video_rest : List ℕ
video_rest = 0x11 ∷ 2 ∷ 0 ∷ 6 ∷ 0 ∷ 0 ∷ 0 ∷ 1 ∷ 0 ∷ 0 ∷ 0 ∷ 9 ∷ []

-- The ping in two reads, the second of which brings the beginning of the video packet too.
abbrev arrivals : List Read
arrivals = received front ∷ received (ping_rest ++ front) ∷ received video_rest ∷ []

abbrev junk : List ℕ
junk = 1 ∷ 2 ∷ 3 ∷ 4 ∷ 5 ∷ 6 ∷ 7 ∷ 8 ∷ 9 ∷ 10 ∷ 11 ∷ 12 ∷ 13 ∷ 14 ∷ 15 ∷ 16 ∷ []

abbrev no_magic : StreamError
no_magic = packet (invalid_magic (1 ∷ 2 ∷ 3 ∷ 4 ∷ []))

read_packets-write_packets_example : read_packets 2 [] arrivals ≡ ping ∷ video ∷ []
unfolding write_packets write_packet encode_packet encode_header
read_packets-write_packets_example =
    read_packets-write_packets pipe pipe-IsOrdered (ping ∷ video ∷ []) first_stream arrivals
      (ping-IsValid, (video-IsValid, tt)) refl refl (tt, (tt, (tt, tt))) refl
