-- ===== src/Session/Shutdown/Tests.antt =====
-- The end of a session of host/src/session/mod.rs that the tablet has left.
use ord.Prelude.{◌≤◌, ◌≡◌, ◌↔◌, refl, [], false}
use ord.Protocol.Packet.{
  OrdPacket, encode_packet, new_packet, new_header, encode_header, decode_header, decode_packet,
}
use ord.Session.Reader.{round}
use ord.Session.Shutdown.{closing, finished, sending, receiving, Shutdown, Reach}
use ord.Session.Shutdown.Backlog.{backlog, packets_in}
use ord.Session.Shutdown.Ends.{shutdown_ends}

-- A packet is on its way into a channel with one free slot, and another waits in the accumulator.
abbrev ping : OrdPacket
ping = new_packet 0x30 0 7 []

-- All packets have been sent.
abbrev idle : Shutdown
idle = record {
  main = closing;
  reader = sending ping (encode_packet ping);
  writer = receiving;
  is_closed = false;
  in_room = 1;
  out_queue = 0;
}

shutdown_ends_example : ((t : Shutdown) × Reach idle t × (t.main ≡ finished)) ↔ (
    (backlog idle.reader ≤ idle.in_room) × (¬ ((idle.writer ≡ receiving) × (idle.out_queue ≡ 0))))
shutdown_ends_example = shutdown_ends idle refl

-- The two do not fit.
idle-backlog : backlog idle.reader ≡ 2
unfolding packets_in round encode_packet new_packet new_header encode_header decode_header
    decode_packet
idle-backlog = refl
