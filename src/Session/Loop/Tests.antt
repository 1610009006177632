-- ===== src/Session/Loop/Tests.antt =====
-- Runs of the loop of host/src/session/mod.rs on a line that takes a number of bytes and then breaks.
use ord.Prelude.{
  ◌≡◌, refl, List, [], ◌∷◌, true, false, none, some, ok, map, take, drop, ◌∙◌, All, arith,
}
use ord.Protocol.Packet.{OrdPacket, new_packet, new_header, encode_packet, encode_header}
use ord.Protocol.Message.{msg_video_data}
use ord.Transport.Tcp.Chunks.{encode_packets, read_packets}
use ord.Encoder.{VideoFrame}
use ord.Input.{InputBackend}
use ord.Session.Loop.{
  Event, frame, read, no_counters, Session, flags_of, turn, run_session_loop, session_of,
}
use ord.Session.Loop.Connection.{Sends}
use ord.Session.Loop.Sent.{sent, run_session_loop-Sends}
use ord.Session.Loop.Streams.{of_type, numbered}
use ord.Session.Loop.Video.{run_session_loop-video}
use ord.Transport.Tcp.{Read, received, write_packet, write_frame_data}
use ord.Protocol.Packet.Framing.{IsValid, new_packet-IsValid}
use ord.Session.Line.{line, line-IsConnection, failed-line, f64, f32, to_vec}

abbrev begun : Session line f64 f32 to_vec
begun = record {
  stream = record { bytes = []; room = 1000; down = false };
  input = InputBackend.uinput;
  calls = [];
  counters = no_counters;
}

abbrev key_frame : VideoFrame
key_frame = record { pts_us = 0; is_keyframe = true; bytes = 9 ∷ [] }

abbrev ping : OrdPacket
ping = record {
  header = record { version = 1; msg_type = 0x30; flags = 0; sequence = 77; payload_len = 1 };
  payload = 5 ∷ [];
}

abbrev bye : OrdPacket
bye = record {
  header = record { version = 1; msg_type = 0xFF; flags = 0; sequence = 0; payload_len = 0 };
  payload = [];
}

abbrev events : List (Event f32)
events = frame key_frame none ∷ read (ok ping) ∷ frame key_frame (some 1) ∷ read (ok bye) ∷ []

-- A video packet, the pong, and a video packet with metrics: two frames and 16 bits in a second.
events_sent :
    map (λ p. p.header.msg_type) (sent f32 to_vec no_counters events)
    ≡ 0x11 ∷ 0x31 ∷ 0x11 ∷ 0x40 ∷ []
unfolding sent new_packet
events_sent = refl

run_session_loop-Sends_example :
    Sends line line-IsConnection
      (encode_packets (sent f32 to_vec no_counters events))
      begun.stream
      (session_of line f64 f32 to_vec (run_session_loop line f64 f32 to_vec begun events)).stream
run_session_loop-Sends_example =
    run_session_loop-Sends line line-IsConnection f64 f32 to_vec events begun

-- What the session sends, as it is read at the other end in two parts.
abbrev all_sent : List OrdPacket
all_sent = sent f32 to_vec no_counters events

all_sent-IsValid : All IsValid all_sent
unfolding sent flags_of
all_sent-IsValid = (
  new_packet-IsValid _ _ _ _ (omega arith) (omega arith) (omega arith) (omega arith),
  (
    new_packet-IsValid _ _ _ _ (omega arith) (omega arith) (omega arith) (omega arith),
    (
      new_packet-IsValid _ _ _ _ (omega arith) (omega arith) (omega arith) (omega arith),
      (new_packet-IsValid _ _ _ _ (omega arith) (omega arith) (omega arith) (omega arith), tt),
    ),
  ),
)

abbrev parts : List Read
parts =
    received (take 20 (encode_packets all_sent)) ∷ received (drop 20 (encode_packets all_sent)) ∷ []

run_session_loop-video_example :
    of_type msg_video_data (read_packets 4 [] parts) ≡ numbered 0 (key_frame ∷ key_frame ∷ [])
unfolding run_session_loop turn sent flags_of write_packet write_frame_data encode_packet
    encode_header new_packet new_header
run_session_loop-video_example =
    run_session_loop-video line line-IsConnection f64 f32 to_vec events begun parts all_sent-IsValid
      refl (failed-line _ ∙ refl) (tt, (tt, tt)) refl
