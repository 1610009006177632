-- ===== src/Session/Wire/Tests.antt =====
-- A key press and a pointer motion that reach the loop of host/src/session/mod.rs in pieces.
use ord.Prelude.{◌≡◌, refl, List, [], ◌∷◌, take, drop, none, true, false, ℕ, map}
use ord.Protocol.Packet.{encode_packet, encode_header, decode_header, new_packet}
use ord.Protocol.Input
use ord.Protocol.Input.{keyboard_key, pointer_motion_absolute}
use ord.Transport.Tcp.{received, read_packet, next_packet, write_frame_data}
use ord.Transport.Tcp.Chunks.{encode_packets}
use ord.Encoder.{VideoFrame}
use ord.Input.{InputBackend, dispatch}
use ord.Session.Loop.{no_counters, Session, session_of, turn, run_session_loop}
use ord.Session.Line.{line, f64, f32, to_vec}
use ord.Session.Wire.{Turn, arrives, frame_ready, poll_read, new_wire, selected}
use ord.Session.Wire.Inputs.{ClientPacket, event, calls_of, packet_of, session_after}

abbrev begun : Session line f64 f32 to_vec
begun = record {
  stream = record { bytes = []; room = 1000; down = false };
  input = InputBackend.mutter (record {
    stream_path = "/stream";
    transformer = record { display_width = 1920; display_height = 1200 };
  });
  calls = [];
  counters = no_counters;
}

abbrev press : Input.InputEvent
press = record {
  event_type = keyboard_key;
  slot = 0;
  x = 0;
  y = 0;
  code_or_btn = 30;
  state_or_flags = 1;
}

abbrev motion : Input.InputEvent
motion = record press { event_type = pointer_motion_absolute; x = 40000 }

abbrev frame : VideoFrame
frame = record { pts_us = 0; is_keyframe = true; bytes = 9 ∷ [] }

abbrev events : List ClientPacket
events = event 1 press ∷ event 2 motion ∷ []

abbrev stream : List ℕ
stream = encode_packets (map packet_of events)

-- The first packet comes in two parts, and a frame is taken while the call for it waits.
abbrev turns : List (Turn f32)
turns =
    arrives (received (take 20 stream))
    ∷ poll_read
    ∷ frame_ready frame none
    ∷ arrives (received (drop 20 stream))
    ∷ []

-- Both events make their calls.
cut_events :
    (session_of line f64 f32 to_vec
      (session_after line f64 f32 to_vec begun new_wire turns 2)).calls
    ≡ calls_of f64 begun.input events
unfolding run_session_loop turn selected read_packet next_packet decode_header Input.decode
    Input.encode Input.from_u8 dispatch write_frame_data encode_packet encode_header new_packet
cut_events = refl
