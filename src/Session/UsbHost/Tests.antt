-- ===== src/Session/UsbHost/Tests.antt =====
-- Runs of `handle_usb_client` of host/src/session/mod.rs.
use ord.Prelude.{
  ℕ, ◌≡◌, refl, List, [], ◌∷◌, true, false, none, some, map, length, take, drop, All, arith,
}
use ord.Protocol.Packet.{OrdPacket, new_packet, encode_packet, new_header, encode_header}
use ord.Protocol.Message.{msg_hello_ack, msg_display_config, msg_video_data}
use ord.Display.{DisplayBackend, test_pattern}
use ord.Encoder
use ord.Encoder.{VideoFrame}
use ord.Transport.Usb.{BulkRead, BulkWrite, wrote, read_packet_sync}
use ord.Transport.Tcp.{received}
use ord.Transport.Tcp.Chunks.{read_packets}
use ord.Session.Line.{f64, tablet, desktop, hello, answering, gnome, info, only_x264}
use ord.Session.Host.{not_hello, pipeline_made, input_of}
use ord.Session.Recovery.{Answers}
use ord.Display.Mutter
use ord.Display.Mutter.{stop, node}
use ord.Session.Screen.{open_display}
use ord.Session.Loop.{flags_of}
use ord.Session.Usb.{
  UsbEvent, pipeline_error, frame, frames_closed, accepted, UsbSession, usb_loop, usb_turn,
}
use ord.Session.Usb.Queue.{outgoing}
use ord.Session.UsbHost.{Failure, handle_usb_client}
use ord.Session.UsbHost.Ending.{handle_usb_client-leaks}
use ord.Session.UsbHost.Received.{conversation, handle_usb_client-read_packets}
use ord.Session.Writer.{WriteTurn, write_worker}
use ord.Session.Writer.Delivery.{Succeeds}
use ord.Protocol.Packet.Framing.{IsValid, new_packet-IsValid, length-encode_packet}

abbrev picture : VideoFrame
picture = record { pts_us = 0; is_keyframe = false; bytes = 9 ∷ [] }

abbrev events : List UsbEvent
events = frame picture accepted ∷ frames_closed ∷ []

-- Mutter makes the display again.
abbrev again : Answers
again = record {
  bus_at_end = answering;
  bus = record answering { create_session = some "/session/2"; signal = node 43 };
  find = only_x264;
  launches = true;
  starts = true;
}

abbrev recovering : List UsbEvent
recovering = frame picture accepted ∷ pipeline_error again ∷ frames_closed ∷ []

abbrev ended_session : UsbSession f64
ended_session = record {
  video = record {
    pipeline = record { is_running = false; playing = false };
    backend = DisplayBackend.mutter (record {
      connection = some 1;
      session_path = none;
      stream_path = none;
      node_id = none;
      display_info = none;
    });
    info = record info { pipewire_node_id = 43; session_path = "/session/2" };
    frames_open = true;
    bus_calls = stop 1 "/session" ∷ stop 1 "/session/2" ∷ [];
  };
  frame_seq = 1;
  queued =
      encode_packet (new_packet msg_hello_ack 0 0 (60 ∷ []))
      ∷ encode_packet (new_packet msg_display_config 0 1 (0 ∷ []))
      ∷ encode_packet (new_packet msg_video_data 2 1 (9 ∷ []))
      ∷ [];
  input = input_of f64 gnome info;
  calls = [];
}

-- A client that begins with a ping.
abbrev ping : OrdPacket
ping = record {
  header = record { version = 1; msg_type = 0x30; flags = 0; sequence = 5; payload_len = 0 };
  payload = [];
}

abbrev refused : Failure
refused = record {
  error = not_hello 0x30;
  queued = [];
  backend = none;
  pipeline = none;
  closes = false;
}

handle_usb_client-leaks_example :
    read_packet_sync false ((false, BulkRead.timed_out) ∷ (false, BulkRead.timed_out) ∷ []) ≡ none
unfolding handle_usb_client
handle_usb_client-leaks_example =
    handle_usb_client-leaks f64 desktop ping true true []
      ((false, BulkRead.timed_out) ∷ (false, BulkRead.timed_out) ∷ []) {f = refused} refl
      (tt, (tt, tt))

abbrev said : List OrdPacket
said = conversation f64 desktop (test_pattern 2560 1600 60) (60 ∷ []) (0 ∷ []) events

said-IsValid : All IsValid said
unfolding outgoing flags_of
said-IsValid = (
  new_packet-IsValid _ _ _ _ (omega arith) (omega arith) (omega arith) (omega arith),
  (
    new_packet-IsValid _ _ _ _ (omega arith) (omega arith) (omega arith) (omega arith),
    (new_packet-IsValid _ _ _ _ (omega arith) (omega arith) (omega arith) (omega arith), tt),
  ),
)

-- A device that takes 10 bytes, then the rest.
abbrev turn_of : OrdPacket → WriteTurn
turn_of p = record {
  is_closed = false;
  packet = encode_packet p;
  answers = wrote 10 ∷ BulkWrite.timed_out ∷ wrote 10 ∷ [];
}

turn-Succeeds :
    (t f q : ℕ) (payload : List ℕ)
    → length payload ≡ 1
    → Succeeds (turn_of (new_packet t f q payload))
unfolding new_packet
turn-Succeeds t f q payload one = record {
  is_open = refl;
  holds = (tt, (tt, (tt, tt)));
  enough = omega (arith, one, length-encode_packet (new_packet t f q payload));
}

-- What the tablet reads: a part of HELLO_ACK, and all the rest.
abbrev stream : List ℕ
stream =
    0x4F ∷ 0x52 ∷ 0x44 ∷ 0x31 ∷ 1 ∷ 2 ∷ 0 ∷ 0 ∷ 0 ∷ 0 ∷ 0 ∷ 0 ∷ 1 ∷ 0 ∷ 0 ∷ 0 ∷ 60 ∷ 0x4F ∷ 0x52
    ∷ 0x44 ∷ 0x31 ∷ 1 ∷ 5 ∷ 0 ∷ 0 ∷ 1 ∷ 0 ∷ 0 ∷ 0 ∷ 1 ∷ 0 ∷ 0 ∷ 0 ∷ 0 ∷ 0x4F ∷ 0x52 ∷ 0x44 ∷ 0x31
    ∷ 1 ∷ 0x11 ∷ 2 ∷ 0 ∷ 1 ∷ 0 ∷ 0 ∷ 0 ∷ 1 ∷ 0 ∷ 0 ∷ 0 ∷ 9 ∷ []

handle_usb_client-read_packets_example :
    read_packets 3 [] (received (take 5 stream) ∷ received (drop 5 stream) ∷ []) ≡ said
unfolding open_display pipeline_made outgoing flags_of handle_usb_client usb_loop usb_turn
    Encoder.start write_worker encode_packet encode_header new_packet new_header
handle_usb_client-read_packets_example =
    handle_usb_client-read_packets f64 desktop (test_pattern 2560 1600 60) (60 ∷ []) (0 ∷ []) events
      hello tablet (map turn_of said) (received (take 5 stream) ∷ received (drop 5 stream) ∷ [])
      refl refl refl refl refl refl refl said-IsValid refl
      (
        turn-Succeeds msg_hello_ack 0 0 (60 ∷ []) refl,
        (
          turn-Succeeds msg_display_config 0 1 (0 ∷ []) refl,
          (turn-Succeeds msg_video_data 2 1 (9 ∷ []) refl, tt),
        ),
      )
      (tt, (tt, tt)) refl
