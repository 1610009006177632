-- ===== src/Session/Usb/Tests.antt =====
-- A run of the loop of `handle_usb_client` (host/src/session/mod.rs).
use ord.Prelude.{◌≡◌, refl, List, [], ◌∷◌, ◌++◌, true, false, none, some, All}
use ord.Protocol.Packet.{OrdPacket, new_packet}
use ord.Protocol.Input.{InputEvent, touch_down}
use ord.Display.{DisplayBackend, test_source, test_pattern}
use ord.Display.Mutter
use ord.Display.Mutter.{MutterBus, node}
use ord.Encoder.{EncoderConfig, VideoFrame, fresh}
use ord.Input.{InputBackend, MutterInputBackend}
use ord.Session.Line.{f64}
use ord.Session.Screen.{Screen}
use ord.Session.Recovery.{Answers, recover_display}
use ord.Session.Wire.Inputs.{ClientPacket, event, other, packet_of, calls_in}
use ord.Session.Usb.{
  UsbEvent, pipeline_error, no_frame, frame, packet, accepted, full, UsbSession, running, usb_loop,
}
use ord.Session.Usb.Inputs.{took}
use ord.Session.Usb.Stale.{Names, usb_loop-stale}

abbrev config : EncoderConfig
config = record {
  width = 1920;
  height = 1080;
  fps = 60;
  bitrate_kbps = 15000;
  encoder_choice = "auto";
  keyframe_interval_frames = 60;
}

abbrev screen : Screen
screen = record { width = 1920; height = 1080; fps = 60 }

abbrev begun : UsbSession f64
begun = record {
  video = record {
    pipeline = fresh;
    backend = test_source none;
    info = test_pattern 1920 1080 60;
    frames_open = true;
    bus_calls = [];
  };
  frame_seq = 0;
  queued = [];
  input = InputBackend.uinput;
  calls = [];
}

abbrev picture : VideoFrame
picture = record { pts_us = 0; is_keyframe = false; bytes = 9 ∷ [] }

abbrev ping : OrdPacket
ping = record {
  header = record { version = 1; msg_type = 0x30; flags = 0; sequence = 5; payload_len = 0 };
  payload = [];
}

-- The second frame finds the channel full.
abbrev events : List UsbEvent
events =
    frame picture accepted ∷ frame picture full ∷ packet ping true ∷ frame picture accepted ∷ []

-- A session on a display of Mutter's, whose stream is "/stream/1".
abbrev first_stream : MutterInputBackend
first_stream = record {
  stream_path = "/stream/1";
  transformer = record { display_width = 1920; display_height = 1080 };
}

abbrev on_mutter : UsbSession f64
on_mutter = record begun {
  video = record begun.video { backend = DisplayBackend.mutter Mutter.new };
  input = InputBackend.mutter first_stream;
}

-- Mutter makes the display again, with the stream "/stream/2".
abbrev answering : MutterBus
answering = record {
  connect = some 1;
  screencast_proxy = true;
  create_session = some "/session/2";
  session_proxy = true;
  record_virtual = λ _. some "/stream/2";
  stream_proxy = true;
  receive_signal = true;
  start = true;
  signal = node 77;
}

abbrev answers : Answers
answers = record {
  bus_at_end = answering;
  bus = answering;
  find = λ _. true;
  launches = true;
  starts = true;
}

abbrev touch : InputEvent
touch = record {
  event_type = touch_down;
  slot = 0;
  x = 100;
  y = 200;
  code_or_btn = 0;
  state_or_flags = 0;
}

abbrev touches : List ClientPacket
touches = event 1 touch ∷ other ping ∷ []

abbrev turns : List UsbEvent
turns =
    frame picture accepted
    ∷ packet (packet_of (event 1 touch)) true
    ∷ no_frame answers
    ∷ packet ping true
    ∷ []

usb_loop-stale_example :
    ((recover_display answers config screen on_mutter.video).info.stream_path ≡ "/stream/2")
    × ((s' : UsbSession f64) × (usb_loop f64 config screen on_mutter
            (pipeline_error answers ∷ turns)
          ≡ running s')
        × (s'.calls ≡ [] ++ calls_in f64 on_mutter.input (took turns))
        × All (Names "/stream/1") (calls_in f64 on_mutter.input (took turns)))
unfolding Mutter.create new_packet
usb_loop-stale_example =
    usb_loop-stale f64 config screen on_mutter first_stream Mutter.new answers turns refl refl refl
      (tt, ((refl, refl), (tt, ((refl, refl), tt))))
