-- ===== src/Session/UsbHost.antt =====
-- host/src/session/mod.rs, `handle_usb_client`: the handshake over USB, and what comes of the session.
-- The packets of the read worker, and the answers of the write worker's channel, are arguments; the
-- workers themselves are in Reader, Writer and Shutdown.
pub mod Greeting
pub mod Ending
pub mod Received
pub mod Inputs
mod Tests
mod InputTests
use ord.Prelude.{
  ℕ, List, [], ◌∷◌, ◌++◌, Bool, true, false, ◌||◌, Option, none, some, Result, ok, err, ◌==◌,
  if◌then◌else◌,
}
use Prim.Native.String.{◌++◌ as str_append}
use ord.Protocol.Packet.{OrdPacket, new_packet, encode_packet}
use ord.Protocol.Message.{
  HelloMessage, HelloAckMessage, msg_hello, msg_hello_ack, msg_display_config,
}
use ord.Protocol.Coordinate.Float.{F64}
use ord.Display.{DisplayBackend, destroy_virtual_display}
use ord.Display.Mutter.{VirtualDisplayInfo, MutterBus, MutterError}
use ord.Encoder.{VideoPipeline, fresh}
use ord.Encoder
use ord.Session.Screen.{Screen, screen_of, open_display}
use ord.Session.Recovery.{Video}
use ord.Session.Host.{
  Host, SessionError, not_hello, closed_before_hello, bad_hello, no_json, no_pipeline, not_started,
  display, ack_of, display_config_of, encoder_config_of, pipeline_made, input_of,
}
use ord.Session.Usb.{UsbEvent, UsbSession, UsbStatus, running, broken, usb_loop}

abbrev pub usb_ack_of : {F : Type 0} → Host F → VirtualDisplayInfo → HelloAckMessage
usb_ack_of host info = record (ack_of host info) {
  session_id = str_append "ord-usb-" host.process_id;
}

-- A call that has returned an error: what it had put into the channel, the display and the pipeline as
-- they are dropped, and whether it has closed the stream itself.
pub record Failure : Type 0 where
  pub error : SessionError
  pub queued : List (List ℕ)
  pub backend : Option DisplayBackend
  pub pipeline : Option VideoPipeline
  pub closes : Bool

-- The flag of the stream behind the call, from what the workers have made of it.
abbrev pub flag_after : Bool → Failure → Bool
flag_after is_closed f = is_closed || f.closes

-- `let _ = usb_out_tx.send(..).await`; the flag says whether the channel takes it.
abbrev pub send : Bool → List ℕ → List (List ℕ) → List (List ℕ)
send true bytes queued = queued ++ bytes ∷ []
send false bytes queued = queued

module _ (f64 : F64) where
  -- The call has failed, is in its loop, or has cleaned up and waits for the workers.
  pub data UsbClient : Type 0 where
    failed : Failure → UsbClient
    streaming : UsbSession f64 → UsbClient
    joining : Bool → UsbSession f64 → UsbClient

  abbrev pub fail :
      SessionError → List (List ℕ) → Option DisplayBackend → Option VideoPipeline → UsbClient
  fail e queued backend pipeline = failed (record {
    error = e;
    queued = queued;
    backend = backend;
    pipeline = pipeline;
    closes = false;
  })

module _ (f64 : F64) (host : Host f64.Carrier) where
  -- Behind the loop: `stream.close()`, the pipeline is stopped and the display destroyed.
  abbrev pub clean_up : UsbStatus f64 → UsbClient f64
  clean_up (running s) = streaming s
  clean_up (broken s) =
      let (calls, backend) = destroy_virtual_display host.bus_at_end s.video.backend in
      joining true (record s {
        video = record s.video {
          pipeline = Encoder.stop s.video.pipeline;
          backend = backend;
          bus_calls = s.video.bus_calls ++ calls;
        };
      })

  -- The variables as the loop begins.
  abbrev pub first_state :
      VideoPipeline → DisplayBackend → VirtualDisplayInfo → List (List ℕ) → UsbSession f64
  first_state pipeline backend info queued = record {
    video = record {
      pipeline = pipeline;
      backend = backend;
      info = info;
      frames_open = true;
      bus_calls = [];
    };
    frame_seq = 0;
    queued = queued;
    input = input_of f64 host info;
    calls = [];
  }

  abbrev pub begin :
      Bool
      → Bool × VideoPipeline
      → DisplayBackend
      → VirtualDisplayInfo
      → Screen
      → List UsbEvent
      → List (List ℕ)
      → UsbClient f64
  begin false _ backend info screen events queued = fail f64 no_pipeline queued (some backend) none
  begin true (false, pipeline) backend info screen events queued =
      fail f64 not_started queued (some backend) (some pipeline)
  begin true (true, pipeline) backend info screen events queued = clean_up (
      usb_loop f64 (encoder_config_of host info) screen (first_state pipeline backend info queued)
        events)

  -- `serde_json::to_vec(..)?`, the send, and what follows
  abbrev pub send_json :
      Option (List ℕ)
      → ℕ
      → ℕ
      → Bool
      → DisplayBackend
      → List (List ℕ)
      → (List (List ℕ) → UsbClient f64)
      → UsbClient f64
  send_json none msg_type sequence taken backend queued more =
      fail f64 no_json queued (some backend) none
  send_json (some payload) msg_type sequence taken backend queued more =
      more (send taken (encode_packet (new_packet msg_type 0 sequence payload)) queued)

  -- The flags say whether the channel takes HELLO_ACK and DISPLAY_CONFIG.
  abbrev pub greet :
      Result MutterError VirtualDisplayInfo × DisplayBackend
      → Screen
      → Bool
      → Bool
      → List UsbEvent
      → UsbClient f64
  greet (err e, backend) screen ack_taken config_taken events =
      fail f64 (display e) [] (some backend) none
  greet (ok info, backend) screen ack_taken config_taken events =
      send_json (host.ack_to_vec (usb_ack_of host info)) msg_hello_ack 0 ack_taken backend []
        (λ queued.
          send_json (host.config_to_vec (display_config_of host info)) msg_display_config 1
            config_taken backend queued
            (λ queued'.
              begin (pipeline_made host info) (Encoder.start host.pipeline_starts fresh) backend
                info screen events queued'))

  abbrev pub with_hello : Option HelloMessage → Bool → Bool → List UsbEvent → UsbClient f64
  with_hello none ack_taken config_taken events = fail f64 bad_hello [] none none
  with_hello (some hello) ack_taken config_taken events =
      let screen = screen_of hello host.config in
      greet (open_display host.force_test_pattern host.bus screen) screen ack_taken config_taken
        events

  -- `handle_usb_client`, from what the first `usb_in_rx.recv()` gives, over the events of the loop.
  unfoldable pub handle_usb_client : Option OrdPacket → Bool → Bool → List UsbEvent → UsbClient f64
  unfolding open_display pipeline_made usb_loop encode_packet destroy_virtual_display Encoder.start
      Encoder.stop input_of
  handle_usb_client none ack_taken config_taken events = fail f64 closed_before_hello [] none none
  handle_usb_client (some p) ack_taken config_taken events =
      if p.header.msg_type == msg_hello
      then with_hello (host.from_slice p.payload) ack_taken config_taken events
      else fail f64 (not_hello p.header.msg_type) [] none none
