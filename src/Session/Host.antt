-- ===== src/Session/Host.antt =====
-- host/src/session/mod.rs, `handle_client`: the handshake over TCP, the session, and its end.
-- serde_json, the host's name and what the system answers are parameters.
pub mod Negotiation
pub mod Opening
pub mod Cleanup
pub mod Remote
pub mod Received
pub mod Inputs
mod Tests
mod InputTests
use ord.Prelude.{
  ℕ, List, [], ◌∷◌, Bool, true, false, Option, none, some, Result, ok, err, ◌==◌, ltb, not, ◌&&◌,
  if◌then◌else◌,
}
use Prim.Native.String.{String, ◌++◌ as str_append}
use text.Mathlib.Text.{◌==◌ as str_eq}
use ord.Protocol.Packet.{OrdPacket, new_packet}
use ord.Protocol.Message.{
  HelloMessage, HelloAckMessage, DisplayConfigMessage, MetricsMessage, msg_hello, msg_hello_ack,
  msg_display_config,
}
use ord.Protocol.Coordinate.Float.{F64}
use ord.Config.{Config}
use ord.Display.{DisplayBackend, test_source, create_virtual_display, destroy_virtual_display}
use ord.Display
use ord.Display.Mutter.{VirtualDisplayInfo, MutterBus, MutterError, BusCall}
use ord.Display.Mutter
use ord.Encoder.{EncoderConfig, EncoderError, Piece, VideoPipeline, fresh, build_pipeline_string}
use ord.Encoder
use ord.Input.{InputBackend}
use ord.Input
use ord.Transport.Tcp.{write_packet}
use ord.Transport.Tcp.Sink.{StreamError, ByteSink}
use ord.Session.Screen.{Screen, screen_of, open_display}
use ord.Session.Loop.{F32, Event, Session, Status, running, returned, no_counters, run_session_loop}

-- The errors of `handle_client`; `stream` ones are those of the connection.
pub data SessionError : Type 0 where
  stream : StreamError → SessionError
  not_hello : ℕ → SessionError
  -- over USB only: the read worker has ended before the first packet
  closed_before_hello : SessionError
  bad_hello no_json no_pipeline not_started : SessionError
  display : MutterError → SessionError

-- What the system and the libraries answer: serde_json, the name of the host, the process id as it is
-- printed, the bus, and
-- whether the input session can be made; GStreamer's elements, and whether it launches and starts the
-- pipeline.
pub record Host (F : Type 0) : Type 0 where
  pub config : Config F
  pub force_test_pattern : Bool
  pub from_slice : List ℕ → Option HelloMessage
  pub ack_to_vec : HelloAckMessage → Option (List ℕ)
  pub config_to_vec : DisplayConfigMessage F → Option (List ℕ)
  pub host_name : String
  pub process_id : String
  pub bus : MutterBus
  pub bus_at_end : MutterBus
  pub input_made : Bool
  pub find : String → Bool
  pub pipeline_launches : Bool
  pub pipeline_starts : Bool

abbrev pub ack_of : {F : Type 0} → Host F → VirtualDisplayInfo → HelloAckMessage
ack_of host info = record {
  server_name = host.host_name;
  server_version = "1.0.0";
  session_id = str_append "ord-" host.process_id;
  width = info.width;
  height = info.height;
  fps = info.fps;
  selected_codec = "h264";
  auth_required = false;
}

abbrev pub display_config_of : {F : Type 0} → Host F → VirtualDisplayInfo → DisplayConfigMessage F
display_config_of host info = record {
  width = info.width;
  height = info.height;
  refresh_rate = info.fps;
  orientation = 0;
  scale_factor = host.config.display.scale_factor;
}

abbrev pub encoder_config_of : {F : Type 0} → Host F → VirtualDisplayInfo → EncoderConfig
encoder_config_of host info = record {
  width = info.width;
  height = info.height;
  fps = info.fps;
  bitrate_kbps = host.config.stream.bitrate_kbps;
  encoder_choice = host.config.stream.encoder;
  keyframe_interval_frames = host.config.stream.keyframe_interval_frames;
}

abbrev pub launched : Result EncoderError (List Piece) → Bool → Bool
launched (ok _) launches = launches
launched (err _) launches = false

-- Whether `VideoPipeline::new` succeeds.
unfoldable pub pipeline_made : {F : Type 0} → Host F → VirtualDisplayInfo → Bool
unfolding build_pipeline_string
pipeline_made host info =
    launched (build_pipeline_string host.find info.pipewire_node_id (encoder_config_of host info))
      host.pipeline_launches

module _ (f64 : F64) where
  -- Mutter's input, if the display is Mutter's and the input session can be made.
  unfoldable pub input_of : Host f64.Carrier → VirtualDisplayInfo → InputBackend f64
  unfolding Input.new
  input_of host info =
      if ltb 0 info.pipewire_node_id && not (str_eq info.stream_path "") && host.input_made
      then InputBackend.mutter (Input.new info.stream_path info.width info.height)
      else InputBackend.uinput

-- How `handle_client` ends: its result, the connection, the display and the pipeline as they are
-- dropped.
pub record Ended (S : Type 0) : Type 0 where
  pub result : Result SessionError (Unit {0})
  pub connection : S
  pub backend : Option DisplayBackend
  pub pipeline : Option VideoPipeline
  pub bus_calls : List BusCall

module _ (sink : ByteSink) (f64 : F64) (f32 : F32)
    (to_vec : MetricsMessage f32.Carrier → Option (List ℕ)) where
  open sink use {State}

  -- The call has returned, or is in the session's loop.
  pub data Client : Type 0 where
    ended : Ended State → Client
    streaming : Session sink f64 f32 to_vec → Client

  abbrev pub fail : SessionError → State → Option DisplayBackend → Option VideoPipeline → Client
  fail e connection backend pipeline = ended (record {
    result = err e;
    connection = connection;
    backend = backend;
    pipeline = pipeline;
    bus_calls = [];
  })

  abbrev pub session_result : Result StreamError (Unit {0}) → Result SessionError (Unit {0})
  session_result (ok u) = ok u
  session_result (err e) = err (stream e)

module _ (sink : ByteSink) (f64 : F64) (f32 : F32)
    (to_vec : MetricsMessage f32.Carrier → Option (List ℕ)) (host : Host f64.Carrier) where
  open sink use {State}

  abbrev Here : Type 0
  Here = Client sink f64 f32 to_vec

  -- The clean shutdown behind the loop.
  abbrev pub shut_down : DisplayBackend → VideoPipeline → Status sink f64 f32 to_vec → Here
  shut_down backend pipeline (running session) = streaming session
  shut_down backend pipeline (returned r session) =
      let (calls, destroyed) = destroy_virtual_display host.bus_at_end backend in
      ended (record {
        result = session_result sink f64 f32 to_vec r;
        connection = session.stream;
        backend = some destroyed;
        pipeline = some (Encoder.stop pipeline);
        bus_calls = calls;
      })

  -- The pipeline is made and started, and the loop runs.
  abbrev pub begin :
      Bool
      → Bool × VideoPipeline
      → DisplayBackend
      → Session sink f64 f32 to_vec
      → List (Event f32)
      → Here
  begin false _ backend session events =
      fail sink f64 f32 to_vec no_pipeline session.stream (some backend) none
  begin true (false, pipeline) backend session events =
      fail sink f64 f32 to_vec not_started session.stream (some backend) (some pipeline)
  begin true (true, pipeline) backend session events =
      shut_down backend pipeline (run_session_loop sink f64 f32 to_vec session events)

  abbrev pub stream_video : DisplayBackend → VirtualDisplayInfo → List (Event f32) → State → Here
  stream_video backend info events connection =
      begin (pipeline_made host info) (Encoder.start host.pipeline_starts fresh) backend
        (record {
          stream = connection;
          input = input_of f64 host info;
          calls = [];
          counters = no_counters;
        })
        events

  -- `serde_json::to_vec(..)?`, `write_packet(..).await?`, and what follows
  abbrev pub then_send :
      Result StreamError (Unit {0}) × State → DisplayBackend → (State → Here) → Here
  then_send (ok _, connection) backend more = more connection
  then_send (err e, connection) backend more =
      fail sink f64 f32 to_vec (stream e) connection (some backend) none

  abbrev pub send_json : Option (List ℕ) → ℕ → ℕ → DisplayBackend → State → (State → Here) → Here
  send_json none msg_type sequence backend connection more =
      fail sink f64 f32 to_vec no_json connection (some backend) none
  send_json (some payload) msg_type sequence backend connection more =
      then_send (write_packet sink (new_packet msg_type 0 sequence payload) connection) backend more

  abbrev pub greet :
      Result MutterError VirtualDisplayInfo × DisplayBackend → List (Event f32) → State → Here
  greet (err e, backend) events connection =
      fail sink f64 f32 to_vec (display e) connection (some backend) none
  greet (ok info, backend) events connection =
      send_json (host.ack_to_vec (ack_of host info)) msg_hello_ack 0 backend connection
        (λ connection'.
          send_json (host.config_to_vec (display_config_of host info)) msg_display_config 1 backend
            connection' (λ connection''. stream_video backend info events connection''))

  abbrev pub with_hello : Option HelloMessage → List (Event f32) → State → Here
  with_hello none events connection = fail sink f64 f32 to_vec bad_hello connection none none
  with_hello (some hello) events connection =
      greet (open_display host.force_test_pattern host.bus (screen_of hello host.config)) events
        connection

  -- `handle_client`, from what the first `read_packet` returns, over the events of the session.
  unfoldable pub handle_client : Result StreamError OrdPacket → List (Event f32) → State → Here
  unfolding open_display
  handle_client (err e) events connection = fail sink f64 f32 to_vec (stream e) connection none none
  handle_client (ok p) events connection =
      if p.header.msg_type == msg_hello
      then with_hello (host.from_slice p.payload) events connection
      else fail sink f64 f32 to_vec (not_hello p.header.msg_type) connection none none
