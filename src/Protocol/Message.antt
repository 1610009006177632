-- ===== src/Protocol/Message.antt =====
-- host/src/protocol/types.rs: the codes of the messages, the flags of a video packet, and the
-- messages that travel as JSON. serde is a parameter of the code that sends them
-- (`ord.Session.Host`); the floating-point fields have the type `F`.
use ord.Prelude.{ℕ, List, Bool}
use Prim.Native.String.{String}

abbrev pub msg_hello : ℕ
msg_hello = 0x01

abbrev pub msg_hello_ack : ℕ
msg_hello_ack = 0x02

abbrev pub msg_auth : ℕ
msg_auth = 0x03

abbrev pub msg_auth_ack : ℕ
msg_auth_ack = 0x04

abbrev pub msg_display_config : ℕ
msg_display_config = 0x05

abbrev pub msg_display_config_ack : ℕ
msg_display_config_ack = 0x06

abbrev pub msg_stream_start : ℕ
msg_stream_start = 0x07

abbrev pub msg_stream_stop : ℕ
msg_stream_stop = 0x08

abbrev pub msg_video_config : ℕ
msg_video_config = 0x10

abbrev pub msg_video_data : ℕ
msg_video_data = 0x11

abbrev pub msg_input_event : ℕ
msg_input_event = 0x20

abbrev pub msg_ping : ℕ
msg_ping = 0x30

abbrev pub msg_pong : ℕ
msg_pong = 0x31

abbrev pub msg_metrics : ℕ
msg_metrics = 0x40

abbrev pub msg_error : ℕ
msg_error = 0xFE

abbrev pub msg_disconnect : ℕ
msg_disconnect = 0xFF

abbrev pub flag_keyframe : ℕ
flag_keyframe = 0x0001

abbrev pub flag_end_of_frame : ℕ
flag_end_of_frame = 0x0002

abbrev pub flag_config_data : ℕ
flag_config_data = 0x0004

pub record HelloMessage : Type 0 where
  pub client_name : String
  pub client_version : String
  pub screen_width : ℕ  -- u32
  pub screen_height : ℕ  -- u32
  pub density_dpi : ℕ  -- u32
  pub max_fps : ℕ  -- u32
  pub supported_codecs : List String

pub record HelloAckMessage : Type 0 where
  pub server_name : String
  pub server_version : String
  pub session_id : String
  pub width : ℕ  -- u32
  pub height : ℕ  -- u32
  pub fps : ℕ  -- u32
  pub selected_codec : String
  pub auth_required : Bool

pub record DisplayConfigMessage (F : Type 0) : Type 0 where
  pub width : ℕ  -- u32
  pub height : ℕ  -- u32
  pub refresh_rate : ℕ  -- u32
  pub orientation : ℕ  -- u32
  pub scale_factor : F  -- f64

pub record VideoConfigMessage : Type 0 where
  pub codec : String
  pub width : ℕ  -- u32
  pub height : ℕ  -- u32
  pub fps : ℕ  -- u32
  pub bitrate_kbps : ℕ  -- u32
  pub extradata : List ℕ

pub record MetricsMessage (F : Type 0) : Type 0 where
  pub fps : F  -- f32
  pub bitrate_kbps : ℕ  -- u32
  pub rtt_ms : ℕ  -- u32
  pub dropped_frames : ℕ  -- u32
  pub encoder_latency_us : ℕ  -- u32

pub record DisconnectMessage : Type 0 where
  pub code : ℕ  -- u32
  pub reason : String
