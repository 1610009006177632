-- ===== src/Session/Line.antt =====
-- What the runs of the sessions of host/src/session/mod.rs use: a line that takes a number of bytes and
-- then breaks, numbers in place of floats, and a desktop without Mutter's signal.
use ord.Prelude.{
  ◌≡◌, ◌∙◌, ℕ, ◌-◌, ◌*◌, ◌/◌, refl, ap, List, [], ◌∷◌, ◌++◌, Bool, true, false, Bool-cases, inl,
  inr, Option, some, Result, ok, err, length, take, drop, leb, if◌then◌else◌, take-append-drop,
  append_assoc, arith,
}
use Prim.Native.Nat.{min, max}
use Prim.Native.String.{String}
use text.Mathlib.Text.{◌==◌ as str_eq}
use ord.Config
use ord.Protocol.Packet.{OrdPacket}
use ord.Protocol.Message.{MetricsMessage, HelloMessage}
use ord.Display.Mutter.{MutterBus, VirtualDisplayInfo, node, timed_out}
use ord.Protocol.Input
use ord.Protocol.Input.{keyboard_key}
use ord.Session.Wire.Inputs.{ClientPacket, event}
use ord.Session.Host.{Host}
use ord.Protocol.Coordinate.Float.{F64}
use ord.Transport.Tcp.Sink.{StreamError, io, ByteSink}
use ord.Session.Loop.{F32}
use ord.Session.Loop.Connection.{IsConnection}

pub record Line : Type 0 where
  pub bytes : List ℕ
  pub room : ℕ
  pub down : Bool

abbrev pub put : List ℕ → Line → Result StreamError (Unit {0}) × Line
put xs s =
    if s.down
    then (err io, s)
    else if leb (length xs) s.room
    then (ok tt, record s { bytes = s.bytes ++ xs; room = s.room - length xs })
    else (err io, record { bytes = s.bytes ++ take s.room xs; room = 0; down = true })

abbrev pub line : ByteSink
line = record { State = Line; taken = λ s. s.bytes; write_all = put }

pub line-IsConnection : IsConnection line
line-IsConnection = record {
  failed = λ s. s.down;
  write_all-ok = λ xs s up done. elim (Bool-cases (leb (length xs) s.room)) [
    | inl fits ↦ rw (up, fits) (refl, refl)
    | inr over ↦ absurd (ground (arith, up, over, done))
  ];
  write_all-err = λ xs s e up h. elim (Bool-cases (leb (length xs) s.room)) [
    | inl fits ↦ absurd (ground (arith, up, fits, h))
    | inr over ↦
        rw (up, over)
          (
            refl,
            (
              drop s.room xs,
              append_assoc s.bytes (take s.room xs) (drop s.room xs)
                  ∙ ap (λ t. s.bytes ++ t) (take-append-drop s.room xs),
            ),
          )
  ];
  write_all_keeps = λ xs s d. rw d (refl, refl);
}

pub failed-line : (s : Line) → line-IsConnection.failed s ≡ s.down
unfolding line-IsConnection
failed-line s = refl

-- Numbers in place of floats.
abbrev pub f64 : F64
f64 = record {
  Carrier = ℕ;
  of_nat = λ n. n;
  ◌/f◌ = λ a b. a / b;
  ◌*f◌ = λ a b. a * b;
  ◌-f◌ = λ a b. a - b;
  clamp = λ a lo hi. min (max a lo) hi;
  to_u16 = λ a. min a 65535;
}

abbrev pub f32 : F32
f32 = record {
  Carrier = ℕ;
  of_nat = λ n. n;
  ◌/f◌ = λ a b. a / b;
  ◌*f◌ = λ a b. a * b;
  to_u32 = λ a. a;
}

-- Metrics as two bytes.
abbrev pub to_vec : MetricsMessage ℕ → Option (List ℕ)
to_vec m = some (m.fps ∷ m.bitrate_kbps ∷ [])

-- A bus on which Mutter's signal does not come.
abbrev pub silent : MutterBus
silent = record {
  connect = some 1;
  screencast_proxy = true;
  create_session = some "/session";
  session_proxy = true;
  record_virtual = λ _. some "/stream";
  stream_proxy = true;
  receive_signal = true;
  start = true;
  signal = timed_out;
}

-- A tablet that leaves the rate to the host.
abbrev pub tablet : HelloMessage
tablet = record {
  client_name = "tablet";
  client_version = "1";
  screen_width = 2560;
  screen_height = 1600;
  density_dpi = 240;
  max_fps = 0;
  supported_codecs = "h264" ∷ [];
}

abbrev pub only_x264 : String → Bool
only_x264 name = str_eq name "x264enc"

abbrev pub desktop : Host ℕ
desktop = record {
  config = Config.default 1;
  force_test_pattern = false;
  from_slice = λ _. some tablet;
  ack_to_vec = λ ack. some (ack.fps ∷ []);
  config_to_vec = λ config. some (config.orientation ∷ []);
  host_name = "desktop";
  process_id = "1";
  bus = silent;
  bus_at_end = silent;
  input_made = true;
  find = only_x264;
  pipeline_launches = true;
  pipeline_starts = true;
}

abbrev pub hello : OrdPacket
hello = record {
  header = record { version = 1; msg_type = 1; flags = 0; sequence = 0; payload_len = 1 };
  payload = 7 ∷ [];
}

-- A desktop on which Mutter makes the display.
abbrev pub answering : MutterBus
answering = record {
  connect = some 1;
  screencast_proxy = true;
  create_session = some "/session";
  session_proxy = true;
  record_virtual = λ _. some "/stream";
  stream_proxy = true;
  receive_signal = true;
  start = true;
  signal = node 42;
}

abbrev pub gnome : Host ℕ
gnome = record desktop { bus = answering }

abbrev pub info : VirtualDisplayInfo
info = record {
  name = "ORD-Virtual-1";
  width = 2560;
  height = 1600;
  fps = 60;
  pipewire_node_id = 42;
  stream_path = "/stream";
  session_path = "/session";
}

-- A key is pressed.
abbrev pub press : Input.InputEvent
press = record {
  event_type = keyboard_key;
  slot = 0;
  x = 0;
  y = 0;
  code_or_btn = 30;
  state_or_flags = 1;
}

abbrev pub events : List ClientPacket
events = event 1 press ∷ []
