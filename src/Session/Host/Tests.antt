-- ===== src/Session/Host/Tests.antt =====
-- Runs of `handle_client` of host/src/session/mod.rs.
use ord.Prelude.{ℕ, ◌≡◌, refl, List, [], ◌∷◌, false, none, some, ok, err, take, drop, All, arith}
use ord.Encoder
use ord.Protocol.Packet.Framing.{IsValid, new_packet-IsValid}
use ord.Transport.Tcp.{received}
use ord.Transport.Tcp.Chunks.{read_packets}
use ord.Session.Host.Received.{conversation, handle_client-read_packets}
use ord.Protocol.Packet.{OrdPacket, new_packet, new_header, encode_packet, encode_header}
use ord.Protocol.Message.{msg_hello_ack, msg_display_config}
use ord.Display.{DisplayBackend, test_pattern, create_virtual_display, destroy_virtual_display}
use ord.Display.Mutter
use ord.Display.Mutter.{stop}
use ord.Transport.Tcp.Sink.{closed}
use ord.Transport.Tcp.{write_packet}
use ord.Transport.Tcp.Chunks.{encode_packets}
use ord.Session.Line.{
  Line, line, line-IsConnection, failed-line, f64, f32, to_vec, silent, tablet, desktop, hello,
  gnome,
}
use ord.Session.Loop.{Event, read, no_counters, run_session_loop, turn}
use ord.Session.Loop.Connection.{Sends}
use ord.Session.Loop.Sent.{sent}
use ord.Session.Host.{Host, Ended, pipeline_made, handle_client}
use ord.Session.Screen.{screen_of, open_display}
use ord.Session.Host.Negotiation.{IsOpened, open_display-IsOpened}
use ord.Session.Host.Opening.{connection_of, handle_client-Sends}
use ord.Session.Host.Cleanup.{IsCleaned, IsLeft, handle_client-IsCleaned, handle_client-leaves}

abbrev free : Line
free = record { bytes = []; room = 1000; down = false }

abbrev hung_up : List (Event f32)
hung_up = read (err closed) ∷ []

open_display-IsOpened_example :
    IsOpened
      (screen_of tablet desktop.config)
      (open_display false silent (screen_of tablet desktop.config))
open_display-IsOpened_example = open_display-IsOpened false silent (screen_of tablet desktop.config)

handle_client-Sends_example :
    Sends line line-IsConnection
      (encode_packets (
        new_packet msg_hello_ack 0 0 (60 ∷ [])
        ∷ new_packet msg_display_config 0 1 (0 ∷ [])
        ∷ sent f32 to_vec no_counters hung_up))
      free
      (connection_of line line-IsConnection f64 f32 to_vec desktop
        (handle_client line f64 f32 to_vec desktop (ok hello) hung_up free))
unfolding open_display pipeline_made
handle_client-Sends_example =
    handle_client-Sends line line-IsConnection f64 f32 to_vec desktop hello tablet
      (test_pattern 2560 1600 60) (60 ∷ []) (0 ∷ []) hung_up free refl refl refl refl refl refl refl

abbrev no_encoder : Host ℕ
no_encoder = record desktop { find = λ _. false }

handle_client-leaves_example :
    IsLeft line f64 f32 to_vec no_encoder
      (open_display false silent (screen_of tablet desktop.config)).1
      (handle_client line f64 f32 to_vec no_encoder (ok hello) hung_up free)
handle_client-leaves_example =
    handle_client-leaves line f64 f32 to_vec no_encoder hello tablet hung_up free refl refl refl
      refl refl

-- Mutter has made the display, and is told to stop its session.
abbrev left : Ended Line
left = record {
  result = ok tt;
  connection =
      (write_packet line (new_packet msg_display_config 0 1 (0 ∷ []))
        (write_packet line (new_packet msg_hello_ack 0 0 (60 ∷ [])) free).1).1;
  backend = some (
      DisplayBackend.mutter (record {
        connection = some 1;
        session_path = none;
        stream_path = none;
        node_id = none;
        display_info = none;
      }));
  pipeline = some (record { is_running = false; playing = false });
  bus_calls = stop 1 "/session" ∷ [];
}

handle_client-IsCleaned_example : IsCleaned line f64 f32 to_vec gnome (stop 1 "/session" ∷ []) left
unfolding handle_client open_display pipeline_made run_session_loop turn write_packet encode_packet
    encode_header new_packet new_header Encoder.start Encoder.stop destroy_virtual_display
    create_virtual_display Mutter.create Mutter.destroy
handle_client-IsCleaned_example =
    handle_client-IsCleaned line f64 f32 to_vec gnome hello tablet hung_up free {e = left} refl refl
      refl refl

abbrev greeting : List OrdPacket
greeting =
    conversation line line-IsConnection f64 f32 to_vec desktop (test_pattern 2560 1600 60) (60 ∷ [])
      (0 ∷ []) hung_up

greeting-IsValid : All IsValid greeting
unfolding sent
greeting-IsValid = (
  new_packet-IsValid msg_hello_ack 0 0 (60 ∷ []) (omega arith) (omega arith) (omega arith)
      (omega arith),
  (
    new_packet-IsValid msg_display_config 0 1 (0 ∷ []) (omega arith) (omega arith) (omega arith)
        (omega arith),
    tt,
  ),
)

-- The bytes of the greeting, which arrive in two reads.
abbrev stream : List ℕ
stream =
    0x4F ∷ 0x52 ∷ 0x44 ∷ 0x31 ∷ 1 ∷ 2 ∷ 0 ∷ 0 ∷ 0 ∷ 0 ∷ 0 ∷ 0 ∷ 1 ∷ 0 ∷ 0 ∷ 0 ∷ 60 ∷ 0x4F ∷ 0x52
    ∷ 0x44 ∷ 0x31 ∷ 1 ∷ 5 ∷ 0 ∷ 0 ∷ 1 ∷ 0 ∷ 0 ∷ 0 ∷ 1 ∷ 0 ∷ 0 ∷ 0 ∷ 0 ∷ []

handle_client-read_packets_example :
    read_packets 2 [] (received (take 20 stream) ∷ received (drop 20 stream) ∷ []) ≡ greeting
unfolding handle_client open_display pipeline_made run_session_loop turn write_packet encode_packet
    encode_header new_packet new_header Encoder.start sent
handle_client-read_packets_example =
    handle_client-read_packets line line-IsConnection f64 f32 to_vec desktop
      (test_pattern 2560 1600 60) (60 ∷ []) (0 ∷ []) hung_up hello tablet free
      (received (take 20 stream) ∷ received (drop 20 stream) ∷ []) refl refl refl refl refl refl
      refl greeting-IsValid refl (failed-line _) (tt, (tt, tt)) refl
