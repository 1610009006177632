-- ===== src/Session/Host/InputTests.antt =====
-- A session of `handle_client` (host/src/session/mod.rs) whose client says hello and presses a key.
use ord.Prelude.{
  ◌≡◌, refl, ◌∙◌, ℕ, List, [], ◌∷◌, ◌++◌, map, take, drop, true, false, none, All, arith,
}
use ord.Protocol.Packet.{new_packet, encode_packet, encode_header, decode_header}
use ord.Protocol.Input
use ord.Protocol.Input.{keyboard_key}
use ord.Encoder
use ord.Encoder.{VideoFrame}
use ord.Input.{dispatch}
use ord.Transport.Tcp.{Read, received, read_packet, next_packet, write_packet, write_frame_data}
use ord.Transport.Tcp.Chunks.{encode_packets}
use ord.Session.Line.{
  Line, line, line-IsConnection, failed-line, f64, f32, to_vec, tablet, hello, gnome, info, events,
}
use ord.Session.Screen.{open_display}
use ord.Session.Loop.{Session, turn, run_session_loop}
use ord.Session.Wire.{Turn, arrives, frame_ready, poll_read, selected}
use ord.Session.Wire.Delivery.{polls}
use ord.Session.Wire.Inputs.{packet_of, IsFit, calls_of}
use ord.Session.Host.{streaming, pipeline_made, input_of, handle_client}
use ord.Session.Host.Inputs.{client_session, greeted, connection_in, client_session-calls}

fit : All IsFit events
fit = ((omega arith, omega arith), tt)

abbrev key_packet : List ℕ
key_packet = encode_packets (map packet_of events)

-- The first bytes of the key press come with the hello, and a frame is sent before the others.
abbrev reads : List Read
reads = received (encode_packet hello ++ take 10 key_packet) ∷ []

abbrev turns : List (Turn f32)
turns =
    poll_read
    ∷ frame_ready (record { pts_us = 0; is_keyframe = true; bytes = 9 ∷ [] }) none
    ∷ arrives (received (drop 10 key_packet))
    ∷ []

abbrev free : Line
free = record { bytes = []; room = 1000; down = false }

not_failed :
    line-IsConnection.failed (
      connection_in line line-IsConnection f64 f32 to_vec gnome info events
        (client_session line f64 f32 to_vec gnome true true reads (turns ++ polls f32 1) free))
    ≡ false
unfolding client_session handle_client open_display pipeline_made input_of run_session_loop turn
    selected read_packet next_packet decode_header Input.decode Input.encode dispatch write_packet
    write_frame_data encode_packet encode_header new_packet Encoder.start
not_failed = failed-line _ ∙ refl

client_session-calls_example :
    (session : Session line f64 f32 to_vec) × (client_session line f64 f32 to_vec gnome true true
        reads
        (turns ++ polls f32 1)
        free
      ≡ greeted (streaming session))
    × (session.calls ≡ calls_of f64 (input_of f64 gnome info) events)
unfolding open_display pipeline_made encode_packet encode_header new_packet Input.encode
client_session-calls_example =
    client_session-calls line line-IsConnection f64 f32 to_vec gnome info events hello tablet
      (60 ∷ []) (0 ∷ []) reads turns free (record { header = omega arith; framed = refl }) refl refl
      refl refl refl refl refl fit (tt, tt) (tt, tt) (omega arith) refl not_failed
