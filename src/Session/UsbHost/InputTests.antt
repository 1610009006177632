-- ===== src/Session/UsbHost/InputTests.antt =====
-- A session of `handle_usb_client` (host/src/session/mod.rs) whose client says hello and presses a key.
use ord.Prelude.{◌≡◌, refl, List, [], ◌∷◌, map, take, drop, ℕ, true, false, some, All, arith}
use ord.Protocol.Packet.{new_packet, encode_packet, encode_header, decode_header}
use ord.Protocol.Packet.Framing.{IsValid}
use ord.Protocol.Input
use ord.Encoder.{VideoFrame}
use ord.Transport.Tcp.Chunks.{encode_packets}
use ord.Session.Line.{f64, tablet, hello, gnome, info, press, events}
use ord.Session.Screen.{open_display}
use ord.Session.Reader.{UsbRead, arrived, read_worker}
use ord.Session.Reader.Chunks.{packets_of}
use ord.Session.Reader.Recovery.{read_worker-packets}
use ord.Session.Reader.Resync.{start}
use ord.Session.Wire.Inputs.{event, packet_of, IsFit, calls_of, packet_of-IsValid}
use ord.Session.Usb.{UsbEvent, UsbSession, frame, packet, accepted, full}
use ord.Session.Host.{pipeline_made, input_of}
use ord.Session.UsbHost.{streaming, handle_usb_client}
use ord.Session.UsbHost.Inputs.{handle_usb_client-calls}

fit : All IsFit events
fit = ((omega arith, omega arith), tt)

hello-IsValid : IsValid hello
hello-IsValid = record { header = omega arith; framed = refl }

abbrev stream : List ℕ
stream = encode_packets (hello ∷ map packet_of events)

-- A byte of an earlier packet, and the two packets in two transfers.
abbrev transfers : List UsbRead
transfers = arrived (7 ∷ take 20 stream) ∷ arrived (drop 20 stream) ∷ []

abbrev picture : VideoFrame
picture = record { pts_us = 0; is_keyframe = false; bytes = 9 ∷ [] }

abbrev turns : List UsbEvent
turns = frame picture accepted ∷ packet (packet_of (event 1 press)) true ∷ frame picture full ∷ []

transfers_pass :
    packets_of (read_worker (start 120) transfers) ≡ some (hello ∷ map packet_of events)
unfolding decode_header encode_packet encode_header new_packet Input.encode
transfers_pass =
    read_worker-packets (7 ∷ []) hello (map packet_of events) 120 transfers
      (hello-IsValid, packet_of-IsValid events fit) ((_, refl), tt) (omega arith) (tt, (tt, tt))
      refl

handle_usb_client-calls_example :
    (s : UsbSession f64) × (handle_usb_client f64 gnome (some hello) true true turns ≡ streaming s)
    × (s.calls ≡ calls_of f64 (input_of f64 gnome info) events)
unfolding open_display pipeline_made decode_header encode_packet encode_header new_packet
    Input.encode
handle_usb_client-calls_example =
    handle_usb_client-calls f64 gnome info events turns fit (refl, tt) (tt, (tt, (tt, tt))) (7 ∷ [])
      hello tablet (60 ∷ []) (0 ∷ []) true true 120 transfers hello-IsValid refl refl refl refl refl
      refl refl ((_, refl), tt) (omega arith) (tt, (tt, tt)) refl transfers_pass
