-- ===== src/Session/UsbHost/Received.antt =====
-- What the other end of a USB session of host/src/session/mod.rs reads, from the greeting on.
use ord.Prelude.{ℕ, ◌≡◌, ◌∙◌, List, [], ◌∷◌, true, some, ok, All, length, map}
use ord.Protocol.Packet.{OrdPacket, new_packet}
use ord.Protocol.Packet.Framing.{IsValid}
use ord.Protocol.Message.{HelloMessage, msg_hello, msg_hello_ack, msg_display_config}
use ord.Protocol.Coordinate.Float.{F64}
use ord.Display.Mutter.{VirtualDisplayInfo}
use ord.Transport.Tcp.{Read}
use ord.Transport.Tcp.Chunks.{bytes_of, IsFlowing, read_packets}
use ord.Session.Screen.{open_display, screen_of}
use ord.Session.Host.{Host, pipeline_made, display_config_of}
use ord.Session.Usb.{UsbEvent}
use ord.Session.Usb.Queue.{outgoing}
use ord.Session.UsbHost.{usb_ack_of, handle_usb_client}
use ord.Session.UsbHost.Greeting.{queue_of, handle_usb_client-queue}
use ord.Session.Writer.{WriteTurn, write_worker}
use ord.Session.Writer.Delivery.{bus, Succeeds, write_worker-read_packets}

module _ (f64 : F64) (host : Host f64.Carrier) (info : VirtualDisplayInfo) (ack config : List ℕ)
    (events : List UsbEvent) where
  -- The greeting and what the loop sends.
  abbrev pub conversation : List OrdPacket
  conversation =
      new_packet msg_hello_ack 0 0 ack
      ∷ new_packet msg_display_config 0 1 config
      ∷ outgoing 0 events

  -- A client that says hello over USB, where the display is opened, the messages are serialised and
  -- taken by the channel, the pipeline is made and started, the packets are valid, and the write worker
  -- writes all of them to a device that takes them: a reader of the same framing at the other end
  -- gets HELLO_ACK, DISPLAY_CONFIG and the packets of the loop, in order, however its reads cut the
  -- bytes.
  pub handle_usb_client-read_packets :
      (p : OrdPacket) (hello : HelloMessage) (ts : List WriteTurn) (reads : List Read)
      → p.header.msg_type ≡ msg_hello
      → host.from_slice p.payload ≡ some hello
      → (open_display host.force_test_pattern host.bus (screen_of hello host.config)).0 ≡ ok info
      → host.ack_to_vec (usb_ack_of host info) ≡ some ack
      → host.config_to_vec (display_config_of host info) ≡ some config
      → pipeline_made host info ≡ true
      → host.pipeline_starts ≡ true
      → All IsValid conversation
      → map (λ (t : WriteTurn). t.packet) ts
        ≡ queue_of f64 host (handle_usb_client f64 host (some p) true true events)
      → All Succeeds ts
      → IsFlowing reads
      → bytes_of reads ≡ bus (write_worker ts)
      → read_packets (length conversation) [] reads ≡ conversation
  handle_usb_client-read_packets p hello ts reads t h i a c m st vs taken succeed flows b =
      write_worker-read_packets ts conversation reads
        (taken ∙ handle_usb_client-queue f64 host p hello info ack config events t h i a c m st) vs
        succeed flows b
