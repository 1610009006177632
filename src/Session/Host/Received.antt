-- ===== src/Session/Host/Received.antt =====
-- What the other end of a TCP session of host/src/session/mod.rs reads, from the greeting on.
use ord.Prelude.{
  ℕ, ◌≡◌, sym, ◌∙◌, List, [], ◌∷◌, append-nil, true, false, Option, some, ok, All, length,
}
use ord.Protocol.Packet.{OrdPacket, new_packet}
use ord.Protocol.Packet.Framing.{IsValid}
use ord.Protocol.Message.{
  HelloMessage, MetricsMessage, msg_hello, msg_hello_ack, msg_display_config,
}
use ord.Protocol.Coordinate.Float.{F64}
use ord.Display.Mutter.{VirtualDisplayInfo}
use ord.Transport.Tcp.{Read}
use ord.Transport.Tcp.Sink.{ByteSink}
use ord.Transport.Tcp.Chunks.{
  bytes_of, IsFlowing, encode_packets, read_packets, read_packets_chunks,
}
use ord.Session.Screen.{open_display, screen_of}
use ord.Session.Loop.{F32, Event, no_counters}
use ord.Session.Loop.Connection.{IsConnection}
use ord.Session.Loop.Video.{Sends-taken}
use ord.Session.Loop.Sent.{sent}
use ord.Session.Host.{Host, pipeline_made, ack_of, display_config_of, handle_client}
use ord.Session.Host.Opening.{connection_of, handle_client-Sends}

module _ (sink : ByteSink) (law : IsConnection sink) (f64 : F64) (f32 : F32)
    (to_vec : MetricsMessage f32.Carrier → Option (List ℕ)) (host : Host f64.Carrier)
    (info : VirtualDisplayInfo) (ack config : List ℕ) (events : List (Event f32)) where
  -- The greeting and what the loop sends.
  abbrev pub conversation : List OrdPacket
  conversation =
      new_packet msg_hello_ack 0 0 ack
      ∷ new_packet msg_display_config 0 1 config
      ∷ sent f32 to_vec no_counters events

  -- A client that says hello over TCP, where the display is opened, the messages are serialised, the
  -- pipeline is made and started, the packets are valid, and the connection was new and has not failed:
  -- a reader of the same framing at the other end gets HELLO_ACK, DISPLAY_CONFIG and the packets of the
  -- loop, in order, however its reads cut the bytes.
  pub handle_client-read_packets :
      (p : OrdPacket) (hello : HelloMessage) (s : sink.State) (reads : List Read)
      → p.header.msg_type ≡ msg_hello
      → host.from_slice p.payload ≡ some hello
      → (open_display host.force_test_pattern host.bus (screen_of hello host.config)).0 ≡ ok info
      → host.ack_to_vec (ack_of host info) ≡ some ack
      → host.config_to_vec (display_config_of host info) ≡ some config
      → pipeline_made host info ≡ true
      → host.pipeline_starts ≡ true
      → All IsValid conversation
      → sink.taken s ≡ []
      → law.failed (
          connection_of sink law f64 f32 to_vec host
            (handle_client sink f64 f32 to_vec host (ok p) events s))
        ≡ false
      → IsFlowing reads
      → bytes_of reads
        ≡ sink.taken (
            connection_of sink law f64 f32 to_vec host
              (handle_client sink f64 f32 to_vec host (ok p) events s))
      → read_packets (length conversation) [] reads ≡ conversation
  handle_client-read_packets p hello s reads t h i a c m st vs empty fine flows b =
      read_packets_chunks conversation [] [] reads vs flows (
        b
        ∙ Sends-taken sink law (encode_packets conversation) s _
            (handle_client-Sends sink law f64 f32 to_vec host p hello info ack config events s t h i
              a c m st)
            empty fine
        ∙ sym (append-nil (encode_packets conversation)))
