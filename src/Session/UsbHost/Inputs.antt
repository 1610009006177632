-- ===== src/Session/UsbHost/Inputs.antt =====
-- A whole USB session of host/src/session/mod.rs: what becomes of the input events of a client, from its
-- hello on, through the transfers, the read worker, its channel, the handshake and the loop of
-- `handle_usb_client`.
use ord.Prelude.{
  ℕ, suc, ◌≤◌, ◌≡◌, sym, ap, subst, List, ◌∷◌, ◌++◌, map, Bool, true, some, Result, ok, err, All,
  length,
}
use ord.Protocol.Packet.{OrdPacket}
use ord.Protocol.Packet.Framing.{IsValid}
use ord.Protocol.Message.{HelloMessage, msg_hello}
use ord.Protocol.Coordinate.Float.{F64}
use ord.Display.{DisplayBackend}
use ord.Display.Mutter.{VirtualDisplayInfo, MutterError}
use ord.Encoder
use ord.Encoder.{VideoPipeline, fresh}
use ord.Transport.Tcp.Chunks.{encode_packets}
use ord.Session.Screen.{Screen, open_display, screen_of}
use ord.Session.Reader.{UsbRead, read_worker}
use ord.Session.Reader.Chunks.{Brings, bytes_of, packets_of}
use ord.Session.Reader.Recovery.{IsJunk, read_worker-packets}
use ord.Session.Reader.Resync.{start}
use ord.Session.Wire.Inputs.{
  ClientPacket, packet_of, IsFit, calls_of, packet_of-IsValid, length-packets,
}
use ord.Session.Usb.{UsbEvent, UsbSession}
use ord.Session.Usb.Inputs.{took}
use ord.Session.Usb.Arriving.{StaysOpen, IsQuiet, usb_loop-calls}
use ord.Session.Host.{Host, pipeline_made, input_of, display_config_of, encoder_config_of}
use ord.Session.UsbHost.{
  usb_ack_of, UsbClient, streaming, first_state, clean_up, begin, greet, handle_usb_client,
}

module _ (f64 : F64) (host : Host f64.Carrier) (info : VirtualDisplayInfo) (xs : List ClientPacket)
    (es : List UsbEvent) (fit : All IsFit xs) (quiet : All IsQuiet xs)
    (open_still : All StaysOpen es) where
  -- The session is in its loop, and has made the client's calls.
  abbrev pub IsServed : UsbClient f64 → Type 0
  IsServed c =
      (s : UsbSession f64) × (c ≡ streaming s)
      × (s.calls ≡ calls_of f64 (input_of f64 host info) xs)

  begin-IsServed :
      (made starts : Bool) (b : DisplayBackend) (p : VideoPipeline) (screen : Screen)
      (queued : List (List ℕ))
      → made ≡ true
      → starts ≡ true
      → took es ≡ map packet_of xs
      → IsServed (begin f64 host made (Encoder.start starts p) b info screen es queued)
  unfolding Encoder.start
  begin-IsServed made starts b p screen queued m t all =
      let pipeline = (Encoder.start true p).1 in
      let (s, runs, calls) =
        usb_loop-calls f64 (encoder_config_of host info) screen xs
          (first_state f64 host pipeline b info queued) es fit quiet all open_still in
      rw (m, t) (s, ap (clean_up f64 host) runs, calls)

  greet-IsServed :
      (o : Result MutterError VirtualDisplayInfo × DisplayBackend) (screen : Screen)
      (ack config : List ℕ) (ack_taken config_taken : Bool)
      → o.0 ≡ ok info
      → host.ack_to_vec (usb_ack_of host info) ≡ some ack
      → host.config_to_vec (display_config_of host info) ≡ some config
      → pipeline_made host info ≡ true
      → host.pipeline_starts ≡ true
      → took es ≡ map packet_of xs
      → IsServed (greet f64 host o screen ack_taken config_taken es)
  greet-IsServed (err x, b) screen ack config at ct opened a c m st all = absurd cc
  greet-IsServed (ok info', b) screen ack config at ct opened a c m st all =
      let same : info ≡ info' = cc in
      subst (λ i. IsServed (greet f64 host (ok i, b) screen at ct es)) same
        (rw (a, c)
          (begin-IsServed (pipeline_made host info) host.pipeline_starts b fresh screen _ m st all))

  -- A whole session: of a client that sends, behind some bytes at none of which a header is read, a hello
  -- and then input events whose fields fit, and other valid packets, but neither a disconnect nor another
  -- hello, where the display is opened, the messages are serialised and the pipeline is made and started,
  -- the backend is given exactly the calls for these events, in order, and the session is in its loop,
  -- once the loop has taken what the read worker has passed on behind the hello, where the worker's
  -- channel is open for that many packets and the loop's channels stay open. It makes no difference how
  -- the transfers cut the bytes, whether the write worker's channel takes the greeting, which frames are
  -- sent or dropped, and how often the display is recovered.
  pub handle_usb_client-calls :
      (junk : List ℕ) (p : OrdPacket) (hello : HelloMessage) (ack config : List ℕ)
      (ack_taken config_taken : Bool) (n : ℕ) (reads : List UsbRead)
      → IsValid p
      → p.header.msg_type ≡ msg_hello
      → host.from_slice p.payload ≡ some hello
      → (open_display host.force_test_pattern host.bus (screen_of hello host.config)).0 ≡ ok info
      → host.ack_to_vec (usb_ack_of host info) ≡ some ack
      → host.config_to_vec (display_config_of host info) ≡ some config
      → pipeline_made host info ≡ true
      → host.pipeline_starts ≡ true
      → IsJunk junk (encode_packets (p ∷ map packet_of xs))
      → suc (length xs) ≤ n
      → All Brings reads
      → bytes_of reads ≡ junk ++ encode_packets (p ∷ map packet_of xs)
      → packets_of (read_worker (start n) reads) ≡ some (p ∷ took es)
      → (s : UsbSession f64) × (handle_usb_client f64 host (some p) ack_taken config_taken es
          ≡ streaming s)
        × (s.calls ≡ calls_of f64 (input_of f64 host info) xs)
  unfolding handle_usb_client
  handle_usb_client-calls junk p hello ack config at ct n reads v t h opened a c m st j le br e
        took_all =
      let all_read : packets_of (read_worker (start n) reads) ≡ some (p ∷ map packet_of xs) =
        read_worker-packets junk p (map packet_of xs) n reads (v, packet_of-IsValid xs fit) j
          (subst (λ k. suc k ≤ n) (sym (length-packets xs)) le) br e in
      let all : took es ≡ map packet_of xs = cc in
      rw (t, h)
        (greet-IsServed
          (open_display host.force_test_pattern host.bus (screen_of hello host.config))
          (screen_of hello host.config) ack config at ct opened a c m st all)
