-- ===== src/Session/UsbHost/Greeting.antt =====
-- What `handle_usb_client` of host/src/session/mod.rs gives to its write worker, from the greeting on.
use ord.Prelude.{ℕ, ◌≡◌, refl, subst, ◌∙◌, List, ◌∷◌, ◌++◌, Bool, true, some, Result, ok, err, map}
use ord.Protocol.Packet.{OrdPacket, new_packet, encode_packet}
use ord.Protocol.Message.{HelloMessage, msg_hello, msg_hello_ack, msg_display_config}
use ord.Protocol.Coordinate.Float.{F64}
use ord.Display.{DisplayBackend}
use ord.Display.Mutter.{VirtualDisplayInfo, MutterError}
use ord.Encoder
use ord.Encoder.{EncoderConfig, VideoPipeline, fresh}
use ord.Session.Screen.{Screen, open_display, screen_of}
use ord.Session.Host.{Host, pipeline_made, display_config_of, encoder_config_of}
use ord.Session.Usb.{UsbEvent, UsbSession, UsbStatus, running, broken, usb_loop}
use ord.Session.Usb.Queue.{outgoing, session_in, usb_loop-queue}
use ord.Session.UsbHost.{
  usb_ack_of, UsbClient, failed, streaming, joining, clean_up, first_state, begin, greet,
  handle_usb_client,
}

module _ (f64 : F64) (host : Host f64.Carrier) where
  abbrev pub queue_of : UsbClient f64 → List (List ℕ)
  queue_of (failed f) = f.queued
  queue_of (streaming s) = s.queued
  queue_of (joining closed s) = s.queued

  clean_up-queue :
      (config : EncoderConfig) (screen : Screen) (st : UsbStatus f64)
      → queue_of (clean_up f64 host st) ≡ (session_in f64 config screen st).queued
  clean_up-queue config screen (running s) = refl
  clean_up-queue config screen (broken s) = refl

  loop-queue :
      (config : EncoderConfig) (screen : Screen) (events : List UsbEvent) (s : UsbSession f64)
      → queue_of (clean_up f64 host (usb_loop f64 config screen s events))
        ≡ s.queued ++ map encode_packet (outgoing s.frame_seq events)
  loop-queue config screen events s =
      clean_up-queue config screen (usb_loop f64 config screen s events)
      ∙ usb_loop-queue f64 config screen events s

  begin-queue :
      (made starts : Bool) (p : VideoPipeline) (b : DisplayBackend) (info : VirtualDisplayInfo)
      (screen : Screen) (events : List UsbEvent) (queued : List (List ℕ))
      → made ≡ true
      → starts ≡ true
      → queue_of (begin f64 host made (Encoder.start starts p) b info screen events queued)
        ≡ queued ++ map encode_packet (outgoing 0 events)
  unfolding Encoder.start
  begin-queue made starts p b info screen events queued m t =
      rw (m, t)
        (loop-queue (encoder_config_of host info) screen events
          (first_state f64 host (record p { playing = true }) b info queued))

  greet-queue :
      (o : Result MutterError VirtualDisplayInfo × DisplayBackend) (info : VirtualDisplayInfo)
      (screen : Screen) (ack config : List ℕ) (events : List UsbEvent)
      → o.0 ≡ ok info
      → host.ack_to_vec (usb_ack_of host info) ≡ some ack
      → host.config_to_vec (display_config_of host info) ≡ some config
      → pipeline_made host info ≡ true
      → host.pipeline_starts ≡ true
      → queue_of (greet f64 host o screen true true events)
        ≡ map encode_packet (
            new_packet msg_hello_ack 0 0 ack
            ∷ new_packet msg_display_config 0 1 config
            ∷ outgoing 0 events)
  greet-queue (err x, b) info screen ack config events e a c m st = absurd cc
  greet-queue (ok info', b) info screen ack config events e a c m st =
      let same : info ≡ info' = cc in
      let a' : host.ack_to_vec (usb_ack_of host info') ≡ some ack =
        subst (λ i. host.ack_to_vec (usb_ack_of host i) ≡ some ack) same a in
      let c' : host.config_to_vec (display_config_of host info') ≡ some config =
        subst (λ i. host.config_to_vec (display_config_of host i) ≡ some config) same c in
      let m' : pipeline_made host info' ≡ true = subst (λ i. pipeline_made host i ≡ true) same m in
      rw (a', c')
        (begin-queue (pipeline_made host info') host.pipeline_starts fresh b info' screen events _
          m' st)

  -- A client that says hello over USB, where the display is opened, the messages are serialised and
  -- taken by the channel, and the pipeline is made and started, is to be sent HELLO_ACK with the
  -- sequence number 0, DISPLAY_CONFIG with 1, and then the packets of the loop, in this order.
  pub handle_usb_client-queue :
      (p : OrdPacket) (hello : HelloMessage) (info : VirtualDisplayInfo) (ack config : List ℕ)
      (events : List UsbEvent)
      → p.header.msg_type ≡ msg_hello
      → host.from_slice p.payload ≡ some hello
      → (open_display host.force_test_pattern host.bus (screen_of hello host.config)).0 ≡ ok info
      → host.ack_to_vec (usb_ack_of host info) ≡ some ack
      → host.config_to_vec (display_config_of host info) ≡ some config
      → pipeline_made host info ≡ true
      → host.pipeline_starts ≡ true
      → queue_of (handle_usb_client f64 host (some p) true true events)
        ≡ map encode_packet (
            new_packet msg_hello_ack 0 0 ack
            ∷ new_packet msg_display_config 0 1 config
            ∷ outgoing 0 events)
  unfolding handle_usb_client
  handle_usb_client-queue p hello info ack config events t h i a c m st =
      rw (t, h) (greet-queue _ info (screen_of hello host.config) ack config events i a c m st)
