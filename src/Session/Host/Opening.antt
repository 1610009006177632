-- ===== src/Session/Host/Opening.antt =====
-- What a session of host/src/session/mod.rs puts on its connection, from the greeting on.
use ord.Prelude.{ℕ, ◌≡◌, refl, subst, List, ◌∷◌, ◌++◌, Bool, true, Option, some, Result, ok, err}
use ord.Protocol.Packet.{OrdPacket, new_packet, encode_packet}
use ord.Protocol.Message.{
  HelloMessage, MetricsMessage, msg_hello, msg_hello_ack, msg_display_config,
}
use ord.Protocol.Coordinate.Float.{F64}
use ord.Display.{DisplayBackend}
use ord.Display.Mutter.{VirtualDisplayInfo, MutterError}
use ord.Encoder
use ord.Encoder.{VideoPipeline, fresh}
use ord.Transport.Tcp.Sink.{StreamError, ByteSink}
use ord.Transport.Tcp.Chunks.{encode_packets}
use ord.Session.Loop.{F32, Event, Session, Status, running, returned, no_counters, session_of}
use ord.Session.Loop.Connection.{
  IsConnection, Puts, Puts-append, Puts-failed, Sends, Puts-Sends, Attempt, write_packet-Attempt,
}
use ord.Session.Loop.Sent.{sent, run_session_loop-Puts}
use ord.Session.Host.{
  Host, pipeline_made, Client, ended, streaming, shut_down, begin, then_send, greet, handle_client,
  ack_of, display_config_of,
}
use ord.Session.Screen.{open_display, screen_of}

module _ (sink : ByteSink) (law : IsConnection sink) (f64 : F64) (f32 : F32)
    (to_vec : MetricsMessage f32.Carrier → Option (List ℕ)) (host : Host f64.Carrier) where
  open sink use {State}

  abbrev pub connection_of : Client sink f64 f32 to_vec → State
  connection_of (ended e) = e.connection
  connection_of (streaming session) = session.stream

  pub shut_down-connection :
      (b : DisplayBackend) (p : VideoPipeline) (st : Status sink f64 f32 to_vec)
      → connection_of (shut_down sink f64 f32 to_vec host b p st)
        ≡ (session_of sink f64 f32 to_vec st).stream
  shut_down-connection b p (running s) = refl
  shut_down-connection b p (returned r s) = refl

  then_send-Puts :
      (bytes rest : List ℕ) (s : State) (o : Result StreamError (Unit {0}) × State)
      (b : DisplayBackend) (more : State → Client sink f64 f32 to_vec)
      → Attempt sink law bytes s o
      → ((s' : State) → Puts sink law rest s' (connection_of (more s')))
      → Puts sink law
          (bytes ++ rest)
          s
          (connection_of (then_send sink f64 f32 to_vec host o b more))
  then_send-Puts bytes rest s (ok _, s') b more first h =
      Puts-append sink law bytes rest s s' _ first.puts (h s')
  then_send-Puts bytes rest s (err e, s') b more first h =
      Puts-append sink law bytes rest s s' s' first.puts
        (Puts-failed sink law rest s' (first.on_err e refl))

  begin-Puts :
      (made : Bool) (starts : Bool) (b : DisplayBackend) (session : Session sink f64 f32 to_vec)
      (events : List (Event f32)) (p : VideoPipeline)
      → made ≡ true
      → starts ≡ true
      → Puts sink law (encode_packets (sent f32 to_vec session.counters events)) session.stream (
          connection_of
            (begin sink f64 f32 to_vec host made (Encoder.start starts p) b session events))
  unfolding Encoder.start
  begin-Puts made starts b session events p m t =
      rw (m, t, shut_down-connection) (run_session_loop-Puts sink law f64 f32 to_vec events session)

  greet-Puts :
      (o : Result MutterError VirtualDisplayInfo × DisplayBackend) (info : VirtualDisplayInfo)
      (ack config : List ℕ) (events : List (Event f32)) (s : State)
      → o.0 ≡ ok info
      → host.ack_to_vec (ack_of host info) ≡ some ack
      → host.config_to_vec (display_config_of host info) ≡ some config
      → pipeline_made host info ≡ true
      → host.pipeline_starts ≡ true
      → Puts sink law
          (encode_packets (
            new_packet msg_hello_ack 0 0 ack
            ∷ new_packet msg_display_config 0 1 config
            ∷ sent f32 to_vec no_counters events))
          s
          (connection_of (greet sink f64 f32 to_vec host o events s))
  greet-Puts (err x, b) info ack config events s e a c m st = absurd cc
  greet-Puts (ok info', b) info ack config events s e a c m st =
      let same : info ≡ info' = cc in
      let a' : host.ack_to_vec (ack_of host info') ≡ some ack =
        subst (λ i. host.ack_to_vec (ack_of host i) ≡ some ack) same a in
      let c' : host.config_to_vec (display_config_of host info') ≡ some config =
        subst (λ i. host.config_to_vec (display_config_of host i) ≡ some config) same c in
      let m' : pipeline_made host info' ≡ true = subst (λ i. pipeline_made host i ≡ true) same m in
      rw (a') (
        then_send-Puts (encode_packet (new_packet msg_hello_ack 0 0 ack)) _ s _ b _
          (write_packet-Attempt sink law (new_packet msg_hello_ack 0 0 ack) s)
          (λ s'. rw (c') (
            then_send-Puts (encode_packet (new_packet msg_display_config 0 1 config)) _ s' _ b _
              (write_packet-Attempt sink law (new_packet msg_display_config 0 1 config) s')
              (λ s''.
                begin-Puts (pipeline_made host info') host.pipeline_starts b _ events fresh m'
                  st))))

  -- A client that says hello, where the display is opened, the messages are serialised and the pipeline
  -- is made and started, is sent HELLO_ACK with the
  -- sequence number 0, DISPLAY_CONFIG with 1, and then what the loop sends.
  pub handle_client-Sends :
      (p : OrdPacket) (hello : HelloMessage) (info : VirtualDisplayInfo) (ack config : List ℕ)
      (events : List (Event f32)) (s : State)
      → p.header.msg_type ≡ msg_hello
      → host.from_slice p.payload ≡ some hello
      → (open_display host.force_test_pattern host.bus (screen_of hello host.config)).0 ≡ ok info
      → host.ack_to_vec (ack_of host info) ≡ some ack
      → host.config_to_vec (display_config_of host info) ≡ some config
      → pipeline_made host info ≡ true
      → host.pipeline_starts ≡ true
      → Sends sink law
          (encode_packets (
            new_packet msg_hello_ack 0 0 ack
            ∷ new_packet msg_display_config 0 1 config
            ∷ sent f32 to_vec no_counters events))
          s
          (connection_of (handle_client sink f64 f32 to_vec host (ok p) events s))
  unfolding handle_client
  handle_client-Sends p hello info ack config events s t h i a c m st =
      rw (t, h) (Puts-Sends sink law _ _ _ (greet-Puts _ info ack config events s i a c m st))
