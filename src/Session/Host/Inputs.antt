-- ===== src/Session/Host/Inputs.antt =====
-- A whole TCP session of host/src/session/mod.rs over the reads of its connection: what becomes of the
-- input events of a client, from its hello on.
use ord.Prelude.{
  ℕ, ◌+◌, ◌≤◌, ◌≡◌, refl, sym, ap, subst, ◌∙◌, List, [], ◌++◌, map, true, false, Bool, Option, none,
  some, if◌then◌else◌, Result, ok, err, All, length, arith,
}
use ord.Protocol.Packet.{OrdPacket, encode_packet, new_packet}
use ord.Protocol.Packet.Framing.{IsValid}
use ord.Protocol.Message.{
  HelloMessage, MetricsMessage, msg_hello, msg_hello_ack, msg_display_config,
}
use ord.Protocol.Coordinate.Float.{F64}
use ord.Display.{DisplayBackend}
use ord.Display.Mutter.{VirtualDisplayInfo, MutterError}
use ord.Encoder
use ord.Encoder.{VideoPipeline, fresh}
use ord.Transport.Tcp
use ord.Transport.Tcp.{FramedStream, Read, Outcome, returned, waiting, read_packet}
use ord.Transport.Tcp.Sink.{StreamError, io, ByteSink}
use ord.Transport.Tcp.Chunks.{bytes_of, IsFlowing, encode_packets}
use ord.Session.Screen.{open_display, screen_of}
use ord.Session.Loop.{F32, Event, Session, no_counters, run_session_loop}
use ord.Session.Loop.Connection.{IsConnection, Attempt, write_packet-Attempt}
use ord.Session.Host.{
  Host, fail, stream, pipeline_made, input_of, Client, streaming, shut_down, begin, then_send,
  greet, handle_client, ack_of, display_config_of,
}
use ord.Session.Host.Opening.{connection_of, shut_down-connection}
use ord.Session.Wire.{Turn, Wire, selected}
use ord.Session.Wire.Polling.{Progress, got, blocked, read_packet-Progress}
use ord.Session.Wire.Delivery.{arrivals, polls}
use ord.Session.Wire.Inputs.{ClientPacket, packet_of, IsFit, calls_of, session_after-calls}

module _ (sink : ByteSink) (f64 : F64) (f32 : F32)
    (to_vec : MetricsMessage f32.Carrier → Option (List ℕ)) (host : Host f64.Carrier) where
  -- The session waits for the hello, or has gone on from there.
  pub data Progressed : Type 0 where
    awaiting_hello : List ℕ → sink.State → Progressed
    greeted : Client sink f64 f32 to_vec → Progressed

  abbrev pub go_on : Outcome → List (Turn f32) → sink.State → Progressed
  go_on (waiting buf) ts connection = awaiting_hello buf connection
  go_on (returned r buf reads) ts connection = greeted (
      handle_client sink f64 f32 to_vec host r
        (selected (record { read_buf = buf; socket = reads }) ts) connection)

  abbrev pub on_framed :
      Bool
      → List Read
      → List (Turn f32)
      → sink.State
      → Result StreamError (FramedStream sink.State)
      → Progressed
  on_framed has_peer reads ts connection (err e) =
      greeted (fail sink f64 f32 to_vec (stream e) connection none none)
  on_framed has_peer reads ts connection (ok framed) =
      if has_peer
      then go_on (read_packet framed.read_buf reads) ts framed.stream
      else greeted (fail sink f64 f32 to_vec (stream io) framed.stream none none)

  -- `handle_client` over the reads that its first `read_packet` finds, and what happens then. The flags
  -- say whether `set_nodelay` and `peer_addr` succeed.
  unfoldable pub client_session :
      Bool → Bool → List Read → List (Turn f32) → sink.State → Progressed
  unfolding Tcp.new
  client_session nodelay has_peer reads ts connection =
      on_framed has_peer reads ts connection (Tcp.new nodelay connection)

module _ (sink : ByteSink) (law : IsConnection sink) (f64 : F64) (f32 : F32)
    (to_vec : MetricsMessage f32.Carrier → Option (List ℕ)) (host : Host f64.Carrier)
    (info : VirtualDisplayInfo) (xs : List ClientPacket) where
  abbrev pub connection_in : Progressed sink f64 f32 to_vec host → sink.State
  connection_in (awaiting_hello buf connection) = connection
  connection_in (greeted c) = connection_of sink law f64 f32 to_vec host c

  abbrev Here : Type 0
  Here = Client sink f64 f32 to_vec

  -- Where the connection has not failed, the session is in its loop, and has made the client's calls.
  abbrev pub IsServed : Here → Type 0
  IsServed c =
      law.failed (connection_of sink law f64 f32 to_vec host c) ≡ false
      → (s : Session sink f64 f32 to_vec) × (c ≡ streaming s)
        × (s.calls ≡ calls_of f64 (input_of f64 host info) xs)

  then_send-IsServed :
      (bytes : List ℕ) (s : sink.State) (o : Result StreamError (Unit {0}) × sink.State)
      (b : DisplayBackend) (more : sink.State → Here)
      → Attempt sink law bytes s o
      → ((s' : sink.State) → IsServed (more s'))
      → IsServed (then_send sink f64 f32 to_vec host o b more)
  then_send-IsServed bytes s (ok _, s') b more a h = h s'
  then_send-IsServed bytes s (err x, s') b more a h =
      λ up. let down = a.on_err x refl in absurd (ground (arith, up, down))

  module _ (w : Wire) (ts : List (Turn f32)) (fit : All IsFit xs) (ws : IsFlowing w.socket)
      (fl : IsFlowing (arrivals ts))
      (e : w.read_buf ++ (bytes_of w.socket ++ bytes_of (arrivals ts))
        ≡ encode_packets (map packet_of xs)) where
    abbrev events : List (Event f32)
    events = selected w (ts ++ polls f32 (length xs))

    loop-IsServed :
        (b : DisplayBackend) (p : VideoPipeline) (session : Session sink f64 f32 to_vec)
        → session.input ≡ input_of f64 host info
        → session.calls ≡ []
        → IsServed (
            shut_down sink f64 f32 to_vec host b p
              (run_session_loop sink f64 f32 to_vec session events))
    loop-IsServed b p session i c up =
        let st = run_session_loop sink f64 f32 to_vec session events in
        let same = shut_down-connection sink law f64 f32 to_vec host b p st in
        let (s', runs, made) =
          session_after-calls sink law f64 f32 to_vec session w xs ts fit ws fl e
            (ap law.failed (sym same) ∙ up) in
        (
          s',
          ap (shut_down sink f64 f32 to_vec host b p) runs,
          made ∙ ap (λ t. t ++ calls_of f64 session.input xs) c ∙ ap (λ t. calls_of f64 t xs) i,
        )

    begin-IsServed :
        (made starts : Bool) (b : DisplayBackend) (p : VideoPipeline) (s : sink.State)
        → made ≡ true
        → starts ≡ true
        → IsServed (
            begin sink f64 f32 to_vec host made
              (Encoder.start starts p)
              b
              (record {
                stream = s;
                input = input_of f64 host info;
                calls = [];
                counters = no_counters;
              })
              events)
    unfolding Encoder.start
    begin-IsServed made starts b p s m t = rw (m, t) (loop-IsServed b _ _ refl refl)

    greet-IsServed :
        (o : Result MutterError VirtualDisplayInfo × DisplayBackend) (ack config : List ℕ)
        (s : sink.State)
        → o.0 ≡ ok info
        → host.ack_to_vec (ack_of host info) ≡ some ack
        → host.config_to_vec (display_config_of host info) ≡ some config
        → pipeline_made host info ≡ true
        → host.pipeline_starts ≡ true
        → IsServed (greet sink f64 f32 to_vec host o events s)
    greet-IsServed (err x, b) ack config s opened a c m st = absurd cc
    greet-IsServed (ok info', b) ack config s opened a c m st =
        let same : info ≡ info' = cc in
        subst (λ i. IsServed (greet sink f64 f32 to_vec host (ok i, b) events s)) same
          (rw (a, c)
            (then_send-IsServed _ s _ b _
              (write_packet-Attempt sink law (new_packet msg_hello_ack 0 0 ack) s)
              (λ s'.
                then_send-IsServed _ s' _ b _
                  (write_packet-Attempt sink law (new_packet msg_display_config 0 1 config) s')
                  (λ s''.
                    begin-IsServed (pipeline_made host info) host.pipeline_starts b fresh s'' m
                      st))))

  -- What is to be shown of the session that goes on from a call of `read_packet`.
  abbrev Serves : List (Turn f32) → sink.State → Outcome → Type 0
  Serves ts s o =
      let after = go_on sink f64 f32 to_vec host o (ts ++ polls f32 (length xs)) s in
      law.failed (connection_in after) ≡ false
      → (session : Session sink f64 f32 to_vec) × (after ≡ greeted (streaming session))
        × (session.calls ≡ calls_of f64 (input_of f64 host info) xs)

  Progress-Serves :
      (p : OrdPacket) (bytes : List ℕ) (ts : List (Turn f32)) (s : sink.State) (o : Outcome)
      → 16 + length p.payload ≤ length bytes
      → Progress p (encode_packets (map packet_of xs)) (bytes_of (arrivals ts)) bytes o
      → ((w : Wire)
          → IsFlowing w.socket
          → w.read_buf ++ (bytes_of w.socket ++ bytes_of (arrivals ts))
            ≡ encode_packets (map packet_of xs)
          → IsServed (
              handle_client sink f64 f32 to_vec host
                (ok p)
                (selected w (ts ++ polls f32 (length xs)))
                s))
      → Serves ts s o
  Progress-Serves p bytes ts s o whole (got buf reads e left flows) serves =
      subst (Serves ts s) (sym e) (λ up.
        let (session, runs, made) =
          serves (record { read_buf = buf; socket = reads }) flows left up in
        (session, ap greeted runs, made))
  Progress-Serves p bytes ts s o whole (blocked e lt) serves = absurd (omega (arith, whole, lt))

  -- A whole session: of a client that says hello and then sends input events whose fields fit, and other
  -- valid packets, but no disconnect, where the display is opened, the messages are serialised and the
  -- pipeline is made and started, the backend is given exactly the calls for these events, in order, and
  -- the session is in its loop, once `set_nodelay` and `peer_addr` have succeeded and the hello is there,
  -- and then all has arrived and been polled for, unless a write of the session has failed; however the
  -- bytes are cut, also where the first events come with the hello.
  pub client_session-calls :
      (p : OrdPacket) (hello : HelloMessage) (ack config : List ℕ) (reads : List Read)
      (ts : List (Turn f32)) (s : sink.State)
      → IsValid p
      → p.header.msg_type ≡ msg_hello
      → host.from_slice p.payload ≡ some hello
      → (open_display host.force_test_pattern host.bus (screen_of hello host.config)).0 ≡ ok info
      → host.ack_to_vec (ack_of host info) ≡ some ack
      → host.config_to_vec (display_config_of host info) ≡ some config
      → pipeline_made host info ≡ true
      → host.pipeline_starts ≡ true
      → All IsFit xs
      → IsFlowing reads
      → IsFlowing (arrivals ts)
      → 16 + length p.payload ≤ length (bytes_of reads)
      → bytes_of reads ++ bytes_of (arrivals ts)
        ≡ encode_packet p ++ encode_packets (map packet_of xs)
      → law.failed (
          connection_in (
            client_session sink f64 f32 to_vec host true true reads
              (ts ++ polls f32 (length xs))
              s))
        ≡ false
      → (session : Session sink f64 f32 to_vec) × (client_session sink f64 f32 to_vec host true true
            reads
            (ts ++ polls f32 (length xs))
            s
          ≡ greeted (streaming session))
        × (session.calls ≡ calls_of f64 (input_of f64 host info) xs)
  unfolding client_session handle_client
  client_session-calls p hello ack config reads ts s v t h opened a c m st fit fr fl whole e up =
      Progress-Serves p (bytes_of reads) ts s (read_packet [] reads) whole
        (read_packet-Progress p (encode_packets (map packet_of xs)) (bytes_of (arrivals ts)) v []
          reads fr e)
        (λ w ws left.
          rw (t, h)
            (greet-IsServed w ts fit ws fl left
              (open_display host.force_test_pattern host.bus (screen_of hello host.config)) ack
              config s opened a c m st))
        up
