-- ===== src/Session/Host/Cleanup.antt =====
-- What a session of host/src/session/mod.rs leaves behind when it ends.
use ord.Prelude.{
  ℕ, ◌≡◌, ◌≢◌, refl, ap, subst, List, [], Bool, true, false, Bool-cases, inl, inr, Option, none,
  some, Result, ok, err, ◌==◌,
}
use ord.Protocol.Packet.{OrdPacket, new_packet}
use ord.Protocol.Message.{
  HelloMessage, MetricsMessage, msg_hello, msg_hello_ack, msg_display_config,
}
use ord.Protocol.Coordinate.Float.{F64}
use ord.Display.{DisplayBackend, destroy_virtual_display}
use ord.Display.Mutter.{VirtualDisplayInfo, MutterError, BusCall}
use ord.Encoder.{VideoPipeline, fresh}
use ord.Encoder
use ord.Encoder.Choice.{build_pipeline_string-fails}
use ord.Transport.Tcp.{write_packet}
use ord.Transport.Tcp.Sink.{StreamError, ByteSink}
use ord.Session.Loop.{F32, Event, Session, Status, running, returned}
use ord.Session.Host.{
  SessionError, stream, not_hello, no_json, no_pipeline, not_started, display, ack_of,
  display_config_of, Host, launched, pipeline_made, encoder_config_of, Ended, Client, ended,
  streaming, fail, shut_down, begin, stream_video, then_send, send_json, greet, with_hello,
  handle_client,
}
use ord.Session.Screen.{open_display, screen_of}
use ord.Session.Stops.{owed, destroy-owed, owed-destroy, stop_opened, owed-open_display}

module _ (sink : ByteSink) (f64 : F64) (f32 : F32)
    (to_vec : MetricsMessage f32.Carrier → Option (List ℕ)) (host : Host f64.Carrier) where
  open sink use {State}

  -- Mutter has been told to stop these sessions, there is none left to stop, and the pipeline is stopped.
  pub record IsCleaned (stops : List BusCall) (e : Ended State) : Type 0 where
    pub backend : DisplayBackend
    pub pipeline : VideoPipeline
    pub left_backend : e.backend ≡ some backend
    pub left_pipeline : e.pipeline ≡ some pipeline
    pub called : e.bus_calls ≡ stops
    pub destroyed : owed backend ≡ []
    pub stopped : pipeline.is_running ≡ false

  module _ (stops : List BusCall) where
    -- What an `Ok` says.
    abbrev IsClean : Client sink f64 f32 to_vec → Type 0
    IsClean (streaming session) = Unit
    IsClean (ended e) = e.result ≡ ok tt → IsCleaned stops e

    fail-IsClean :
        (e : SessionError) (s : State) (b : Option DisplayBackend) (p : Option VideoPipeline)
        → IsClean (fail sink f64 f32 to_vec e s b p)
    fail-IsClean e s b p h = absurd cc

  shut_down-IsClean :
      (b : DisplayBackend) (p : VideoPipeline) (st : Status sink f64 f32 to_vec)
      → host.bus_at_end.session_proxy ≡ true
      → IsClean (owed b) (shut_down sink f64 f32 to_vec host b p st)
  unfolding Encoder.stop
  shut_down-IsClean b p (running session) proxy = tt
  shut_down-IsClean b p (returned r session) proxy = λ h. record {
    backend = (destroy_virtual_display host.bus_at_end b).1;
    pipeline = Encoder.stop p;
    left_backend = refl;
    left_pipeline = refl;
    called = destroy-owed host.bus_at_end b proxy;
    destroyed = owed-destroy host.bus_at_end b;
    stopped = refl;
  }

  begin-IsClean :
      (made : Bool) (started : Bool × VideoPipeline) (b : DisplayBackend)
      (session : Session sink f64 f32 to_vec) (events : List (Event f32))
      → host.bus_at_end.session_proxy ≡ true
      → IsClean (owed b) (begin sink f64 f32 to_vec host made started b session events)
  begin-IsClean false started b session events proxy =
      fail-IsClean (owed b) no_pipeline session.stream (some b) none
  begin-IsClean true (false, p) b session events proxy =
      fail-IsClean (owed b) not_started session.stream (some b) (some p)
  begin-IsClean true (true, p) b session events proxy = shut_down-IsClean b p _ proxy

  -- A property of the calls that fail with the display open, and of the sessions that get to their
  -- loop, is one of all that have greeted the client.
  module _ (P : Client sink f64 f32 to_vec → Type 0) where
    then_send-holds :
        (o : Result StreamError (Unit {0}) × State) (b : DisplayBackend)
        (more : State → Client sink f64 f32 to_vec)
        → ((e : SessionError) (s' : State) → P (fail sink f64 f32 to_vec e s' (some b) none))
        → ((s' : State) → P (more s'))
        → P (then_send sink f64 f32 to_vec host o b more)
    then_send-holds (ok _, s') b more failed h = h s'
    then_send-holds (err e, s') b more failed h = failed (stream e) s'

    send_json-holds :
        (payload : Option (List ℕ)) (t q : ℕ) (b : DisplayBackend) (s : State)
        (more : State → Client sink f64 f32 to_vec)
        → ((e : SessionError) (s' : State) → P (fail sink f64 f32 to_vec e s' (some b) none))
        → ((s' : State) → P (more s'))
        → P (send_json sink f64 f32 to_vec host payload t q b s more)
    send_json-holds none t q b s more failed h = failed no_json s
    send_json-holds (some payload) t q b s more failed h =
        then_send-holds (write_packet sink (new_packet t 0 q payload) s) b more failed h

    greet-holds :
        (o : Result MutterError VirtualDisplayInfo × DisplayBackend) (events : List (Event f32))
        (s : State)
        → ((e : SessionError) (s' : State) → P (fail sink f64 f32 to_vec e s' (some o.1) none))
        → ((info : VirtualDisplayInfo) (s' : State)
            → P (stream_video sink f64 f32 to_vec host o.1 info events s'))
        → P (greet sink f64 f32 to_vec host o events s)
    greet-holds (err e, b) events s failed h = failed (display e) s
    greet-holds (ok info, b) events s failed h =
        send_json-holds (host.ack_to_vec (ack_of host info)) msg_hello_ack 0 b s _ failed (λ s'.
          send_json-holds (host.config_to_vec (display_config_of host info)) msg_display_config 1 b
            s' _ failed (h info))

  with_hello-IsClean :
      (hello : HelloMessage) (events : List (Event f32)) (s : State)
      → host.bus_at_end.session_proxy ≡ true
      → IsClean
          (stop_opened host.force_test_pattern host.bus (screen_of hello host.config))
          (with_hello sink f64 f32 to_vec host (some hello) events s)
  with_hello-IsClean hello events s proxy =
      let screen = screen_of hello host.config in
      let o = open_display host.force_test_pattern host.bus screen in
      subst (λ stops. IsClean stops (with_hello sink f64 f32 to_vec host (some hello) events s))
        (owed-open_display host.force_test_pattern host.bus screen)
        (greet-holds (IsClean (owed o.1)) o events s
          (λ e s'. fail-IsClean (owed o.1) e s' (some o.1) none)
          (λ info s'. begin-IsClean (pipeline_made host info) _ o.1 _ events proxy))

  -- A call of `handle_client` that returns `Ok`, where a proxy of the display's session can be made at
  -- its end, has called `Stop` once on the session that Mutter has made for the size that was asked for,
  -- over the same connection, and on none where the display is the test pattern; it leaves nothing to
  -- stop, and its pipeline is stopped.
  pub handle_client-IsCleaned :
      (p : OrdPacket) (hello : HelloMessage) (events : List (Event f32)) (s : State)
      {e : Ended State}
      → host.from_slice p.payload ≡ some hello
      → host.bus_at_end.session_proxy ≡ true
      → handle_client sink f64 f32 to_vec host (ok p) events s ≡ ended e
      → e.result ≡ ok tt
      → IsCleaned (stop_opened host.force_test_pattern host.bus (screen_of hello host.config)) e
  unfolding handle_client
  handle_client-IsCleaned p hello events s h proxy is_end done =
      let stops = stop_opened host.force_test_pattern host.bus (screen_of hello host.config) in
      let clean : IsClean stops (handle_client sink f64 f32 to_vec host (ok p) events s) =
        elim (Bool-cases (p.header.msg_type == msg_hello)) [
          | inl greeting ↦ rw (greeting, h) (with_hello-IsClean hello events s proxy)
          | inr other ↦ rw other (fail-IsClean stops (not_hello p.header.msg_type) s none none)
        ] in
      subst (IsClean stops) is_end clean done

  -- The call has failed, and drops the backend as it was made.
  abbrev pub IsLeft : DisplayBackend → Client sink f64 f32 to_vec → Type 0
  IsLeft b (streaming session) = ⊥
  IsLeft b (ended e) = (e.result ≢ ok tt) × (e.backend ≡ some b)

  fail-IsLeft :
      (e : SessionError) (s : State) (b : DisplayBackend)
      → IsLeft b (fail sink f64 f32 to_vec e s (some b) none)
  fail-IsLeft e s b = (λ h. absurd cc, refl)

  begin-IsLeft :
      (made : Bool) (started : Bool × VideoPipeline) (b : DisplayBackend)
      (session : Session sink f64 f32 to_vec) (events : List (Event f32))
      → made ≡ false
      → IsLeft b (begin sink f64 f32 to_vec host made started b session events)
  begin-IsLeft false started b session events h = fail-IsLeft no_pipeline session.stream b
  begin-IsLeft true started b session events h = absurd cc

  not_launched :
      host.find "x264enc" ≡ false
      → host.find "openh264enc" ≡ false
      → host.find "vah264enc" ≡ false
      → (info : VirtualDisplayInfo) → pipeline_made host info ≡ false
  unfolding pipeline_made
  not_launched x o264 va info =
      ap (λ r. launched r host.pipeline_launches)
        ((build_pipeline_string-fails host.find info.pipewire_node_id
            (encoder_config_of host info)).1
          (x, o264, inl va))

  -- On a system without an encoder `handle_client` fails once it has got a hello, and the display is
  -- left as it was made, not destroyed.
  pub handle_client-leaves :
      (p : OrdPacket) (hello : HelloMessage) (events : List (Event f32)) (s : State)
      → p.header.msg_type ≡ msg_hello
      → host.from_slice p.payload ≡ some hello
      → host.find "x264enc" ≡ false
      → host.find "openh264enc" ≡ false
      → host.find "vah264enc" ≡ false
      → IsLeft
          (open_display host.force_test_pattern host.bus (screen_of hello host.config)).1
          (handle_client sink f64 f32 to_vec host (ok p) events s)
  unfolding handle_client
  handle_client-leaves p hello events s t h x o264 va =
      let o = open_display host.force_test_pattern host.bus (screen_of hello host.config) in
      let never = not_launched x o264 va in
      rw (t, h)
        (greet-holds (IsLeft o.1) o events s (λ e s'. fail-IsLeft e s' o.1)
          (λ info s'. begin-IsLeft (pipeline_made host info) _ o.1 _ events (never info)))
