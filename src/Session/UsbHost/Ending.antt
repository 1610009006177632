-- ===== src/Session/UsbHost/Ending.antt =====
-- What `handle_usb_client` of host/src/session/mod.rs leaves behind.
use ord.Prelude.{
  ℕ, ◌≡◌, refl, sym, subst, List, [], ◌∷◌, ◌++◌, Bool, true, false, Bool-cases, inl, inr, Option,
  none, some, Result, ok, err, ◌==◌, All,
}
use ord.Protocol.Packet.{OrdPacket}
use ord.Protocol.Message.{HelloMessage, msg_hello}
use ord.Protocol.Coordinate.Float.{F64}
use ord.Display.{DisplayBackend}
use ord.Display.Mutter.{VirtualDisplayInfo, MutterError, BusCall}
use ord.Encoder
use ord.Encoder.{VideoPipeline, fresh}
use ord.Transport.Usb.{BulkRead, read_packet_sync}
use ord.Session.Screen.{Screen, open_display, screen_of}
use ord.Session.Host.{Host, SessionError, pipeline_made, encoder_config_of, display_config_of}
use ord.Session.Stops.{owed, is_mutter, stop_opened}
use ord.Session.Usb.Stops.{stops_for}
use ord.Session.Usb.{UsbEvent, UsbSession, UsbStatus, running, broken, usb_loop}
use ord.Session.UsbHost.{
  Failure, usb_ack_of, UsbClient, failed, streaming, joining, flag_after, fail, first_state,
  clean_up, begin, send_json, greet, with_hello, handle_usb_client,
}

module _ (f64 : F64) (host : Host f64.Carrier) where
  -- A property of the calls that fail, and of those that get to their loop, is one of all calls.
  module _ (P : UsbClient f64 → Type 0)
      (failing : (e : SessionError) (queued : List (List ℕ)) (b : Option DisplayBackend)
          (p : Option VideoPipeline)
        → P (fail f64 e queued b p)) where
    begin-holds :
        (made : Bool) (started : Bool × VideoPipeline) (b : DisplayBackend)
        (info : VirtualDisplayInfo) (screen : Screen) (events : List UsbEvent)
        (queued : List (List ℕ))
        → ((p : VideoPipeline)
            → P (
                clean_up f64 host (
                  usb_loop f64
                    (encoder_config_of host info)
                    screen
                    (first_state f64 host p b info queued)
                    events)))
        → P (begin f64 host made started b info screen events queued)
    begin-holds false started b info screen events queued h = failing _ _ _ _
    begin-holds true (false, p) b info screen events queued h = failing _ _ _ _
    begin-holds true (true, p) b info screen events queued h = h p

    send_json-holds :
        (payload : Option (List ℕ)) (t q : ℕ) (taken : Bool) (b : DisplayBackend)
        (queued : List (List ℕ)) (more : List (List ℕ) → UsbClient f64)
        → ((queued' : List (List ℕ)) → P (more queued'))
        → P (send_json f64 host payload t q taken b queued more)
    send_json-holds none t q taken b queued more h = failing _ _ _ _
    send_json-holds (some payload) t q taken b queued more h = h _

    greet-holds :
        (o : Result MutterError VirtualDisplayInfo × DisplayBackend) (screen : Screen)
        (ack_taken config_taken : Bool) (events : List UsbEvent)
        → ((p : VideoPipeline) (info : VirtualDisplayInfo) (queued : List (List ℕ))
            → P (
                clean_up f64 host (
                  usb_loop f64
                    (encoder_config_of host info)
                    screen
                    (first_state f64 host p o.1 info queued)
                    events)))
        → P (greet f64 host o screen ack_taken config_taken events)
    greet-holds (err e, b) screen ack_taken config_taken events h = failing _ _ _ _
    greet-holds (ok info, b) screen ack_taken config_taken events h =
        send_json-holds (host.ack_to_vec (usb_ack_of host info)) _ _ ack_taken b [] _ (λ queued.
          send_json-holds (host.config_to_vec (display_config_of host info)) _ _ config_taken b
            queued _
            (λ queued'.
              begin-holds (pipeline_made host info) _ b info screen events queued'
                (λ p. h p info queued')))

  -- What a session has done that is behind its loop.
  pub record IsStopped (stops : List BusCall) (closed : Bool) (s : UsbSession f64) : Type 0 where
    pub closes : closed ≡ true
    pub called : s.video.bus_calls ≡ stops
    pub destroyed : owed s.video.backend ≡ []
    pub stopped : s.video.pipeline.is_running ≡ false

  abbrev Leaves : List BusCall → UsbClient f64 → Type 0
  Leaves stops (failed f) = Unit
  Leaves stops (streaming s) = Unit
  Leaves stops (joining closed s) = IsStopped stops closed s

  -- The `Stop`s for the display that a session opens and for those that its recoveries make.
  abbrev pub all_stops : Screen → List UsbEvent → List BusCall
  all_stops screen events =
      stop_opened host.force_test_pattern host.bus screen
      ++ stops_for (is_mutter (open_display host.force_test_pattern host.bus screen).1) screen
          events

  -- A call that fails has not closed the stream.
  abbrev Opens : UsbClient f64 → Type 0
  Opens (failed f) = f.closes ≡ false
  Opens (streaming s) = Unit
  Opens (joining closed s) = Unit

  clean_up-Opens : (st : UsbStatus f64) → Opens (clean_up f64 host st)
  clean_up-Opens (running s) = tt
  clean_up-Opens (broken s) = tt

  with_hello-Opens :
      (hello : Option HelloMessage) (ack_taken config_taken : Bool) (events : List UsbEvent)
      → Opens (with_hello f64 host hello ack_taken config_taken events)
  with_hello-Opens none ack_taken config_taken events = refl
  with_hello-Opens (some hello) ack_taken config_taken events =
      let screen = screen_of hello host.config in
      greet-holds Opens (λ e q b p. refl) (open_display host.force_test_pattern host.bus screen)
        screen ack_taken config_taken events (λ p info queued. clean_up-Opens _)

  handle_usb_client-Opens :
      (p : OrdPacket) (ack_taken config_taken : Bool) (events : List UsbEvent)
      → Opens (handle_usb_client f64 host (some p) ack_taken config_taken events)
  unfolding handle_usb_client
  handle_usb_client-Opens p ack_taken config_taken events =
      elim (Bool-cases (p.header.msg_type == msg_hello)) [
        | inl greeting ↦
            rw greeting (with_hello-Opens (host.from_slice p.payload) ack_taken config_taken events)
        | inr other ↦ rw other refl
      ]

  -- A read that brings nothing within its time-out, at a moment when the stream is open.
  abbrev pub Silent : Bool × BulkRead → Type 0
  Silent (false, BulkRead.timed_out) = Unit
  Silent _ = ⊥

  still_reading :
      (answers : List (Bool × BulkRead))
      → All Silent answers
      → read_packet_sync false answers ≡ none
  unfolding read_packet_sync
  still_reading [] h = refl
  still_reading ((false, BulkRead.timed_out) ∷ answers) h = still_reading answers h.1
  still_reading ((false, BulkRead.brought bytes) ∷ answers) h = absurd h.0
  still_reading ((false, BulkRead.broken) ∷ answers) h = absurd h.0
  still_reading ((true, a) ∷ answers) h = absurd h.0

  -- A call of `handle_usb_client` that fails behind its first packet does not close the accessory: a read
  -- worker that is in its read then, with the flag down, stays there, and keeps the accessory, as long
  -- as nothing comes from there.
  pub handle_usb_client-leaks :
      (p : OrdPacket) (ack_taken config_taken : Bool) (events : List UsbEvent)
      (answers : List (Bool × BulkRead)) {f : Failure}
      → handle_usb_client f64 host (some p) ack_taken config_taken events ≡ failed f
      → All Silent answers
      → read_packet_sync (flag_after false f) answers ≡ none
  handle_usb_client-leaks p ack_taken config_taken events answers {f} h silent =
      let still_open : f.closes ≡ false =
        subst Opens h (handle_usb_client-Opens p ack_taken config_taken events) in
      subst (λ closes. read_packet_sync closes answers ≡ none) (sym still_open)
        (still_reading answers silent)
