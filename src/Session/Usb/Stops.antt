-- ===== src/Session/Usb/Stops.antt =====
-- Which ScreenCast sessions of Mutter the loop of `handle_usb_client` (host/src/session/mod.rs) makes and
-- stops when it recovers its display.
use ord.Prelude.{
  ◌≡◌, refl, sym, ap, ◌∙◌, List, [], ◌∷◌, ◌++◌, Bool, true, false, Bool-cases, inl, inr, Option,
  none, some, Result, ok, err, All, append_assoc, append-nil, ◌==◌, if◌then◌else◌, arith,
}
use ord.Protocol.Packet.{OrdPacket}
use ord.Protocol.Message.{msg_hello, msg_input_event, msg_ping, msg_disconnect}
use ord.Protocol.Input
use ord.Protocol.Coordinate.Float.{F64}
use ord.Display.{DisplayBackend, create_virtual_display}
use ord.Display.Mutter.{VirtualDisplayInfo, MutterError, BusCall}
use ord.Encoder.{EncoderConfig}
use ord.Session.Screen.{Screen}
use ord.Session.Stops.{
  owed, is_mutter, stop_for, destroy-owed, owed-destroy, is_mutter-destroy, owed-create,
  is_mutter-create,
}
use ord.Session.Recovery.{Video, Answers, replace_pipeline, on_created, let_go, recover_display}
use ord.Session.Usb.{
  accepted, full, closed, UsbEvent, pipeline_error, no_frame, frame, frames_closed, packet,
  UsbSession, take_input, send_pong, usb_turn, usb_loop,
}
use ord.Session.Usb.Queue.{session_in}

-- The calls that have been made, and the one that is due.
abbrev pub total : Video → List BusCall
total v = v.bus_calls ++ owed v.backend

-- The `Stop`s due for the displays that recoveries make, up to the end of the loop.
abbrev pub stops_for : Bool → Screen → List UsbEvent → List BusCall
stops_for k screen [] = []
stops_for k screen (pipeline_error a ∷ es) = stop_for k a.bus screen ++ stops_for k screen es
stops_for k screen (no_frame a ∷ es) = stop_for k a.bus screen ++ stops_for k screen es
stops_for k screen (frame f accepted ∷ es) = stops_for k screen es
stops_for k screen (frame f full ∷ es) = stops_for k screen es
stops_for k screen (frame f closed ∷ es) = []
stops_for k screen (frames_closed ∷ es) = []
stops_for k screen (packet p taken ∷ es) =
    let rest = stops_for k screen es in
    if p.header.msg_type == msg_disconnect
    then []
    else if p.header.msg_type == msg_hello
    then []
    else rest

-- In a recovery, a proxy of the session that is to be stopped can be made.
abbrev pub HasProxy : UsbEvent → Type 0
HasProxy (pipeline_error a) = a.bus_at_end.session_proxy ≡ true
HasProxy (no_frame a) = a.bus_at_end.session_proxy ≡ true
HasProxy _ = Unit

replace_pipeline-same :
    (made starts : Bool) (info : VirtualDisplayInfo) (v : Video)
    → ((replace_pipeline made starts info v).backend ≡ v.backend)
      × ((replace_pipeline made starts info v).bus_calls ≡ v.bus_calls)
replace_pipeline-same true starts info v = (refl, refl)
replace_pipeline-same false starts info v = (refl, refl)

on_created-same :
    (a : Answers) (config : EncoderConfig)
    (o : Result MutterError VirtualDisplayInfo × DisplayBackend) (v : Video)
    → ((on_created a config o v).backend ≡ o.1)
      × ((on_created a config o v).bus_calls ≡ v.bus_calls)
on_created-same a config (ok info, backend) v =
    replace_pipeline-same _ a.starts info (record v { backend = backend })
on_created-same a config (err e, backend) v = (refl, refl)

module _ (config : EncoderConfig) (screen : Screen) (a : Answers)
    (proxy : a.bus_at_end.session_proxy ≡ true) (v : Video) where
  -- A recovery makes the call that was due, and what is due behind it is for the display that it made.
  recover_display-total :
      total (recover_display a config screen v)
      ≡ total v ++ stop_for (is_mutter v.backend) a.bus screen
  unfolding recover_display
  recover_display-total =
      let v' = let_go a v in
      let o = create_virtual_display a.bus screen.width screen.height screen.fps v'.backend in
      let (same_backend, same_calls) = on_created-same a config o v' in
      ap (λ cs. cs ++ owed (on_created a config o v').backend) same_calls
      ∙ ap (λ cs. (v.bus_calls ++ cs) ++ owed (on_created a config o v').backend)
          (destroy-owed a.bus_at_end v.backend proxy)
      ∙ ap (λ b. total v ++ owed b) same_backend
      ∙ ap (λ cs. total v ++ cs)
          (owed-create a.bus screen v'.backend (owed-destroy a.bus_at_end v.backend)
            ∙ ap (λ k. stop_for k a.bus screen) (is_mutter-destroy a.bus_at_end v.backend))

  recover_display-is_mutter :
      is_mutter (recover_display a config screen v).backend ≡ is_mutter v.backend
  unfolding recover_display
  recover_display-is_mutter =
      let v' = let_go a v in
      let o = create_virtual_display a.bus screen.width screen.height screen.fps v'.backend in
      ap is_mutter (on_created-same a config o v').0
      ∙ is_mutter-create a.bus screen v'.backend
      ∙ is_mutter-destroy a.bus_at_end v.backend

module _ (f64 : F64) (config : EncoderConfig) (screen : Screen) where
  abbrev Goal : List UsbEvent → UsbSession f64 → Type 0
  Goal es s =
      total (session_in f64 config screen (usb_loop f64 config screen s es)).video
      ≡ total s.video ++ stops_for (is_mutter s.video.backend) screen es

  recover-total :
      (a : Answers) (es : List UsbEvent) (s : UsbSession f64)
      → a.bus_at_end.session_proxy ≡ true
      → Goal es (record s { video = recover_display a config screen s.video })
      → total
          (session_in f64 config screen (
            usb_loop f64 config screen
              (record s { video = recover_display a config screen s.video })
              es)).video
        ≡ total s.video
          ++ (stop_for (is_mutter s.video.backend) a.bus screen
              ++ stops_for (is_mutter s.video.backend) screen es)
  recover-total a es s proxy rest =
      let k = is_mutter s.video.backend in
      rest
      ∙ ap (λ k'. total (recover_display a config screen s.video) ++ stops_for k' screen es)
          (recover_display-is_mutter config screen a proxy s.video)
      ∙ ap (λ cs. cs ++ stops_for k screen es) (recover_display-total config screen a proxy s.video)
      ∙ append_assoc (total s.video) (stop_for k a.bus screen) (stops_for k screen es)

  abbrev From : UsbSession f64 → List UsbEvent → UsbSession f64 → Type 0
  From s es s' =
      total (session_in f64 config screen (usb_loop f64 config screen s' es)).video
      ≡ total s.video ++ stops_for (is_mutter s.video.backend) screen es

  take_input-total :
      (event : Option Input.InputEvent) (es : List UsbEvent) (s : UsbSession f64)
      → ((s' : UsbSession f64) → Goal es s')
      → From s es (take_input f64 event s)
  take_input-total none es s h = h s
  take_input-total (some event) es s h = h (take_input f64 (some event) s)

  send_pong-total :
      (taken : Bool) (pong : OrdPacket) (es : List UsbEvent) (s : UsbSession f64)
      → ((s' : UsbSession f64) → Goal es s')
      → From s es (send_pong f64 taken pong s)
  send_pong-total true pong es s h = h (send_pong f64 true pong s)
  send_pong-total false pong es s h = h s

  on_usb_packet-total :
      (p : OrdPacket) (taken : Bool) (es : List UsbEvent) (s : UsbSession f64)
      → ((s' : UsbSession f64) → Goal es s')
      → Goal (packet p taken ∷ es) s
  unfolding usb_loop usb_turn
  on_usb_packet-total p taken es s h = elim (Bool-cases (p.header.msg_type == msg_input_event)) [
    | inl input ↦
        let not_bye : (p.header.msg_type == msg_disconnect) ≡ false = ground (arith, input) in
        let not_hello : (p.header.msg_type == msg_hello) ≡ false = ground (arith, input) in
        rw (input, not_bye, not_hello) (take_input-total (Input.decode p.payload) es s h)
    | inr other ↦ elim (Bool-cases (p.header.msg_type == msg_ping)) [
      | inl ping ↦
          let not_bye : (p.header.msg_type == msg_disconnect) ≡ false = ground (arith, ping) in
          let not_hello : (p.header.msg_type == msg_hello) ≡ false = ground (arith, ping) in
          rw (other, ping, not_bye, not_hello) (send_pong-total taken _ es s h)
      | inr not_ping ↦ elim (Bool-cases (p.header.msg_type == msg_disconnect)) [
        | inl bye ↦ rw (other, not_ping, bye) (sym (append-nil (total s.video)))
        | inr not_bye ↦ elim (Bool-cases (p.header.msg_type == msg_hello)) [
          | inl again ↦ rw (other, not_ping, not_bye, again) (sym (append-nil (total s.video)))
          | inr unknown ↦ rw (other, not_ping, not_bye, unknown) (h s)
        ]
      ]
    ]
  ]

  -- In the loop each display that Mutter makes is stopped before the next is made.
  pub usb_loop-total : (es : List UsbEvent) (s : UsbSession f64) → All HasProxy es → Goal es s
  unfolding usb_loop usb_turn
  usb_loop-total [] s h = sym (append-nil (total s.video))
  usb_loop-total (pipeline_error a ∷ es) s h = recover-total a es s h.0 (usb_loop-total es _ h.1)
  usb_loop-total (no_frame a ∷ es) s h = recover-total a es s h.0 (usb_loop-total es _ h.1)
  usb_loop-total (frame f accepted ∷ es) s h = usb_loop-total es _ h.1
  usb_loop-total (frame f full ∷ es) s h = usb_loop-total es _ h.1
  usb_loop-total (frame f closed ∷ es) s h = sym (append-nil (total s.video))
  usb_loop-total (frames_closed ∷ es) s h = sym (append-nil (total s.video))
  usb_loop-total (packet p taken ∷ es) s h =
      on_usb_packet-total p taken es s (λ s'. usb_loop-total es s' h.1)
