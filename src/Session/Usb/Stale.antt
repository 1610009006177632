-- ===== src/Session/Usb/Stale.antt =====
-- Where the client's input goes after a recovery of the display in `handle_usb_client`
-- (host/src/session/mod.rs): `recover_display` does not get the input backend.
use Prim.Native.String.{String}
use ord.Prelude.{
  ℕ, ◌≡◌, refl, sym, ap, subst, ◌∙◌, List, [], ◌∷◌, ◌++◌, Bool, true, false, Bool-cases, inl, inr,
  Option, none, some, ok, All, All-append, ◌==◌,
}
use ord.Protocol.Packet.{OrdPacket}
use ord.Protocol.Message.{msg_input_event}
use ord.Protocol.Input
use ord.Protocol.Input.{
  InputEventType, touch_down, touch_move, touch_up, touch_cancel, pointer_motion_absolute,
  pointer_button, pointer_axis, keyboard_key,
}
use ord.Protocol.Coordinate.Float.{F64}
use ord.Display.{DisplayBackend, boxed, create_virtual_display, destroy_virtual_display}
use ord.Display.Mutter
use ord.Display.Mutter.{MutterDisplayBackend, negotiate, created}
use ord.Encoder.{EncoderConfig}
use ord.Input.{
  mutter, MutterInputBackend, Call, notify_touch_down, notify_touch_motion,
  notify_pointer_motion_absolute, call_of, handle_event, dispatch,
}
use ord.Session.Screen.{Screen}
use ord.Session.Loop.Endings.{calls_for}
use ord.Session.Wire.Inputs.{calls_in}
use ord.Session.Recovery.{Video, Answers, replace_pipeline, on_created, let_go, recover_display}
use ord.Session.Usb.{UsbEvent, pipeline_error, UsbSession, running, usb_loop}
use ord.Session.Usb.Inputs.{took, KeepsOn, Runs, usb_loop-Runs}

-- A call that names a stream names this one.
abbrev pub Names : {F : Type 0} → String → Call F → Type 0
Names path (notify_touch_down stream _ _ _) = stream ≡ path
Names path (notify_touch_motion stream _ _ _) = stream ≡ path
Names path (notify_pointer_motion_absolute stream _ _) = stream ≡ path
Names path _ = Unit

module _ (f64 : F64) where
  call_of-Names :
      (t : InputEventType) (event : Input.InputEvent) (stream : String)
      (at : f64.Carrier × f64.Carrier)
      → Names stream (call_of f64 t event stream at)
  call_of-Names touch_down event stream at = refl
  call_of-Names touch_move event stream at = refl
  call_of-Names touch_up event stream at = tt
  call_of-Names touch_cancel event stream at = tt
  call_of-Names pointer_motion_absolute event stream at = refl
  call_of-Names pointer_button event stream at = tt
  call_of-Names pointer_axis event stream at = tt
  call_of-Names keyboard_key event stream at = tt

  calls_for-Names :
      (b : MutterInputBackend) (event : Option Input.InputEvent)
      → All (Names b.stream_path) (calls_for f64 (mutter b) event)
  unfolding dispatch handle_event
  calls_for-Names b none = tt
  calls_for-Names b (some event) = (call_of-Names event.event_type event b.stream_path _, tt)

  calls_in-Names :
      (b : MutterInputBackend) (ps : List OrdPacket)
      → All (Names b.stream_path) (calls_in f64 (mutter b) ps)
  calls_in-Names b [] = tt
  calls_in-Names b (p ∷ ps) = elim (Bool-cases (p.header.msg_type == msg_input_event)) [
    | inl input ↦ rw input (
        All-append (Names b.stream_path) (calls_for f64 (mutter b) (Input.decode p.payload)) _
          (calls_for-Names b (Input.decode p.payload)) (calls_in-Names b ps))
    | inr other ↦ rw other (calls_in-Names b ps)
  ]

replace_pipeline-path :
    (made starts : Bool) (info : Mutter.VirtualDisplayInfo) (v : Video)
    → (replace_pipeline made starts info v).info ≡ info
replace_pipeline-path true starts info v = refl
replace_pipeline-path false starts info v = refl

on_created-path :
    (a : Answers) (config : EncoderConfig) (screen : Screen) (v : Video) (m : MutterDisplayBackend)
    (conn node : ℕ) (session path : String)
    → (on_created a config
        (boxed (created screen.width screen.height screen.fps m (ok (conn, session, path, node))))
        v).info.stream_path
      ≡ path
on_created-path a config screen v m conn node session path =
    ap (λ (info : Mutter.VirtualDisplayInfo). info.stream_path)
      (replace_pipeline-path _ a.starts _ _)

-- A display that Mutter makes again comes with a stream of its own.
recover_display-path :
    (a : Answers) (config : EncoderConfig) (screen : Screen) (v : Video) (m : MutterDisplayBackend)
    {conn node : ℕ} {session path : String}
    → v.backend ≡ DisplayBackend.mutter m
    → negotiate a.bus screen.width screen.height screen.fps ≡ ok (conn, session, path, node)
    → (recover_display a config screen v).info.stream_path ≡ path
unfolding recover_display create_virtual_display destroy_virtual_display Mutter.create
recover_display-path a config screen v m {conn} {node} {session} {path} e n =
    subst
      (λ b.
        (on_created a config
          (create_virtual_display a.bus screen.width screen.height screen.fps
            (destroy_virtual_display a.bus_at_end b).1)
          (let_go a (record v { backend = b }))).info.stream_path
        ≡ path)
      (sym e)
      (rw n (
        on_created-path a config screen (let_go a (record v { backend = DisplayBackend.mutter m }))
          m conn node session path))

module _ (f64 : F64) (config : EncoderConfig) (screen : Screen) where
  -- After a recovery in which Mutter makes a display with a stream, the client's events are given to
  -- the stream that the session began with, whatever that is: a session whose channels stay open makes
  -- the calls for all the packets that it takes, and none of them names another stream.
  pub usb_loop-stale :
      (s : UsbSession f64) (b : MutterInputBackend) (m : MutterDisplayBackend) (a : Answers)
      (es : List UsbEvent) {conn node : ℕ} {session path : String}
      → s.input ≡ mutter b
      → s.video.backend ≡ DisplayBackend.mutter m
      → negotiate a.bus screen.width screen.height screen.fps ≡ ok (conn, session, path, node)
      → All KeepsOn es
      → ((recover_display a config screen s.video).info.stream_path ≡ path)
        × ((s' : UsbSession f64) × (usb_loop f64 config screen s (pipeline_error a ∷ es)
              ≡ running s')
            × (s'.calls ≡ s.calls ++ calls_in f64 (mutter b) (took es))
            × All (Names b.stream_path) (calls_in f64 (mutter b) (took es)))
  usb_loop-stale s b m a es i d n k =
      let r : Runs f64 config screen s (calls_in f64 s.input (took es)) _ =
        usb_loop-Runs f64 config screen (pipeline_error a ∷ es) s (tt, k) in
      (
        recover_display-path a config screen s.video m d n,
        (
          r.session,
          r.runs,
          r.made ∙ ap (λ x. s.calls ++ calls_in f64 x (took es)) i,
          calls_in-Names f64 b (took es),
        ),
      )
