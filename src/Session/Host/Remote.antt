-- ===== src/Session/Host/Remote.antt =====
-- The sessions of host/src/session/mod.rs ask only whether Mutter's input is made; this is whether
-- `MutterInputBackend::new` (host/src/input/mutter_input.rs) succeeds.
use ord.Prelude.{
  ℕ, ◌≡◌, refl, sym, ap, List, Bool, true, false, ltb, not, ◌&&◌, Option, none, some, Result, ok,
  err, if◌then◌else◌, if-holds,
}
use Prim.Native.String.{String}
use text.Mathlib.Text.{◌==◌ as str_eq}
use ord.Protocol.Coordinate.Float.{F64}
use ord.Display.Mutter.{VirtualDisplayInfo}
use ord.Input
use ord.Input.{InputBackend, MutterInputBackend}
use ord.Input.Remote.{
  RemoteBus, RemoteInput, RemoteError, RemoteCall, new_remote, with_session, started,
}
use ord.Session.Host.{Host, input_of}

abbrev pub is_made : Result RemoteError RemoteInput → Bool
is_made (ok r) = true
is_made (err e) = false

module _ (f64 : F64) where
  -- The `match` on what `new` returns.
  abbrev pub or_uinput : Result RemoteError RemoteInput → InputBackend f64
  or_uinput (ok r) = InputBackend.mutter r.backend
  or_uinput (err e) = InputBackend.uinput

  -- Step 5 of the handshake, as it is written.
  abbrev pub initialize_input : RemoteBus → VirtualDisplayInfo → InputBackend f64
  initialize_input bus info =
      if ltb 0 info.pipewire_node_id && not (str_eq info.stream_path "")
      then or_uinput (new_remote {F = f64.Carrier} bus info.stream_path info.width info.height).1
      else InputBackend.uinput

-- What is made has the backend `b`.
abbrev MadeOf :
    {F : Type 0}
    → MutterInputBackend
    → List (RemoteCall F) × Result RemoteError RemoteInput
    → Type 0
MadeOf b (calls, ok r) = r.backend ≡ b
MadeOf b (calls, err e) = Unit

module _ (F : Type 0) where
  started-MadeOf :
      (starts : Bool) (path : String) (b : MutterInputBackend)
      → MadeOf b (started {F = F} starts (record { backend = b; session_path = path }))
  started-MadeOf true path b = refl
  started-MadeOf false path b = tt

  with_session-MadeOf :
      (path : Option String) (bus : RemoteBus) (b : MutterInputBackend)
      → MadeOf b (with_session {F = F} path bus b)
  with_session-MadeOf none bus b = tt
  with_session-MadeOf (some path) bus b =
      if-holds (MadeOf b) bus.session_proxy _ _ (started-MadeOf bus.start path b) tt

  new_remote-MadeOf :
      (bus : RemoteBus) (stream_path : String) (width height : ℕ)
      → MadeOf
          (Input.new stream_path width height)
          (new_remote {F = F} bus stream_path width height)
  unfolding new_remote
  new_remote-MadeOf bus stream_path width height =
      let b = Input.new stream_path width height in
      if-holds (MadeOf b) bus.connect _ _
        (if-holds (MadeOf b) bus.root_proxy _ _ (with_session-MadeOf bus.create_session bus b) tt)
        tt

module _ (f64 : F64) where
  box_of :
      (r : List (RemoteCall f64.Carrier) × Result RemoteError RemoteInput) (b : MutterInputBackend)
      → MadeOf b r
      → (if is_made r.1 then InputBackend.mutter b else InputBackend.uinput) ≡ or_uinput f64 r.1
  box_of (calls, ok r) b same = ap InputBackend.mutter (sym same)
  box_of (calls, err e) b same = refl

  guarded :
      (c d made : Bool) (x y z : InputBackend f64)
      → (if made then x else y) ≡ z
      → (if c && d && made then x else y) ≡ (if c && d then z else y)
  guarded true true made x y z h = h
  guarded true false made x y z h = refl
  guarded false d made x y z h = refl

  -- A session on this bus takes the backend that the source's `match` on the result of `new` gives,
  -- and the one without effect where the display is not Mutter's.
  pub input_of-new_remote :
      (host : Host f64.Carrier) (info : VirtualDisplayInfo) (bus : RemoteBus)
      → input_of f64
          (record host {
            input_made =
                is_made
                  (new_remote {F = f64.Carrier} bus info.stream_path info.width info.height).1;
          })
          info
        ≡ initialize_input f64 bus info
  unfolding input_of Input.new
  input_of-new_remote host info bus =
      let r = new_remote {F = f64.Carrier} bus info.stream_path info.width info.height in
      let b = Input.new info.stream_path info.width info.height in
      guarded (ltb 0 info.pipewire_node_id) (not (str_eq info.stream_path "")) (is_made r.1)
        (InputBackend.mutter b) InputBackend.uinput (or_uinput f64 r.1)
        (box_of r b (new_remote-MadeOf f64.Carrier bus info.stream_path info.width info.height))
