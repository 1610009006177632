-- ===== src/Input/Remote.antt =====
-- host/src/input/mutter_input.rs: how a RemoteDesktop session is made on the bus, and how it ends. The
-- answers of the bus are arguments.
pub mod Life
use ord.Prelude.{
  ℕ, List, [], ◌∷◌, ◌++◌, map, Bool, true, false, Option, none, some, Result, ok, err,
  if◌then◌else◌,
}
use Prim.Native.String.{String}
use ord.Protocol.Coordinate.Float.{F64}
use ord.Protocol.Input.{InputEvent}
use ord.Input.{Call, MutterInputBackend, new, handle_event}

pub data RemoteError : Type 0 where
  no_connection no_root_proxy no_session no_session_proxy not_started : RemoteError

-- Whether the session bus is there; whether the two proxies are built; the path that `CreateSession`
-- gives; whether `Start` succeeds.
pub record RemoteBus : Type 0 where
  pub connect : Bool
  pub root_proxy : Bool
  pub create_session : Option String
  pub session_proxy : Bool
  pub start : Bool

-- The calls on org.gnome.Mutter.RemoteDesktop and on the session.
pub data RemoteCall (F : Type 0) : Type 0 where
  create : RemoteCall F
  start_session stop_session : String → RemoteCall F
  notify : Call F → RemoteCall F

pub record RemoteInput : Type 0 where
  pub backend : MutterInputBackend
  pub session_path : String

module _ {F : Type 0} where
  abbrev pub started : Bool → RemoteInput → List (RemoteCall F) × Result RemoteError RemoteInput
  started true r = (create ∷ start_session r.session_path ∷ [], ok r)
  started false r = (create ∷ start_session r.session_path ∷ [], err not_started)

  abbrev pub with_session :
      Option String
      → RemoteBus
      → MutterInputBackend
      → List (RemoteCall F) × Result RemoteError RemoteInput
  with_session none bus b = (create ∷ [], err no_session)
  with_session (some path) bus b =
      if bus.session_proxy
      then started bus.start (record { backend = b; session_path = path })
      else (create ∷ [], err no_session_proxy)

  -- `MutterInputBackend::new`
  unfoldable pub new_remote :
      RemoteBus → String → ℕ → ℕ → List (RemoteCall F) × Result RemoteError RemoteInput
  unfolding new
  new_remote bus stream_path display_width display_height =
      if bus.connect
      then (if bus.root_proxy
          then with_session bus.create_session bus (new stream_path display_width display_height)
          else ([], err no_root_proxy))
      else ([], err no_connection)

  -- `drop`; the call is made by a task of its own.
  unfoldable pub drop_remote : RemoteInput → List (RemoteCall F)
  drop_remote r = stop_session r.session_path ∷ []

module _ (f64 : F64) where
  abbrev pub notified : MutterInputBackend → List InputEvent → List (RemoteCall f64.Carrier)
  notified b [] = []
  notified b (e ∷ es) = map notify (handle_event f64 b e) ++ notified b es

  abbrev pub lived :
      List (RemoteCall f64.Carrier) × Result RemoteError RemoteInput
      → List InputEvent
      → List (RemoteCall f64.Carrier)
  lived (calls, err e) events = calls
  lived (calls, ok r) events = calls ++ (notified r.backend events ++ drop_remote r)

  -- All the calls of a backend that is made, gets these events, and is dropped.
  unfoldable pub life : RemoteBus → String → ℕ → ℕ → List InputEvent → List (RemoteCall f64.Carrier)
  unfolding new_remote drop_remote handle_event
  life bus stream_path display_width display_height events =
      lived (new_remote bus stream_path display_width display_height) events
