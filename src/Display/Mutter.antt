-- ===== src/Display/Mutter.antt =====
-- host/src/display/mod.rs and mutter.rs: `MutterDisplayBackend`. The D-Bus calls are answered by
-- the bus, which is a parameter.
use ord.Prelude.{ℕ, Bool, true, false, Option, none, some, Result, ok, err, List, [], ◌∷◌, ◌>>=◌}
use Prim.Native.String.{String}

pub record VirtualDisplayInfo : Type 0 where
  pub name : String
  pub width : ℕ  -- u32
  pub height : ℕ  -- u32
  pub fps : ℕ  -- u32
  pub pipewire_node_id : ℕ  -- u32
  pub stream_path : String
  pub session_path : String

-- The properties of `RecordVirtual`, with the one mode that is asked for.
pub record VirtualMode : Type 0 where
  pub size : ℕ × ℕ  -- u32
  pub refresh_rate : ℕ  -- f64 of a u32
  pub is_preferred : Bool

pub record VirtualProps : Type 0 where
  pub is_recording_indicator : Bool
  pub cursor_mode : ℕ  -- u32
  pub modes : List VirtualMode

abbrev pub virtual_props : ℕ → ℕ → ℕ → VirtualProps
virtual_props width height fps = record {
  is_recording_indicator = false;
  cursor_mode = 1;
  modes = record { size = (width, height); refresh_rate = fps; is_preferred = true } ∷ [];
}

-- What the session bus answers to the calls of one `create_virtual_display` or of one
-- `destroy_virtual_display`; `none` and `false` are errors. The signal comes with the node's id,
-- not at all in five seconds, or not with an id.
pub data Signal : Type 0 where
  timed_out ended malformed : Signal
  node : ℕ → Signal

pub record MutterBus : Type 0 where
  pub connect : Option ℕ
  pub screencast_proxy : Bool
  pub create_session : Option String
  pub session_proxy : Bool
  pub record_virtual : VirtualProps → Option String
  pub stream_proxy : Bool
  pub receive_signal : Bool
  pub start : Bool
  pub signal : Signal

pub data MutterError : Type 0 where
  no_connection no_screencast_proxy no_session no_session_proxy : MutterError
  no_stream no_stream_proxy no_signal_stream not_started : MutterError
  signal_timed_out signal_ended signal_malformed : MutterError

pub record MutterDisplayBackend : Type 0 where
  pub connection : Option ℕ
  pub session_path : Option String
  pub stream_path : Option String
  pub node_id : Option ℕ
  pub display_info : Option VirtualDisplayInfo

-- `MutterDisplayBackend::new`
abbrev pub new : MutterDisplayBackend
new = record {
  connection = none;
  session_path = none;
  stream_path = none;
  node_id = none;
  display_info = none;
}

-- `context` and `?`
abbrev or_error : {A : Type 0} → Option A → MutterError → Result MutterError A
or_error (some a) e = ok a
or_error none e = err e

abbrev check : Bool → MutterError → Result MutterError (Unit {0})
check true e = ok tt
check false e = err e

abbrev node_of : Signal → Result MutterError ℕ
node_of timed_out = err signal_timed_out
node_of ended = err signal_ended
node_of malformed = err signal_malformed
node_of (node n) = ok n

-- The calls of `create_virtual_display` up to the node's id: connection, session, stream and node.
pub negotiate : MutterBus → ℕ → ℕ → ℕ → Result MutterError (ℕ × String × String × ℕ)
negotiate bus width height fps = do
  conn ← or_error bus.connect no_connection
  _ ← check bus.screencast_proxy no_screencast_proxy
  session_path ← or_error bus.create_session no_session
  _ ← check bus.session_proxy no_session_proxy
  stream_path ← or_error (bus.record_virtual (virtual_props width height fps)) no_stream
  _ ← check bus.stream_proxy no_stream_proxy
  _ ← check bus.receive_signal no_signal_stream
  _ ← check bus.start not_started
  node_id ← node_of bus.signal
  ok (conn, session_path, stream_path, node_id)

-- The backend that keeps what was made; it is not touched before all the calls have succeeded.
abbrev pub created :
    ℕ
    → ℕ
    → ℕ
    → MutterDisplayBackend
    → Result MutterError (ℕ × String × String × ℕ)
    → Result MutterError VirtualDisplayInfo × MutterDisplayBackend
created width height fps m (err e) = (err e, m)
created width height fps m (ok (conn, session_path, stream_path, node_id)) =
    let info : VirtualDisplayInfo = record {
      name = "ORD-Virtual-1";
      width = width;
      height = height;
      fps = fps;
      pipewire_node_id = node_id;
      stream_path = stream_path;
      session_path = session_path;
    } in
    (
      ok info,
      record {
        connection = some conn;
        session_path = some session_path;
        stream_path = some stream_path;
        node_id = some node_id;
        display_info = some info;
      },
    )

-- `create_virtual_display`
unfoldable pub create :
    MutterBus
    → ℕ
    → ℕ
    → ℕ
    → MutterDisplayBackend
    → Result MutterError VirtualDisplayInfo × MutterDisplayBackend
unfolding negotiate
create bus width height fps m = created width height fps m (negotiate bus width height fps)

-- A call of `Stop` on a session, over a connection.
pub data BusCall : Type 0 where
  stop : ℕ → String → BusCall

abbrev pub stop_calls : Bool → Option ℕ → Option String → List BusCall
stop_calls true (some conn) (some session_path) = stop conn session_path ∷ []
stop_calls _ _ _ = []

-- `destroy_virtual_display`: the session is stopped, if its proxy can be made.
unfoldable pub destroy : MutterBus → MutterDisplayBackend → List BusCall × MutterDisplayBackend
destroy bus m = (
  stop_calls bus.session_proxy m.connection m.session_path,
  record m { session_path = none; stream_path = none; node_id = none; display_info = none },
)
