-- ===== src/Input/Remote/Life.antt =====
-- The calls of one RemoteDesktop session (host/src/input/mutter_input.rs), from its beginning to its
-- end.
use ord.Prelude.{
  ℕ, ◌≡◌, refl, ap, ◌∙◌, List, [], ◌∷◌, ◌++◌, Bool, true, false, Option, none, some, Result, ok,
  err, if-holds,
}
use Prim.Native.String.{String}
use ord.Protocol.Coordinate.Float.{F64}
use ord.Protocol.Input.{InputEvent}
use ord.Input.{MutterInputBackend}
use ord.Input.Remote.{
  RemoteBus, RemoteError, RemoteCall, create, start_session, stop_session, RemoteInput, started,
  with_session, new_remote, drop_remote, notified, lived, life,
}

module _ (F : Type 0) where
  -- A backend that is made has created its session and started that one; one that is not made has
  -- stopped none.
  abbrev Opened : List (RemoteCall F) × Result RemoteError RemoteInput → Type 0
  Opened (calls, ok r) = calls ≡ create ∷ start_session r.session_path ∷ []
  Opened (calls, err e) = Unit

  started-Opened : (starts : Bool) (r : RemoteInput) → Opened (started {F = F} starts r)
  started-Opened true r = refl
  started-Opened false r = tt

  with_session-Opened :
      (path : Option String) (bus : RemoteBus) (b : MutterInputBackend)
      → Opened (with_session {F = F} path bus b)
  with_session-Opened none bus b = tt
  with_session-Opened (some path) bus b =
      if-holds Opened bus.session_proxy _ _
        (started-Opened bus.start (record { backend = b; session_path = path })) tt

  new_remote-Opened :
      (bus : RemoteBus) (stream_path : String) (width height : ℕ)
      → Opened (new_remote {F = F} bus stream_path width height)
  unfolding new_remote
  new_remote-Opened bus stream_path width height =
      if-holds Opened bus.connect _ _
        (if-holds Opened bus.root_proxy _ _ (with_session-Opened bus.create_session bus _) tt) tt

module _ (f64 : F64) where
  lived-stops :
      (o : List (RemoteCall f64.Carrier) × Result RemoteError RemoteInput) (r : RemoteInput)
      (events : List InputEvent)
      → Opened f64.Carrier o
      → o.1 ≡ ok r
      → lived f64 o events
        ≡ create
          ∷ start_session r.session_path
          ∷ (notified f64 r.backend events ++ stop_session r.session_path ∷ [])
  unfolding drop_remote
  lived-stops (calls, ok r') r events opened e =
      let same : r' ≡ r = cc in
      ap (λ cs. cs ++ (notified f64 r'.backend events ++ stop_session r'.session_path ∷ [])) opened
      ∙ ap
          (λ (q : RemoteInput).
            create
            ∷ start_session q.session_path
            ∷ (notified f64 q.backend events ++ stop_session q.session_path ∷ []))
          same
  lived-stops (calls, err x) r events opened e = absurd cc

  -- Where `MutterInputBackend::new` succeeds, the bus sees in this order: one session created, that one
  -- started, the calls of the events in their order, and that session stopped as the backend is dropped.
  pub life-stops :
      (bus : RemoteBus) (stream_path : String) (width height : ℕ) (events : List InputEvent)
      (r : RemoteInput)
      → (new_remote {F = f64.Carrier} bus stream_path width height).1 ≡ ok r
      → life f64 bus stream_path width height events
        ≡ create
          ∷ start_session r.session_path
          ∷ (notified f64 r.backend events ++ stop_session r.session_path ∷ [])
  unfolding life
  life-stops bus stream_path width height events r e =
      lived-stops (new_remote bus stream_path width height) r events
        (new_remote-Opened f64.Carrier bus stream_path width height) e
