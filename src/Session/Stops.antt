-- ===== src/Session/Stops.antt =====
-- Which ScreenCast sessions of Mutter the sessions of host/src/session/mod.rs make and stop
-- (host/src/display/mutter.rs).
use ord.Prelude.{
  ℕ, ◌≡◌, refl, List, [], ◌∷◌, Bool, true, false, Option, none, some, Result, ok, err,
}
use Prim.Native.String.{String}
use ord.Display.{
  DisplayBackend, test_source, boxed, create_virtual_display, destroy_virtual_display,
}
use ord.Display.Mutter
use ord.Display.Mutter.{
  VirtualDisplayInfo, MutterBus, MutterError, MutterDisplayBackend, BusCall, stop, stop_calls,
  negotiate, created,
}
use ord.Session.Screen.{Screen, fall_back, open_display}

-- The `Stop` that is due for the session which a backend holds.
abbrev pub owed : DisplayBackend → List BusCall
owed (test_source _) = []
owed (DisplayBackend.mutter m) = stop_calls true m.connection m.session_path

abbrev pub is_mutter : DisplayBackend → Bool
is_mutter (test_source _) = false
is_mutter (DisplayBackend.mutter m) = true

-- The `Stop` of the session that Mutter has made, if it has: over the same connection, by its path.
abbrev stop_of : Result MutterError (ℕ × String × String × ℕ) → List BusCall
stop_of (ok (conn, session_path, stream_path, node_id)) = stop conn session_path ∷ []
stop_of (err e) = []

abbrev pub stop_for : Bool → MutterBus → Screen → List BusCall
stop_for true bus screen = stop_of (negotiate bus screen.width screen.height screen.fps)
stop_for false bus screen = []

stop_calls-none : (c : Option ℕ) → stop_calls true c none ≡ []
stop_calls-none none = refl
stop_calls-none (some conn) = refl

-- A destruction makes the call that is due, if the proxy of the session can be made, and leaves
-- nothing due.
pub destroy-owed :
    (bus : MutterBus) (b : DisplayBackend)
    → bus.session_proxy ≡ true
    → (destroy_virtual_display bus b).0 ≡ owed b
unfolding destroy_virtual_display Mutter.destroy
destroy-owed bus (test_source info) h = refl
destroy-owed bus (DisplayBackend.mutter m) h = rw h refl

pub owed-destroy :
    (bus : MutterBus) (b : DisplayBackend) → owed (destroy_virtual_display bus b).1 ≡ []
unfolding destroy_virtual_display Mutter.destroy
owed-destroy bus (test_source info) = refl
owed-destroy bus (DisplayBackend.mutter m) = stop_calls-none m.connection

pub is_mutter-destroy :
    (bus : MutterBus) (b : DisplayBackend)
    → is_mutter (destroy_virtual_display bus b).1 ≡ is_mutter b
unfolding destroy_virtual_display Mutter.destroy
is_mutter-destroy bus (test_source info) = refl
is_mutter-destroy bus (DisplayBackend.mutter m) = refl

owed-created :
    (w h fps : ℕ) (m : MutterDisplayBackend) (r : Result MutterError (ℕ × String × String × ℕ))
    → owed (DisplayBackend.mutter m) ≡ []
    → owed (boxed (created w h fps m r)).1 ≡ stop_of r
owed-created w h fps m (ok (conn, session_path, stream_path, node_id)) e = refl
owed-created w h fps m (err x) e = e

-- What is due behind a creation in a backend that holds nothing.
pub owed-create :
    (bus : MutterBus) (screen : Screen) (b : DisplayBackend)
    → owed b ≡ []
    → owed (create_virtual_display bus screen.width screen.height screen.fps b).1
      ≡ stop_for (is_mutter b) bus screen
unfolding create_virtual_display Mutter.create
owed-create bus screen (test_source info) e = refl
owed-create bus screen (DisplayBackend.mutter m) e =
    owed-created screen.width screen.height screen.fps m
      (negotiate bus screen.width screen.height screen.fps) e

is_mutter-created :
    (w h fps : ℕ) (m : MutterDisplayBackend) (r : Result MutterError (ℕ × String × String × ℕ))
    → is_mutter (boxed (created w h fps m r)).1 ≡ true
is_mutter-created w h fps m (ok (conn, session_path, stream_path, node_id)) = refl
is_mutter-created w h fps m (err x) = refl

pub is_mutter-create :
    (bus : MutterBus) (screen : Screen) (b : DisplayBackend)
    → is_mutter (create_virtual_display bus screen.width screen.height screen.fps b).1 ≡ is_mutter b
unfolding create_virtual_display Mutter.create
is_mutter-create bus screen (test_source info) = refl
is_mutter-create bus screen (DisplayBackend.mutter m) =
    is_mutter-created screen.width screen.height screen.fps m
      (negotiate bus screen.width screen.height screen.fps)

-- The `Stop` due for the display that a session opens.
abbrev pub stop_opened : Bool → MutterBus → Screen → List BusCall
stop_opened true bus screen = []
stop_opened false bus screen = stop_for true bus screen

fall_back-owed :
    (bus : MutterBus) (screen : Screen) (r : Result MutterError (ℕ × String × String × ℕ))
    → owed
        (fall_back bus screen
          (boxed (created screen.width screen.height screen.fps Mutter.new r))).1
      ≡ stop_of r
unfolding create_virtual_display
fall_back-owed bus screen (ok (conn, session_path, stream_path, node_id)) = refl
fall_back-owed bus screen (err e) = refl

pub owed-open_display :
    (force : Bool) (bus : MutterBus) (screen : Screen)
    → owed (open_display force bus screen).1 ≡ stop_opened force bus screen
unfolding open_display create_virtual_display Mutter.create
owed-open_display true bus screen = refl
owed-open_display false bus screen =
    fall_back-owed bus screen (negotiate bus screen.width screen.height screen.fps)
