-- ===== src/Session/Host/Negotiation.antt =====
-- The display that a session of host/src/session/mod.rs gets.
use ord.Prelude.{◌≡◌, refl, ap, if◌then◌else◌, Bool, none, Result, ok, err}
use ord.Display.Mutter
use ord.Display.{DisplayBackend, test_source, test_pattern, create_virtual_display}
use ord.Display.Lifecycle.{create_virtual_display-size}
use ord.Display.Mutter.{VirtualDisplayInfo, MutterBus, MutterError}
use ord.Session.Screen.{Screen, fall_back, open_display}

-- There is a display, of the size and the rate of the screen.
pub record IsOpened (screen : Screen) (o : Result MutterError VirtualDisplayInfo × DisplayBackend)
    : Type 0 where
  pub info : VirtualDisplayInfo
  pub made : o.0 ≡ ok info
  pub width : info.width ≡ screen.width
  pub height : info.height ≡ screen.height
  pub fps : info.fps ≡ screen.fps

fall_back-IsOpened :
    (bus : MutterBus) (screen : Screen) (b : DisplayBackend)
    (o : Result MutterError VirtualDisplayInfo × DisplayBackend)
    → create_virtual_display bus screen.width screen.height screen.fps b ≡ o
    → IsOpened screen (fall_back bus screen o)
unfolding create_virtual_display test_pattern
fall_back-IsOpened bus screen b (ok info, backend) e =
    let size =
      create_virtual_display-size bus screen.width screen.height screen.fps b {info = info}
        (ap (λ (t : Result MutterError VirtualDisplayInfo × DisplayBackend). t.0) e) in
    record { info = info; made = refl; width = size.0; height = size.1; fps = size.2 }
fall_back-IsOpened bus screen b (err x, backend) e = record {
  info = test_pattern screen.width screen.height screen.fps;
  made = refl;
  width = refl;
  height = refl;
  fps = refl;
}

-- Whatever the bus answers, a session gets a display, and it has the client's size and rate, or the
-- configuration's where the client says 0.
pub open_display-IsOpened :
    (force_test_pattern : Bool) (bus : MutterBus) (screen : Screen)
    → IsOpened screen (open_display force_test_pattern bus screen)
unfolding open_display
open_display-IsOpened force_test_pattern bus screen =
    fall_back-IsOpened bus screen
      (if force_test_pattern then test_source none else DisplayBackend.mutter Mutter.new) _ refl
