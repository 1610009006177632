-- ===== src/Session/Screen.antt =====
-- The display of a session (host/src/session/mod.rs): what is asked for, and how it is opened.
use ord.Prelude.{ℕ, Bool, none, Result, ok, err, ltb, if◌then◌else◌}
use ord.Protocol.Message.{HelloMessage}
use ord.Config.{Config}
use ord.Display.{DisplayBackend, test_source, create_virtual_display}
use ord.Display.Mutter.{VirtualDisplayInfo, MutterBus, MutterError}
use ord.Display.Mutter

pub record Screen : Type 0 where
  pub width : ℕ  -- u32
  pub height : ℕ  -- u32
  pub fps : ℕ  -- u32

abbrev pub or_default : ℕ → ℕ → ℕ
or_default asked default = if ltb 0 asked then asked else default

-- The size and the rate to ask for: the client's, or the configuration's where the client says 0.
abbrev pub screen_of : {F : Type 0} → HelloMessage → Config F → Screen
screen_of hello config = record {
  width = or_default hello.screen_width config.display.default_width;
  height = or_default hello.screen_height config.display.default_height;
  fps = or_default hello.max_fps config.display.default_fps;
}

abbrev pub fall_back :
    MutterBus
    → Screen
    → Result MutterError VirtualDisplayInfo × DisplayBackend
    → Result MutterError VirtualDisplayInfo × DisplayBackend
fall_back bus screen (ok info, backend) = (ok info, backend)
fall_back bus screen (err e, backend) =
    create_virtual_display bus screen.width screen.height screen.fps (test_source none)

-- The display: Mutter's, unless the test pattern is forced, and the test pattern if that fails.
unfoldable pub open_display :
    Bool → MutterBus → Screen → Result MutterError VirtualDisplayInfo × DisplayBackend
unfolding create_virtual_display
open_display force_test_pattern bus screen =
    let backend =
      if force_test_pattern then test_source none else DisplayBackend.mutter Mutter.new in
    fall_back bus screen (create_virtual_display bus screen.width screen.height screen.fps backend)
