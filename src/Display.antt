-- ===== src/Display.antt =====
-- host/src/display: the virtual display, made by GNOME Mutter or as a test pattern.
pub mod Mutter
pub mod Lifecycle
pub mod Ticker
mod Tests
use ord.Prelude.{ℕ, Bool, true, false, Option, none, some, Result, ok, err, List, [], ◌∷◌}
use Prim.Native.String.{String}
use Mutter.{VirtualDisplayInfo, MutterBus, MutterError, MutterDisplayBackend, BusCall}

-- `Box<dyn DisplayBackend>`: `TestSourceDisplayBackend` with its `info`, or `MutterDisplayBackend`.
pub data DisplayBackend : Type 0 where
  test_source : Option VirtualDisplayInfo → DisplayBackend
  mutter : MutterDisplayBackend → DisplayBackend

-- `TestSourceDisplayBackend::create_virtual_display`
unfoldable pub test_pattern : ℕ → ℕ → ℕ → VirtualDisplayInfo
test_pattern width height fps = record {
  name = "ORD-Test-Pattern";
  width = width;
  height = height;
  fps = fps;
  pipewire_node_id = 0;
  stream_path = "test-pattern";
  session_path = "test-session";
}

abbrev pub boxed :
    Result MutterError VirtualDisplayInfo × MutterDisplayBackend
    → Result MutterError VirtualDisplayInfo × DisplayBackend
boxed (r, m) = (r, mutter m)

-- `create_virtual_display`, with what the bus answers this time.
unfoldable pub create_virtual_display :
    MutterBus → ℕ → ℕ → ℕ → DisplayBackend → Result MutterError VirtualDisplayInfo × DisplayBackend
unfolding test_pattern Mutter.create
create_virtual_display bus width height fps (test_source _) =
    let info = test_pattern width height fps in (ok info, test_source (some info))
create_virtual_display bus width height fps (mutter m) =
    boxed (Mutter.create bus width height fps m)

-- `destroy_virtual_display`: the calls on the bus, and the backend. It does not fail.
unfoldable pub destroy_virtual_display : MutterBus → DisplayBackend → List BusCall × DisplayBackend
unfolding Mutter.destroy
destroy_virtual_display bus (test_source _) = ([], test_source none)
destroy_virtual_display bus (mutter m) =
    let (calls, m') = Mutter.destroy bus m in (calls, mutter m')
