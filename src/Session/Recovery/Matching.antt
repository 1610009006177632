-- ===== src/Session/Recovery/Matching.antt =====
-- The display and the pipeline of a session of host/src/session/mod.rs after recoveries.
use ord.Prelude.{ℕ, ◌≡◌, refl, Bool, true, false, Option, none, some, Result, ok, err}
use ord.Display.{
  DisplayBackend, test_source, test_pattern, boxed, create_virtual_display, destroy_virtual_display,
}
use ord.Display.Mutter.{
  VirtualDisplayInfo, MutterBus, MutterError, MutterDisplayBackend, negotiate, created,
}
use ord.Display.Mutter
use Prim.Native.String.{String}
use ord.Encoder
use ord.Encoder.{EncoderConfig, VideoPipeline, fresh, build_pipeline_string}
use ord.Session.Screen.{Screen}
use ord.Session.Recovery.{Video, Answers, replace_pipeline, on_created, let_go, recover_display}

-- The display that a backend holds.
abbrev pub display_of : DisplayBackend → Option VirtualDisplayInfo
display_of (test_source info) = info
display_of (DisplayBackend.mutter m) = m.display_info

-- A backend holds no display, or the session's, of the size that was asked for.
pub data Holds (info : VirtualDisplayInfo) (screen : Screen) (b : DisplayBackend) : Type 0 where
  nothing : display_of b ≡ none → Holds info screen b
  display :
      display_of b ≡ some info
      → info.width ≡ screen.width
      → info.height ≡ screen.height
      → info.fps ≡ screen.fps
      → Holds info screen b

-- A session whose pipeline has stopped may be without a display; one whose pipeline runs has one.
pub data IsMatched (screen : Screen) (v : Video) : Type 0 where
  stopped : v.pipeline.is_running ≡ false → Holds v.info screen v.backend → IsMatched screen v
  streaming :
      v.frames_open ≡ true
      → display_of v.backend ≡ some v.info
      → v.info.width ≡ screen.width
      → v.info.height ≡ screen.height
      → v.info.fps ≡ screen.fps
      → IsMatched screen v

display-destroy :
    (bus : MutterBus) (b : DisplayBackend) → display_of (destroy_virtual_display bus b).1 ≡ none
unfolding destroy_virtual_display
display-destroy bus (test_source info) = refl
display-destroy bus (DisplayBackend.mutter m) = refl

-- What a creation leaves in a backend without a display.
Created : Screen → Result MutterError VirtualDisplayInfo × DisplayBackend → Type 0
Created screen (ok info, b) =
    (display_of b ≡ some info)
    × (info.width ≡ screen.width)
    × (info.height ≡ screen.height)
    × (info.fps ≡ screen.fps)
Created screen (err e, b) = display_of b ≡ none

Created-created :
    (screen : Screen) (m : MutterDisplayBackend) (r : Result MutterError (ℕ × String × String × ℕ))
    → m.display_info ≡ none
    → Created screen (boxed (created screen.width screen.height screen.fps m r))
unfolding Created
Created-created screen m (err e) h = h
Created-created screen m (ok (conn, session_path, stream_path, node_id)) h =
    (refl, refl, refl, refl)

Created-create :
    (bus : MutterBus) (screen : Screen) (b : DisplayBackend)
    → display_of b ≡ none
    → Created screen (create_virtual_display bus screen.width screen.height screen.fps b)
unfolding create_virtual_display Mutter.create Created test_pattern
Created-create bus screen (test_source info) h = (refl, refl, refl, refl)
Created-create bus screen (DisplayBackend.mutter m) h =
    Created-created screen m (negotiate bus screen.width screen.height screen.fps) h

replace_pipeline-IsMatched :
    (made starts : Bool) (screen : Screen) (info : VirtualDisplayInfo) (v : Video)
    → v.pipeline.is_running ≡ false
    → (display_of v.backend ≡ some info)
      × (info.width ≡ screen.width)
      × (info.height ≡ screen.height)
      × (info.fps ≡ screen.fps)
    → IsMatched screen (replace_pipeline made starts info v)
replace_pipeline-IsMatched true starts screen info v off (d, w, h, f) = streaming refl d w h f
replace_pipeline-IsMatched false starts screen info v off (d, w, h, f) =
    stopped off (display d w h f)

on_created-IsMatched :
    (a : Answers) (config : EncoderConfig) (screen : Screen)
    (o : Result MutterError VirtualDisplayInfo × DisplayBackend) (v : Video)
    → v.pipeline.is_running ≡ false
    → Created screen o
    → IsMatched screen (on_created a config o v)
unfolding Created
on_created-IsMatched a config screen (ok info, b) v off c =
    replace_pipeline-IsMatched _ a.starts screen info (record v { backend = b }) off c
on_created-IsMatched a config screen (err e, b) v off c = stopped off (nothing c)

-- After a recovery the session has no running pipeline, or it has a display of the size and the rate
-- that were asked for, an open channel, and that display's data, whatever the system answered and
-- however the session stood before.
pub recover_display-IsMatched :
    (a : Answers) (config : EncoderConfig) (screen : Screen) (v : Video)
    → IsMatched screen (recover_display a config screen v)
unfolding recover_display
recover_display-IsMatched a config screen v =
    let b = (destroy_virtual_display a.bus_at_end v.backend).1 in
    on_created-IsMatched a config screen
      (create_virtual_display a.bus screen.width screen.height screen.fps b) (let_go a v)
      (unfold Encoder.stop in refl)
      (Created-create a.bus screen b (display-destroy a.bus_at_end v.backend))
