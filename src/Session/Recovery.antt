-- ===== src/Session/Recovery.antt =====
-- host/src/session/mod.rs, `recover_display`: a USB session makes its display and its pipeline again.
pub mod Matching
mod Tests
use ord.Prelude.{ℕ, List, [], ◌∷◌, ◌++◌, Bool, true, false, Option, none, some, Result, ok, err}
use Prim.Native.String.{String}
use ord.Display.{DisplayBackend, create_virtual_display, destroy_virtual_display}
use ord.Display.Mutter.{VirtualDisplayInfo, MutterBus, MutterError, BusCall}
use ord.Encoder.{EncoderConfig, EncoderError, Piece, VideoPipeline, fresh, build_pipeline_string}
use ord.Encoder
use ord.Session.Screen.{Screen}
use ord.Session.Host.{launched}

-- The variables of the session that the recovery changes; `frame_rx` has a sender as long as the
-- pipeline that it came with is there. `bus_calls` is what `destroy_virtual_display` has called.
pub record Video : Type 0 where
  pub pipeline : VideoPipeline
  pub backend : DisplayBackend
  pub info : VirtualDisplayInfo
  pub frames_open : Bool
  pub bus_calls : List BusCall

-- What the system answers: the bus, while the display is destroyed and while it is made, and GStreamer.
pub record Answers : Type 0 where
  pub bus_at_end : MutterBus
  pub bus : MutterBus
  pub find : String → Bool
  pub launches : Bool
  pub starts : Bool

-- `VideoPipeline::new` with the new channel: on an error the channel's sender is dropped, and the old
-- pipeline stays. Whether the pipeline starts is ignored.
abbrev pub replace_pipeline : Bool → Bool → VirtualDisplayInfo → Video → Video
replace_pipeline true starts info v = record v {
  info = info;
  pipeline = (Encoder.start starts fresh).1;
  frames_open = true;
}
replace_pipeline false starts info v = record v { info = info; frames_open = false }

abbrev pub on_created :
    Answers → EncoderConfig → Result MutterError VirtualDisplayInfo × DisplayBackend → Video → Video
on_created a config (ok info, backend) v =
    replace_pipeline
      (launched (build_pipeline_string a.find info.pipewire_node_id config) a.launches) a.starts
      info (record v { backend = backend })
on_created a config (err e, backend) v = record v { backend = backend }

-- The pipeline is stopped and the display destroyed.
abbrev pub let_go : Answers → Video → Video
let_go a v =
    let (calls, backend) = destroy_virtual_display a.bus_at_end v.backend in
    record v {
      pipeline = Encoder.stop v.pipeline;
      backend = backend;
      bus_calls = v.bus_calls ++ calls;
    }

-- `recover_display`; it waits 250 ms between the two.
unfoldable pub recover_display : Answers → EncoderConfig → Screen → Video → Video
unfolding create_virtual_display destroy_virtual_display build_pipeline_string Encoder.stop
recover_display a config screen v =
    let v' = let_go a v in
    on_created a config
      (create_virtual_display a.bus screen.width screen.height screen.fps v'.backend) v'
