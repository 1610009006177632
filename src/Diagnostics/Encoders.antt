-- ===== src/Diagnostics/Encoders.antt =====
-- What the report of host/src/diagnostics.rs says of hardware encoders, and what the pipeline of
-- host/src/encoder/pipeline.rs does.
use ord.Prelude.{ℕ, ◌≡◌, refl, Bool, true, false, ◌&&◌, inl, some, err}
use Prim.Native.String.{String}
use ord.Encoder.{EncoderConfig, no_encoder, use_vaapi, build_pipeline_string}
use ord.Encoder.Choice.{build_pipeline_string-fails}
use ord.Diagnostics.Texts.{codes}
use ord.Diagnostics.{System, hardware_encoder, inspect}

-- The report says that VA-API is available exactly when the pipeline with the encoder "auto" takes
-- vah264enc: both ask for the same element.
pub vaapi_supported-use_vaapi :
    (s : System) → (inspect s).vaapi_supported ≡ (use_vaapi s.find "auto" && s.find "vah264enc")
unfolding inspect use_vaapi
vaapi_supported-use_vaapi s = same (s.find "vah264enc")
  where
    same : (b : Bool) → b ≡ (b && b)
    same true = refl
    same false = refl

-- On a system whose only H.264 encoder is Vulkan's the report names a hardware encoder, and yet no
-- configuration gives a pipeline: `build_pipeline_string` does not know that encoder.
pub inspect-no_encoder :
    (s : System) (node : ℕ) (config : EncoderConfig)
    → s.find "vulkanh264enc" ≡ true
    → s.find "vah264enc" ≡ false
    → s.find "x264enc" ≡ false
    → s.find "openh264enc" ≡ false
    → ((inspect s).vaapi_encoder ≡ some (codes "vulkanh264enc (Hardware Vulkan H.264)"))
      × (build_pipeline_string s.find node config ≡ err no_encoder)
unfolding inspect
inspect-no_encoder s node config vulkan va x o264 =
    (named s.find va vulkan, (build_pipeline_string-fails s.find node config).1 (x, o264, inl va))
  where
    named :
        (find : String → Bool)
        → find "vah264enc" ≡ false
        → find "vulkanh264enc" ≡ true
        → hardware_encoder find ≡ some (codes "vulkanh264enc (Hardware Vulkan H.264)")
    named find a b = rw (a, b) refl
