-- ===== src/Encoder/Choice.antt =====
-- Which encoder `build_pipeline_string` of host/src/encoder/pipeline.rs takes.
use native.Mathlib.Nat.{le-div_iff_mul-le, div-mul-le_self}
use ord.Prelude.{◌/◌, ℕ, ◌*◌, ◌≤◌, ◌<◌, ◌≡◌, ◌↔◌, ◌⊎◌, Bool, true, false, err, arith}
use Prim.Native.String.{String}
use text.Mathlib.Text.{◌==◌ as str_eq}
use ord.Encoder.{EncoderConfig, no_encoder, keepalive_ms, build_pipeline_string}

pub build_pipeline_string-fails :
    (find : String → Bool) (node : ℕ) (config : EncoderConfig)
    → (build_pipeline_string find node config ≡ err no_encoder) ↔ (
        (find "x264enc" ≡ false)
        × (find "openh264enc" ≡ false)
        × ((find "vah264enc" ≡ false) ⊎ (str_eq config.encoder_choice "software" ≡ true)))
unfolding build_pipeline_string
build_pipeline_string-fails find node config = ground arith

-- With the choice "software" the hardware encoder plays no part: the pipeline is the same on a system
-- that lacks it.
pub software_ignores_vaapi :
    (find bare : String → Bool) (node : ℕ) (config : EncoderConfig)
    → str_eq config.encoder_choice "software" ≡ true
    → find "x264enc" ≡ bare "x264enc"
    → find "openh264enc" ≡ bare "openh264enc"
    → build_pipeline_string find node config ≡ build_pipeline_string bare node config
unfolding build_pipeline_string
software_ignores_vaapi find bare node config s x o = ground arith

-- The configured keyframe interval plays no part either: all intervals give one pipeline.
pub keyframe_interval_ignored :
    (find : String → Bool) (node k : ℕ) (config : EncoderConfig)
    → build_pipeline_string find node (record config { keyframe_interval_frames = k })
      ≡ build_pipeline_string find node config
unfolding build_pipeline_string
keyframe_interval_ignored find node k config = ground arith

-- For a rate from 1 to 1000 frames a second the keepalive time is at least 1 ms and no longer than a
-- frame.
pub keepalive_ms_bounds :
    (fps : ℕ) → 0 < fps → fps ≤ 1000 → (1 ≤ keepalive_ms fps) × (keepalive_ms fps * fps ≤ 1000)
unfolding keepalive_ms
keepalive_ms_bounds fps lo hi =
    let least : 1 ≤ 1000 / fps =
      (le-div_iff_mul-le {k = fps} {x = 1} {y = 1000} lo).1 (omega arith) in
    let most = div-mul-le_self 1000 fps in ground (arith, least, most)
