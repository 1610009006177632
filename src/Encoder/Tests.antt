-- ===== src/Encoder/Tests.antt =====
-- Runs of host/src/encoder/pipeline.rs on small inputs.
use ord.Prelude.{if◌then◌else◌, ◌≡◌, refl, Bool, true, false, none, some, [], ◌∷◌}
use Prim.Native.String.{String}
use text.Mathlib.Text.{◌==◌ as str_eq}
use ord.Encoder.{EncoderConfig, VideoFrame, Buffer, keepalive_ms}

abbrev software : EncoderConfig
software = record {
  width = 1920;
  height = 1200;
  fps = 60;
  bitrate_kbps = 15000;
  encoder_choice = "software";
  keyframe_interval_frames = 60;
}

-- A system that has the hardware encoder only, and one that has the software encoder only.
abbrev only_vaapi : String → Bool
only_vaapi name = str_eq name "vah264enc"

abbrev only_x264 : String → Bool
only_x264 name = str_eq name "x264enc"

abbrev both : String → Bool
both name = if str_eq name "vah264enc" then true else str_eq name "x264enc"

abbrev buffer : Buffer
buffer = record { pts = none; delta_unit = false; readable = some (1 ∷ 2 ∷ []) }

abbrev frame : VideoFrame
frame = record { pts_us = 0; is_keyframe = true; bytes = 1 ∷ 2 ∷ [] }

keepalive_60 : keepalive_ms 60 ≡ 16
unfolding keepalive_ms
keepalive_60 = refl
