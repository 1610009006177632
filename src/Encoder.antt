-- ===== src/Encoder.antt =====
-- host/src/encoder/pipeline.rs: the text of the GStreamer pipeline, the callback that takes its
-- frames, and its running state. GStreamer is a parameter: which elements it has, what a sample holds,
-- and whether a change of state succeeds.
pub mod Choice
pub mod Frames
pub mod Making
mod Tests
use ord.Prelude.{
  ℕ, ◌*◌, ◌/◌, ◌%◌, ◌^◌, Bool, true, false, Option, none, some, List, [], ◌∷◌, ◌++◌, Result, ok,
  err, ◌>>=◌, ltb, if◌then◌else◌, not, ◌&&◌,
}
use Prim.Native.Nat.{max}
use Prim.Native.String.{String}
use text.Mathlib.Text.{◌==◌ as str_eq}

pub record VideoFrame : Type 0 where
  pub pts_us : ℕ  -- u64
  pub is_keyframe : Bool
  pub bytes : List ℕ

pub record EncoderConfig : Type 0 where
  pub width : ℕ  -- u32
  pub height : ℕ  -- u32
  pub fps : ℕ  -- u32
  pub bitrate_kbps : ℕ  -- u32
  pub encoder_choice : String
  pub keyframe_interval_frames : ℕ  -- u32

-- What `format!` puts together: texts, and numbers to be written in decimal.
pub data Piece : Type 0 where
  literal : String → Piece
  number : ℕ → Piece

pub data EncoderError : Type 0 where
  no_encoder : EncoderError

-- 6 ms where the rate is zero.
unfoldable pub keepalive_ms : ℕ → ℕ
keepalive_ms fps = if ltb 0 fps then max (1000 / fps) 1 else 6

unfoldable pub source_str : ℕ → EncoderConfig → List Piece
unfolding keepalive_ms
source_str pipewire_node_id config =
    if ltb 0 pipewire_node_id
    then (literal "pipewiresrc path="
        ∷ number pipewire_node_id
        ∷ literal " do-timestamp=true keepalive-time="
        ∷ number (keepalive_ms config.fps)
        ∷ literal " always-copy=true"
        ∷ [])
    else (literal "videotestsrc is-live=true pattern=smpte ! video/x-raw,width="
        ∷ number config.width
        ∷ literal ",height="
        ∷ number config.height
        ∷ literal ",framerate="
        ∷ number config.fps
        ∷ literal "/1"
        ∷ [])

module _ (find : String → Bool) where
  -- `use_vaapi`; `find` is `ElementFactory::find(..).is_some()`.
  unfoldable pub use_vaapi : String → Bool
  use_vaapi encoder_choice =
      if str_eq encoder_choice "software"
      then false
      else if str_eq encoder_choice "vaapi"
      then true
      else find "vah264enc"

  unfoldable pub encoder_str : EncoderConfig → Result EncoderError (List Piece)
  unfolding use_vaapi
  encoder_str config =
      if use_vaapi config.encoder_choice && find "vah264enc"
      then ok (
          literal "videoconvert ! videoscale ! video/x-raw,width="
          ∷ number config.width
          ∷ literal ",height="
          ∷ number config.height
          ∷ literal ",format=NV12 ! vah264enc bitrate="
          ∷ number config.bitrate_kbps
          ∷ literal
              " rate-control=cbr target-usage=1 b-frames=0 ref-frames=1 key-int-max=30 num-slices=1 aud=true"
          ∷ [])
      else if find "x264enc"
      then ok (
          literal "videoconvert ! videoscale ! video/x-raw,width="
          ∷ number config.width
          ∷ literal ",height="
          ∷ number config.height
          ∷ literal " ! x264enc tune=zerolatency speed-preset=ultrafast bitrate="
          ∷ number config.bitrate_kbps
          ∷ literal " key-int-max=30 bframes=0 sliced-threads=true aud=true"
          ∷ [])
      else if find "openh264enc"
      then ok (
          literal "videoconvert ! videoscale ! video/x-raw,width="
          ∷ number config.width
          ∷ literal ",height="
          ∷ number config.height
          ∷ literal " ! openh264enc bitrate="
          ∷ number (config.bitrate_kbps * 1000 % 2 ^ 32)
          ∷ literal " gop-size=10"
          ∷ [])
      else err no_encoder

  -- `VideoPipeline::build_pipeline_string`
  unfoldable pub build_pipeline_string : ℕ → EncoderConfig → Result EncoderError (List Piece)
  unfolding source_str encoder_str
  build_pipeline_string pipewire_node_id config = do
    encoder ← encoder_str config
    ok (
        source_str pipewire_node_id config
        ++ (literal " ! "
            ∷ (encoder
                ++ literal
                    " ! h264parse config-interval=-1 ! appsink name=ord_sink emit-signals=true max-buffers=2 drop=false sync=false"
                  ∷ [])))

-- What `pull_sample` gives: a buffer may be missing, may have no time, and may not be readable.
pub record Buffer : Type 0 where
  pub pts : Option ℕ  -- in microseconds
  pub delta_unit : Bool
  pub readable : Option (List ℕ)

pub data Sample : Type 0 where
  pull_failed : Sample
  no_buffer : Sample
  holds : Buffer → Sample

pub record VideoPipeline : Type 0 where
  pub is_running : Bool
  pub playing : Bool

abbrev pub pts_or_zero : Option ℕ → ℕ
pts_or_zero (some t) = t
pts_or_zero none = 0

abbrev pub frame_of : Buffer → Option (List ℕ) → Option VideoFrame
frame_of buffer none = none
frame_of buffer (some bytes) =
    some (record {
      pts_us = pts_or_zero buffer.pts;
      is_keyframe = not buffer.delta_unit;
      bytes = bytes;
    })

abbrev pub sampled : Sample → Option VideoFrame
sampled pull_failed = none
sampled no_buffer = none
sampled (holds buffer) = frame_of buffer buffer.readable

-- The `new_sample` callback: the frame that it offers to the channel by `try_send`, if any. Whatever
-- comes of that, the callback returns `Ok`.
unfoldable pub new_sample : VideoPipeline → Sample → Option VideoFrame
new_sample p sample = if p.is_running then sampled sample else none

-- The state that `VideoPipeline::new` makes.
abbrev pub fresh : VideoPipeline
fresh = record { is_running = true; playing = false }

-- `start`; the flag says whether GStreamer accepts the state.
unfoldable pub start : Bool → VideoPipeline → Bool × VideoPipeline
start accepted p = if accepted then (true, record p { playing = true }) else (false, p)

-- `stop`, which `drop` calls too.
unfoldable pub stop : VideoPipeline → VideoPipeline
stop p = record p { is_running = false; playing = false }
