-- ===== src/Encoder/Making.antt =====
-- host/src/encoder/pipeline.rs, `VideoPipeline::new`: its steps, the task that watches the bus of the
-- pipeline, and the notification of errors. GStreamer's answers are arguments.
pub mod Notices
mod Tests
use ord.Prelude.{
  ℕ, suc, List, [], ◌∷◌, Bool, true, false, Option, none, some, Result, ok, err, ◌>>=◌,
  if◌then◌else◌,
}
use Prim.Native.String.{String}
use ord.Encoder.{EncoderConfig, EncoderError, Piece, VideoPipeline, fresh, build_pipeline_string}

-- `EncoderConfig::default`
abbrev pub default_encoder_config : EncoderConfig
default_encoder_config = record {
  width = 1920;
  height = 1200;
  fps = 60;
  bitrate_kbps = 15000;
  encoder_choice = "auto";
  keyframe_interval_frames = 60;
}

pub data PipelineError : Type 0 where
  not_initialized : PipelineError
  bad_string : EncoderError → PipelineError
  not_launched not_a_pipeline no_sink not_an_app_sink : PipelineError

-- What GStreamer answers: `init`; its elements; `launch`, and whether that is a pipeline; the element
-- "ord_sink", and whether that is an appsink.
pub record Gst : Type 0 where
  pub init : Bool
  pub find : String → Bool
  pub launch : List Piece → Bool
  pub is_pipeline : Bool
  pub by_name : Bool
  pub is_app_sink : Bool

abbrev pub context : Bool → PipelineError → Result PipelineError (Unit {0})
context true e = ok tt
context false e = err e

abbrev pub string_or_error : Result EncoderError (List Piece) → Result PipelineError (List Piece)
string_or_error (ok pieces) = ok pieces
string_or_error (err e) = err (bad_string e)

-- `VideoPipeline::new`. Its callback is `new_sample`.
unfoldable pub new_pipeline : Gst → ℕ → EncoderConfig → Result PipelineError VideoPipeline
unfolding build_pipeline_string
new_pipeline gst pipewire_node_id config = do
  _ ← context gst.init not_initialized
  pipeline_str ← string_or_error (build_pipeline_string gst.find pipewire_node_id config)
  _ ← context (gst.launch pipeline_str) not_launched
  _ ← context gst.is_pipeline not_a_pipeline
  _ ← context gst.by_name no_sink
  _ ← context gst.is_app_sink not_an_app_sink
  ok fresh

-- What the bus task and the session do, in order. A message is an error, the end of the stream, or
-- another one; the session comes to wait in `notified` at the head of its `select!`, and leaves it
-- when another branch is taken.
pub data BusEvent : Type 0 where
  gst_error gst_eos gst_other : BusEvent
  waits leaves : BusEvent

-- `Notify`: `notify_waiters` wakes who waits, and nobody else: it is not stored. The task ends with
-- the first notice.
pub record Notifier : Type 0 where
  pub task_runs : Bool
  pub waiting : Bool
  pub woken : ℕ
  pub notices : ℕ

abbrev pub notify_waiters : Notifier → Notifier
notify_waiters n =
    if n.waiting
    then record { task_runs = false; waiting = false; woken = suc n.woken; notices = suc n.notices }
    else record n { task_runs = false; notices = suc n.notices }

abbrev pub bus_message : Notifier → Notifier
bus_message n = if n.task_runs then notify_waiters n else n

unfoldable pub on_bus : Notifier → BusEvent → Notifier
on_bus n gst_error = bus_message n
on_bus n gst_eos = bus_message n
on_bus n gst_other = n
on_bus n waits = record n { waiting = true }
on_bus n leaves = record n { waiting = false }

unfoldable pub watch_bus : Notifier → List BusEvent → Notifier
unfolding on_bus
watch_bus n [] = n
watch_bus n (e ∷ es) = watch_bus (on_bus n e) es

-- Behind `new`; without a bus there is no task.
abbrev pub first_notifier : Bool → Notifier
first_notifier has_bus = record { task_runs = has_bus; waiting = false; woken = 0; notices = 0 }
