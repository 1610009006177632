-- ===== src/Encoder/Making/Tests.antt =====
-- Pipelines of host/src/encoder/pipeline.rs that are made, or not, and that fail.
use ord.Prelude.{◌+◌, ◌≡◌, refl, [], ◌∷◌, true, false, err, if◌then◌else◌}
use text.Mathlib.Text.{◌==◌ as str_eq}
use ord.Encoder.Making.{
  Gst, default_encoder_config, no_sink, new_pipeline, gst_error, gst_eos, waits, watch_bus,
  Notifier,
}
use ord.Encoder.Making.Notices.{watch_bus_error}

-- The appsink is not found.
abbrev odd : Gst
odd = record {
  init = true;
  find = λ name. str_eq name "x264enc";
  launch = λ _. true;
  is_pipeline = true;
  by_name = false;
  is_app_sink = true;
}

odd_fails : new_pipeline odd 42 default_encoder_config ≡ err no_sink
unfolding new_pipeline
odd_fails = refl

-- The session handles a packet as the error comes.
abbrev busy : Notifier
busy = record { task_runs = true; waiting = false; woken = 0; notices = 0 }

watch_bus_error_example :
    (watch_bus busy (gst_error ∷ waits ∷ gst_eos ∷ [])).woken ≡ 0 + (if false then 1 else 0)
watch_bus_error_example = watch_bus_error busy (waits ∷ gst_eos ∷ []) refl
