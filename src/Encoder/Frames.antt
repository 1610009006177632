-- ===== src/Encoder/Frames.antt =====
-- The frames that the callback of host/src/encoder/pipeline.rs offers to the session.
use ord.Prelude.{◌≡◌, refl, Bool, true, not, none, some, arith}
use ord.Encoder.{
  VideoFrame, VideoPipeline, Buffer, Sample, holds, pull_failed, no_buffer, new_sample, start, stop,
}

-- A stopped pipeline offers no frame, and a start does not wake its callback again.
pub new_sample-stop :
    (p : VideoPipeline) (accepted : Bool) (sample : Sample)
    → (new_sample (stop p) sample ≡ none) × (new_sample (start accepted (stop p)).1 sample ≡ none)
unfolding new_sample stop start
new_sample-stop p accepted sample = ground arith

-- A frame that is offered has the bytes of a readable buffer of the sample, and is a keyframe unless
-- the buffer is a delta unit.
pub new_sample-eq-some :
    (p : VideoPipeline) (sample : Sample) {frame : VideoFrame}
    → new_sample p sample ≡ some frame
    → (p.is_running ≡ true)
      × ((b : Buffer) × (sample ≡ holds b)
          × (b.readable ≡ some frame.bytes)
          × (frame.is_keyframe ≡ not b.delta_unit))
unfolding new_sample
new_sample-eq-some p pull_failed h = absurd (ground arith)
new_sample-eq-some p no_buffer h = absurd (ground arith)
new_sample-eq-some p (holds b) h = (ground arith, (b, refl, ground arith, ground arith))
