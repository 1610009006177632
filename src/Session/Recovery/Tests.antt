-- ===== src/Session/Recovery/Tests.antt =====
-- A recovery of host/src/session/mod.rs after the display has gone.
use ord.Prelude.{◌≡◌, refl, [], true, false, none}
use ord.Display.{test_source, test_pattern}
use ord.Display.Mutter.{MutterBus, timed_out}
use ord.Encoder.{EncoderConfig, fresh}
use ord.Session.Screen.{Screen}
use ord.Session.Recovery.{Video, Answers, recover_display}
use ord.Session.Recovery.Matching.{IsMatched, recover_display-IsMatched}

abbrev silent : MutterBus
silent = record {
  connect = none;
  screencast_proxy = false;
  create_session = none;
  session_proxy = false;
  record_virtual = λ _. none;
  stream_proxy = false;
  receive_signal = false;
  start = false;
  signal = timed_out;
}

abbrev answers : Answers
answers = record {
  bus_at_end = silent;
  bus = silent;
  find = λ _. true;
  launches = true;
  starts = true;
}

abbrev config : EncoderConfig
config = record {
  width = 2560;
  height = 1600;
  fps = 60;
  bitrate_kbps = 15000;
  encoder_choice = "auto";
  keyframe_interval_frames = 60;
}

abbrev screen : Screen
screen = record { width = 2560; height = 1600; fps = 60 }

abbrev video : Video
video = record {
  pipeline = fresh;
  backend = test_source none;
  info = test_pattern 1920 1080 30;
  frames_open = true;
  bus_calls = [];
}

recovered : (recover_display answers config screen video).info.width ≡ 2560
unfolding recover_display test_pattern
recovered = refl

recover_display-IsMatched_example : IsMatched screen (recover_display answers config screen video)
recover_display-IsMatched_example = recover_display-IsMatched answers config screen video
