-- ===== src/Display/Tests.antt =====
-- Runs of the virtual display of host/src/display.
use ord.Prelude.{true, some}
use ord.Display.Mutter.{VirtualDisplayInfo, MutterBus, node, timed_out}

abbrev gnome : MutterBus
gnome = record {
  connect = some 1;
  screencast_proxy = true;
  create_session = some "/session/7";
  session_proxy = true;
  record_virtual = λ _. some "/stream/7";
  stream_proxy = true;
  receive_signal = true;
  start = true;
  signal = node 42;
}

abbrev silent : MutterBus
silent = record gnome { signal = timed_out }

abbrev monitor : VirtualDisplayInfo
monitor = record {
  name = "ORD-Virtual-1";
  width = 1920;
  height = 1200;
  fps = 60;
  pipewire_node_id = 42;
  stream_path = "/stream/7";
  session_path = "/session/7";
}
