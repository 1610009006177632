-- ===== src/Input/Tests.antt =====
-- Runs of the input backend of host/src/input/mutter_input.rs. In the model of f64 the numbers are
-- natural, and its quotient rounds down.
use Prim.Native.Nat.{min, max}
use ord.Prelude.{ℕ, ◌-◌, ◌*◌, ◌/◌, ◌≤◌, ◌≡◌, refl, true, false, some, List, [], ◌∷◌, arith}
use ord.Prelude.Int.{pos, negsuc}
use ord.Protocol.Coordinate.Float.{F64, IsIeee}
use ord.Protocol.Input.{InputEvent, InputEventType, touch_down, touch_up, keyboard_key}
use ord.Input.Remote.{RemoteBus, RemoteInput}
use ord.Input.{MutterInputBackend, button_of}
use ord.Input.Touch.{handle_events, has_point, holds, has_point-handle_events}

abbrev whole : F64
whole = record {
  Carrier = ℕ;
  of_nat = λ n. n;
  ◌/f◌ = λ a b. a / b;
  ◌*f◌ = λ a b. a * b;
  ◌-f◌ = λ a b. a - b;
  clamp = λ a lo hi. min (max a lo) hi;
  to_u16 = λ a. min a 65535;
}

whole-IsIeee : IsIeee whole
whole-IsIeee = record {
  Le = λ a b. a ≤ b;
  of_nat_mono = λ m n h. h;
  div_mono = λ a b n h pos. grind arith;
  mul_mono = λ a b n h. grind arith;
  zero_div = λ n h. grind arith;
  div_self = λ n h. grind arith;
  zero_mul = λ n. omega arith;
  one_mul = λ n. omega arith;
  clamp_below = λ a h. omega arith;
  clamp_above = λ a h. omega arith;
  to_u16-of_nat = λ n h. omega arith;
}

abbrev touch : InputEventType → ℕ → InputEvent
touch t slot = record {
  event_type = t;
  slot = slot;
  x = 32768;
  y = 65535;
  code_or_btn = 0;
  state_or_flags = 1;
}

abbrev screen : MutterInputBackend
screen = record {
  stream_path = "/stream";
  transformer = record { display_width = 1920; display_height = 1200 };
}

abbrev taps : List InputEvent
taps = touch touch_down 0 ∷ touch touch_down 1 ∷ touch keyboard_key 0 ∷ touch touch_up 0 ∷ []

has_point-handle_events_example :
    has_point whole 1 false (handle_events whole screen taps) ≡ holds 1 false taps
has_point-handle_events_example = has_point-handle_events whole screen 1 false taps

buttons :
    (button_of 3 ≡ pos 0x111) × (button_of 0x113 ≡ pos 0x113) × (button_of 0xFFFFFFFF ≡ negsuc 0)
unfolding button_of
buttons = (refl, refl, refl)

abbrev gnome : RemoteBus
gnome = record {
  connect = true;
  root_proxy = true;
  create_session = some "/session/1";
  session_proxy = true;
  start = true;
}

abbrev made : RemoteInput
made = record { backend = screen; session_path = "/session/1" }
