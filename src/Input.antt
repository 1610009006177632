-- ===== src/Input.antt =====
-- host/src/input: the backends that take the client's input events. f64 is a parameter.
pub mod Touch
pub mod Remote
mod Tests
use ord.Prelude.{ℕ, ◌+◌, ◌-◌, ◌^◌, Bool, true, false, List, [], ◌∷◌, ltb, ◌==◌, not, if◌then◌else◌}
use ord.Prelude.Int.{ℤ, pos, negsuc, signed32}
use Prim.Native.String.{String}
use ord.Protocol.Coordinate.{CoordinateTransformer, normalized_to_display}
use ord.Protocol.Coordinate
use ord.Protocol.Coordinate.Float.{F64}
use ord.Protocol.Input.{
  InputEventType, InputEvent, touch_down, touch_move, touch_up, touch_cancel,
  pointer_motion_absolute, pointer_button, pointer_axis, keyboard_key,
}

-- The calls of org.gnome.Mutter.RemoteDesktop.Session, with their arguments.
pub data Call (F : Type 0) : Type 0 where
  notify_touch_down notify_touch_motion : String → ℕ → F → F → Call F
  notify_touch_up : ℕ → Call F
  notify_pointer_motion_absolute : String → F → F → Call F
  notify_pointer_button : ℤ → Bool → Call F
  notify_pointer_axis : F → F → ℕ → Call F
  notify_keyboard_keycode : ℕ → Bool → Call F

-- `MutterInputBackend`, without the handles of the bus.
pub record MutterInputBackend : Type 0 where
  pub stream_path : String
  pub transformer : CoordinateTransformer

-- `MutterInputBackend::new`, once the calls on the bus have succeeded.
unfoldable pub new : String → ℕ → ℕ → MutterInputBackend
new stream_path display_width display_height = record {
  stream_path = stream_path;
  transformer = Coordinate.new display_width display_height;
}

-- evdev BTN_LEFT, BTN_MIDDLE, BTN_RIGHT; any other number is cast by `as i32`.
unfoldable pub button_of : ℕ → ℤ
button_of code_or_btn =
    if code_or_btn == 1
    then pos 0x110
    else if code_or_btn == 2
    then pos 0x112
    else if code_or_btn == 3
    then pos 0x111
    else signed32 code_or_btn

abbrev pub is_pressed : ℕ → Bool
is_pressed state_or_flags = if state_or_flags == 0 then false else true

module _ (f64 : F64) where
  open f64 use {Carrier, of_nat, ◌-f◌}

  -- The `match` on the event's type.
  abbrev pub call_of : InputEventType → InputEvent → String → Carrier × Carrier → Call Carrier
  call_of touch_down event stream (px_x, px_y) = notify_touch_down stream event.slot px_x px_y
  call_of touch_move event stream (px_x, px_y) = notify_touch_motion stream event.slot px_x px_y
  call_of touch_up event stream p = notify_touch_up event.slot
  call_of touch_cancel event stream p = notify_touch_up event.slot
  call_of pointer_motion_absolute event stream (px_x, px_y) =
      notify_pointer_motion_absolute stream px_x px_y
  call_of pointer_button event stream p =
      notify_pointer_button (button_of event.code_or_btn) (is_pressed event.state_or_flags)
  call_of pointer_axis event stream p =
      let dx = of_nat event.x -f of_nat 32768 in
      let dy = of_nat event.y -f of_nat 32768 in notify_pointer_axis dx dy event.state_or_flags
  call_of keyboard_key event stream p =
      notify_keyboard_keycode event.code_or_btn (is_pressed event.state_or_flags)

  -- `MutterInputBackend::handle_event`: one call, whose result is ignored.
  unfoldable pub handle_event : MutterInputBackend → InputEvent → List (Call Carrier)
  handle_event b event =
      let at = normalized_to_display f64 b.transformer event.x event.y in
      call_of event.event_type event b.stream_path at ∷ []

  -- `Box<dyn InputBackend>`: Mutter, or `UInputBackend`, which only logs.
  pub data InputBackend : Type 0 where
    mutter : MutterInputBackend → InputBackend
    uinput : InputBackend

  unfoldable pub dispatch : InputBackend → InputEvent → List (Call Carrier)
  unfolding handle_event
  dispatch (mutter b) event = handle_event b event
  dispatch uinput event = []
