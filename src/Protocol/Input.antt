-- ===== src/Protocol/Input.antt =====
-- host/src/protocol/types.rs, `InputEventType` and `InputEvent`: the 14-byte input event.
pub mod Codec
mod Tests
use ord.Prelude.{
  ℕ, List, [], ◌∷◌, ◌++◌, Option, none, some, and_then, length, ltb, ◌==◌, if◌then◌else◌,
}
use ord.Bytes.{write_u16, write_u32, read_u8, read_u16, read_u32}

pub data InputEventType : Type 0 where
  touch_down touch_move touch_up touch_cancel : InputEventType
  pointer_motion_absolute pointer_button pointer_axis : InputEventType
  keyboard_key : InputEventType

-- `event_type as u8`: the discriminant
unfoldable pub as_u8 : InputEventType → ℕ
as_u8 touch_down = 0
as_u8 touch_move = 1
as_u8 touch_up = 2
as_u8 touch_cancel = 3
as_u8 pointer_motion_absolute = 10
as_u8 pointer_button = 11
as_u8 pointer_axis = 12
as_u8 keyboard_key = 20

unfoldable pub from_u8 : ℕ → Option InputEventType
from_u8 v =
    if v == 0
    then some touch_down
    else if v == 1
    then some touch_move
    else if v == 2
    then some touch_up
    else if v == 3
    then some touch_cancel
    else if v == 10
    then some pointer_motion_absolute
    else if v == 11
    then some pointer_button
    else if v == 12
    then some pointer_axis
    else if v == 20
    then some keyboard_key
    else none

pub record InputEvent : Type 0 where
  pub event_type : InputEventType
  pub slot : ℕ  -- u8
  pub x : ℕ  -- u16
  pub y : ℕ  -- u16
  pub code_or_btn : ℕ  -- u32
  pub state_or_flags : ℕ  -- u32

-- `InputEvent::SIZE`
abbrev pub size : ℕ
size = 14

-- `InputEvent::encode`: the writes fill the buffer of `size` bytes.
unfoldable pub encode : InputEvent → List ℕ
unfolding as_u8 write_u16 write_u32
encode e =
    as_u8 e.event_type
    ∷ e.slot
    ∷ (write_u16 e.x ++ (write_u16 e.y ++ (write_u32 e.code_or_btn ++ write_u32 e.state_or_flags)))

-- `InputEvent::decode`; each `?` ends it with `none`.
unfoldable pub decode : List ℕ → Option InputEvent
unfolding from_u8 read_u8 read_u16 read_u32
decode bytes =
    if ltb (length bytes) size
    then none
    else and_then (read_u8 bytes) λ (v, cursor). and_then (from_u8 v) λ event_type.
      and_then (read_u8 cursor) λ (slot, cursor). and_then (read_u16 cursor) λ (x, cursor).
        and_then (read_u16 cursor) λ (y, cursor).
          and_then (read_u32 cursor) λ (code_or_btn, cursor).
            and_then (read_u32 cursor) λ (state_or_flags, cursor). some (record {
              event_type = event_type;
              slot = slot;
              x = x;
              y = y;
              code_or_btn = code_or_btn;
              state_or_flags = state_or_flags;
            })
