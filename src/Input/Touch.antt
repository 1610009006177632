-- ===== src/Input/Touch.antt =====
-- The touch points that Mutter is told of (host/src/input/mutter_input.rs).
use ord.Prelude.{
  ℕ, ◌≤◌, ◌≡◌, refl, ◌∙◌, Bool, true, false, List, [], ◌∷◌, ◌++◌, ◌==◌, if◌then◌else◌, arith, All,
}
use ord.Protocol.Coordinate.{CoordinateTransformer, normalized_to_display}
use ord.Protocol.Coordinate.Float.{F64, IsIeee}
use ord.Protocol.Coordinate.Scaling.{normalized_to_display_bounds}
use ord.Protocol.Input.{
  InputEventType, InputEvent, touch_down, touch_move, touch_up, touch_cancel,
  pointer_motion_absolute,
}
use ord.Input.{
  call_of, Call, notify_touch_down, notify_touch_motion, notify_touch_up,
  notify_pointer_motion_absolute, MutterInputBackend, handle_event,
}

module _ (f64 : F64) where
  open f64 use {Carrier, of_nat}

  -- The calls for a list of events, in order.
  pub handle_events : MutterInputBackend → List InputEvent → List (Call Carrier)
  handle_events b [] = []
  handle_events b (event ∷ events) = handle_event f64 b event ++ handle_events b events

  -- Whether Mutter has a touch point for a slot, after some calls.
  pub has_point : ℕ → Bool → List (Call Carrier) → Bool
  has_point slot before [] = before
  has_point slot before (notify_touch_down stream s x y ∷ calls) =
      has_point slot (if s == slot then true else before) calls
  has_point slot before (notify_touch_up s ∷ calls) =
      has_point slot (if s == slot then false else before) calls
  has_point slot before (_ ∷ calls) = has_point slot before calls

-- Whether the client holds a slot down, after some events.
abbrev pub held_after : InputEventType → Bool → Bool
held_after touch_down before = true
held_after touch_up before = false
held_after touch_cancel before = false
held_after _ before = before

pub holds : ℕ → Bool → List InputEvent → Bool
holds slot before [] = before
holds slot before (event ∷ events) =
    holds slot (if event.slot == slot then held_after event.event_type before else before) events

module _ (f64 : F64) where
  open f64 use {Carrier, of_nat}

  has_point-handle_event :
      (b : MutterInputBackend) (slot : ℕ) (before : Bool) (event : InputEvent)
      (calls : List (Call Carrier))
      → has_point f64 slot before (handle_event f64 b event ++ calls)
        ≡ has_point f64 slot
            (if event.slot == slot then held_after event.event_type before else before)
            calls
  unfolding has_point handle_event
  has_point-handle_event b slot before event calls = ground arith

  -- The touch points of Mutter are the slots that the client holds down, whatever other events come
  -- between.
  pub has_point-handle_events :
      (b : MutterInputBackend) (slot : ℕ) (before : Bool) (events : List InputEvent)
      → has_point f64 slot before (handle_events f64 b events) ≡ holds slot before events
  unfolding handle_events holds
  has_point-handle_events b slot before [] = unfold has_point in refl
  has_point-handle_events b slot before (event ∷ events) =
      has_point-handle_event b slot before event (handle_events f64 b events)
      ∙ has_point-handle_events b slot
          (if event.slot == slot then held_after event.event_type before else before) events

module _ (f64 : F64) (law : IsIeee f64) where
  open f64 use {Carrier, of_nat}
  open law use {Le}

  abbrev pub IsWithin : CoordinateTransformer → Carrier → Carrier → Type 0
  IsWithin t px py =
      Le (of_nat 0) px
      × Le px (of_nat t.display_width)
      × Le (of_nat 0) py
      × Le py (of_nat t.display_height)

  -- The position of a call, if it has one, lies in the display.
  abbrev pub IsInside : CoordinateTransformer → Call Carrier → Type 0
  IsInside t (notify_touch_down stream slot px py) = IsWithin t px py
  IsInside t (notify_touch_motion stream slot px py) = IsWithin t px py
  IsInside t (notify_pointer_motion_absolute stream px py) = IsWithin t px py
  IsInside t _ = Unit {0}

  inside :
      (b : MutterInputBackend) (type : InputEventType) (event : InputEvent)
      → event.x ≤ 65535
      → event.y ≤ 65535
      → IsInside b.transformer (
          call_of f64 type event b.stream_path
            (normalized_to_display f64 b.transformer event.x event.y))
  inside b touch_down event hx hy =
      normalized_to_display_bounds f64 law b.transformer event.x event.y hx hy
  inside b touch_move event hx hy =
      normalized_to_display_bounds f64 law b.transformer event.x event.y hx hy
  inside b pointer_motion_absolute event hx hy =
      normalized_to_display_bounds f64 law b.transformer event.x event.y hx hy
  inside b _ event hx hy = tt

  -- Every position that is passed to Mutter for an event with coordinates up to 65535 lies in the
  -- display.
  pub handle_event-IsInside :
      (b : MutterInputBackend) (event : InputEvent)
      → event.x ≤ 65535
      → event.y ≤ 65535
      → All (IsInside b.transformer) (handle_event f64 b event)
  unfolding handle_event
  handle_event-IsInside b event hx hy = (inside b event.event_type event hx hy, tt)
