-- ===== src/Session/Wire.antt =====
-- The loop of host/src/session/mod.rs over the reads of host/src/transport/tcp.rs: `select!` polls
-- `read_packet`, and drops the call when it waits and a frame is taken instead.
pub mod Polling
pub mod Delivery
pub mod Alive
pub mod Inputs
mod Tests
use ord.Prelude.{ℕ, zero, suc, List, [], ◌∷◌, ◌++◌, Option}
use ord.Encoder.{VideoFrame}
use ord.Transport.Tcp.{Read, Outcome, returned, waiting, read_packet}
use ord.Session.Loop.{F32, Event, frame, read}

-- What happens next: bytes reach the socket, or its end or an error does; `select!` takes a frame; or it
-- polls `read_packet`, and takes the result if there is one.
pub data Turn (f32 : F32) : Type 0 where
  arrives : Read → Turn f32
  frame_ready : VideoFrame → Option f32.Carrier → Turn f32
  poll_read : Turn f32

-- The buffer of the `FramedStream`, and what its socket holds.
pub record Wire : Type 0 where
  pub read_buf : List ℕ
  pub socket : List Read

abbrev pub new_wire : Wire
new_wire = record { read_buf = []; socket = [] }

abbrev pub wire_after : Outcome → Wire
wire_after (returned r buf reads) = record { read_buf = buf; socket = reads }
wire_after (waiting buf) = record { read_buf = buf; socket = [] }

module _ {f32 : F32} where
  abbrev pub result_of : Outcome → List (Event f32)
  result_of (returned r buf reads) = read r ∷ []
  result_of (waiting buf) = []

  -- The events of the loop.
  unfoldable pub selected : Wire → List (Turn f32) → List (Event f32)
  selected w [] = []
  selected w (arrives r ∷ ts) = selected (record w { socket = w.socket ++ r ∷ [] }) ts
  selected w (frame_ready f elapsed ∷ ts) = frame f elapsed ∷ selected w ts
  selected w (poll_read ∷ ts) =
      let o = read_packet w.read_buf w.socket in result_of o ++ selected (wire_after o) ts

  unfoldable pub wire_at_end : Wire → List (Turn f32) → Wire
  wire_at_end w [] = w
  wire_at_end w (arrives r ∷ ts) = wire_at_end (record w { socket = w.socket ++ r ∷ [] }) ts
  wire_at_end w (frame_ready f elapsed ∷ ts) = wire_at_end w ts
  wire_at_end w (poll_read ∷ ts) = wire_at_end (wire_after (read_packet w.read_buf w.socket)) ts
