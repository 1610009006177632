-- ===== src/Session/Reader.antt =====
-- The USB read worker of `handle_usb_client` (host/src/session/mod.rs): it collects what the
-- accessory sends, cuts the packets out of it and passes them to the session.
pub mod Scanning
pub mod Runs
pub mod Chunks
pub mod Resync
pub mod Recovery
mod Tests
use ord.Prelude.{
  ℕ, zero, suc, ◌+◌, ◌-◌, List, [], ◌∷◌, ◌++◌, Option, none, some, Result, ok, err, leb,
  if◌then◌else◌, length, take, drop,
}
use ord.Protocol.Packet.{
  OrdHeader, OrdPacket, PacketError, ord_header_size, decode_header, decode_packet,
}

-- One round of the loop over the accumulator: its test fails or it breaks (`stop`), it drains the
-- bytes of a packet and decodes them (`emit`), or it removes the first byte (`skip`).
pub data Round : Type 0 where
  stop : Round
  emit : Result PacketError OrdPacket → List ℕ → Round
  skip : List ℕ → Round

abbrev pub drain_of : List ℕ → Result PacketError OrdHeader → Round
drain_of accumulator (ok header) =
    let total_len = ord_header_size + header.payload_len in
    if leb total_len (length accumulator)
    then emit (decode_packet (take total_len accumulator)) (drop total_len accumulator)
    else stop
drain_of accumulator (err _) = skip (drop 1 accumulator)

unfoldable pub round : List ℕ → Round
round accumulator =
    if leb ord_header_size (length accumulator)
    then drain_of accumulator (decode_header accumulator)
    else stop

-- The session's end of the channel `usb_in_tx`: how many more packets it takes before it is dropped.
-- A worker whose channel is closed returns.
pub record Worker : Type 0 where
  pub accumulator : List ℕ
  pub delivered : List OrdPacket
  pub accepts : ℕ

pub data Status : Type 0 where
  running : Worker → Status
  returned : Worker → Status

-- `blocking_send` of a decoded packet; a packet that does not decode is dropped.
abbrev pub deliver : Result PacketError OrdPacket → List ℕ → List OrdPacket → ℕ → Status
deliver (ok p) rest delivered zero =
    returned (record { accumulator = rest; delivered = delivered; accepts = 0 })
deliver (ok p) rest delivered (suc n) =
    running (record { accumulator = rest; delivered = delivered ++ p ∷ []; accepts = n })
deliver (err _) rest delivered accepts =
    running (record { accumulator = rest; delivered = delivered; accepts = accepts })

-- The `while` loop over the accumulator. A round that does not stop takes a byte at least, so the
-- fuel of `extend` is enough; `none` says that it ran out.
pub while_header : ℕ → Worker → Option Status
while_header zero w = none
while_header (suc fuel) w = elim (round w.accumulator) [
  | stop ↦ some (running w)
  | emit r rest ↦ elim (deliver r rest w.delivered w.accepts) [
    | running w' ↦ while_header fuel w'
    | returned w' ↦ some (returned w')
  ]
  | skip rest ↦ while_header fuel (record w { accumulator = rest })
]

-- What a read of the accessory gives: bytes, or its end (no byte, or an error).
pub data UsbRead : Type 0 where
  arrived : List ℕ → UsbRead
  ended : UsbRead

-- One read: `extend_from_slice`, and the `while` loop.
unfoldable pub extend : Worker → List ℕ → Option Status
extend w bytes =
    let accumulator = w.accumulator ++ bytes in
    while_header (suc (length accumulator)) (record w { accumulator = accumulator })

-- The outer loop, which returns when a read ends it or the channel is closed.
pub read_worker : Worker → List UsbRead → Option Status
read_worker w [] = some (running w)
read_worker w (ended ∷ reads) = some (returned w)
read_worker w (arrived [] ∷ reads) = some (returned w)
read_worker w (arrived (b ∷ bs) ∷ reads) = elim (extend w (b ∷ bs)) [
  | none ↦ none
  | some status ↦ elim status [
    | running w' ↦ read_worker w' reads
    | returned w' ↦ some (returned w')
  ]
]
