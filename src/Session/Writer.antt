-- ===== src/Session/Writer.antt =====
-- The USB write worker of `handle_usb_client` (host/src/session/mod.rs): it takes the packets out of
-- the channel and writes them to the accessory.
pub mod Delivery
mod Tests
use ord.Prelude.{ℕ, List, [], ◌∷◌, ◌++◌, Bool, Result, ok, err}
use ord.Transport.Usb.{BulkWrite, Written, returned, writing, write_packet_sync}

-- A packet that `blocking_recv` gives, with the stream's flag as the write begins, and what the device
-- answers.
pub record WriteTurn : Type 0 where
  pub is_closed : Bool
  pub packet : List ℕ
  pub answers : List BulkWrite

-- The bytes that are on the bus: the worker waits for the next packet, is in a write, or has ended.
pub data Sent : Type 0 where
  receiving in_write ended : List ℕ → Sent

abbrev pub behind : List ℕ → Sent → Sent
behind front (receiving bytes) = receiving (front ++ bytes)
behind front (in_write bytes) = in_write (front ++ bytes)
behind front (ended bytes) = ended (front ++ bytes)

abbrev pub on_write : Written → Sent → Sent
on_write (returned (ok _) is_closed bytes) rest = behind bytes rest
on_write (returned (err _) is_closed bytes) rest = ended bytes
on_write (writing bytes) rest = in_write bytes

unfoldable pub write_worker : List WriteTurn → Sent
unfolding write_packet_sync
write_worker [] = receiving []
write_worker (t ∷ ts) =
    on_write (write_packet_sync t.is_closed t.packet t.answers) (write_worker ts)
