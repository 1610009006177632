-- ===== src/Session/Shutdown.antt =====
-- The end of `handle_usb_client` (host/src/session/mod.rs): the loop is over, the session closes the
-- accessory and waits for its two worker threads. The workers and the session take steps in any order.
pub mod Backlog
pub mod Joining
pub mod Ends
mod Tests
use ord.Prelude.{ℕ, suc, ◌≡◌, List, ◌∷◌, ◌++◌, Bool, true, false, ok, err}
use ord.Protocol.Packet.{OrdPacket, PacketError}
use ord.Session.Reader.{round, stop, emit, skip}

-- Where the session stands behind its loop.
pub data Main : Type 0 where
  closing awaiting_read awaiting_write finished : Main

-- The read worker reads the accessory, is in its `while` loop, is sending a packet out of that loop, or
-- has ended. The list is its accumulator, from which the packet has been drained.
pub data ReadWorker : Type 0 where
  reading : List ℕ → ReadWorker
  scanning : List ℕ → ReadWorker
  sending : OrdPacket → List ℕ → ReadWorker
  ended : ReadWorker

-- The write worker waits for a packet, or writes one, or has ended.
pub data WriteWorker : Type 0 where
  receiving writing ended : WriteWorker

-- Both channels are open until the session has returned, since it holds `usb_in_rx` and `usb_out_tx`;
-- but it takes nothing and sends nothing any more. One has room for some packets, the other holds some.
pub record Shutdown : Type 0 where
  pub main : Main
  pub reader : ReadWorker
  pub writer : WriteWorker
  pub is_closed : Bool
  pub in_room : ℕ
  pub out_queue : ℕ

pub data Step : Shutdown → Shutdown → Type 0 where
  -- `stream.close()`; the pipeline is stopped and the display destroyed
  close :
      {s : Shutdown}
      → s.main ≡ closing
      → Step s (record s { main = awaiting_read; is_closed = true })
  -- a transfer that is under way brings bytes
  receive :
      {s : Shutdown} {acc : List ℕ} (b : ℕ) (bs : List ℕ)
      → s.reader ≡ reading acc
      → Step s (record s { reader = scanning (acc ++ b ∷ bs) })
  -- the `while` loop finds no whole packet, and the next read begins
  scanned :
      {s : Shutdown} {acc : List ℕ}
      → s.reader ≡ scanning acc
      → round acc ≡ stop
      → Step s (record s { reader = reading acc })
  -- it drains a packet that decodes
  decode :
      {s : Shutdown} {acc rest : List ℕ} {p : OrdPacket}
      → s.reader ≡ scanning acc
      → round acc ≡ emit (ok p) rest
      → Step s (record s { reader = sending p rest })
  -- it drains bytes that do not decode
  discard :
      {s : Shutdown} {acc rest : List ℕ} {e : PacketError}
      → s.reader ≡ scanning acc
      → round acc ≡ emit (err e) rest
      → Step s (record s { reader = scanning rest })
  -- it removes a byte at which no header is read
  remove :
      {s : Shutdown} {acc rest : List ℕ}
      → s.reader ≡ scanning acc
      → round acc ≡ skip rest
      → Step s (record s { reader = scanning rest })
  -- `blocking_send` succeeds only where there is room, and the `while` loop goes on
  send :
      {s : Shutdown} {n : ℕ} {rest : List ℕ} {p : OrdPacket}
      → s.reader ≡ sending p rest
      → s.in_room ≡ suc n
      → Step s (record s { reader = scanning rest; in_room = n })
  -- `read_packet_sync` fails or brings nothing: the stream is closed, or the transfer is broken
  read_fails :
      {s : Shutdown} {acc : List ℕ}
      → s.reader ≡ reading acc
      → Step s (record s { reader = ReadWorker.ended })
  -- `blocking_recv` returns only where there is a packet
  take :
      {s : Shutdown} {n : ℕ}
      → s.writer ≡ receiving
      → s.out_queue ≡ suc n
      → Step s (record s { writer = writing; out_queue = n })
  -- a write that began before the stream was closed may succeed
  written : {s : Shutdown} → s.writer ≡ writing → Step s (record s { writer = receiving })
  write_fails :
      {s : Shutdown} → s.writer ≡ writing → Step s (record s { writer = WriteWorker.ended })
  -- `read_task.await`, then `write_task.await`
  read_joined :
      {s : Shutdown}
      → s.main ≡ awaiting_read
      → s.reader ≡ ReadWorker.ended
      → Step s (record s { main = awaiting_write })
  write_joined :
      {s : Shutdown}
      → s.main ≡ awaiting_write
      → s.writer ≡ WriteWorker.ended
      → Step s (record s { main = finished })

pub data Reach (s : Shutdown) : Shutdown → Type 0 where
  here : Reach s s
  next : {t u : Shutdown} → Reach s t → Step t u → Reach s u
