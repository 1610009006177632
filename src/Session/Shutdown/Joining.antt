-- ===== src/Session/Shutdown/Joining.antt =====
-- How the two workers of `handle_usb_client` (host/src/session/mod.rs) come to their ends.
use ord.Prelude.{ℕ, zero, suc, ◌≤◌, ◌<◌, ◌≡◌, ◌≢◌, refl, List, ok, err, length, arith}
use ord.Protocol.Packet.{OrdPacket}
use ord.Session.Reader.Scanning.{emit-length, skip-length}
use ord.Session.Reader.Runs.{stops, emits, skips, round_of}
use ord.Session.Shutdown.{
  ReadWorker, reading, scanning, sending, WriteWorker, receiving, writing, Shutdown, scanned,
  decode, discard, remove, send, read_fails, take, write_fails, Reach, here, next,
}
use ord.Session.Shutdown.Backlog.{packets_in, backlog, packets_in-emit, packets_in-skip}

pub Reach-trans : {s t u : Shutdown} → Reach s t → Reach t u → Reach s u
Reach-trans r here = r
Reach-trans r (next r' st) = next (Reach-trans r r') st

-- The read worker ends, and leaves the rest as it is.
pub record ReaderEnds (s : Shutdown) : Type 0 where
  pub after : Shutdown
  pub reached : Reach s after
  pub joined : after.reader ≡ ReadWorker.ended
  pub same_main : after.main ≡ s.main
  pub same_writer : after.writer ≡ s.writer
  pub same_queue : after.out_queue ≡ s.out_queue

-- A read that fails behind whatever came before.
from_reading : (s : Shutdown) (acc : List ℕ) → s.reader ≡ reading acc → ReaderEnds s
from_reading s acc e = record {
  after = record s { reader = ReadWorker.ended };
  reached = next here (read_fails e);
  joined = refl;
  same_main = refl;
  same_writer = refl;
  same_queue = refl;
}

-- A step of the read worker in front.
step_first :
    {s : Shutdown} (r : ReadWorker) (room : ℕ)
    → Reach s (record s { reader = r; in_room = room })
    → ReaderEnds (record s { reader = r; in_room = room })
    → ReaderEnds s
step_first r room path ends = record {
  after = ends.after;
  reached = Reach-trans path ends.reached;
  joined = ends.joined;
  same_main = ends.same_main;
  same_writer = ends.same_writer;
  same_queue = ends.same_queue;
}

-- A packet that there is room for is sent.
from_sending :
    (room : ℕ) (s : Shutdown) (p : OrdPacket) (rest : List ℕ)
    → s.reader ≡ sending p rest
    → s.in_room ≡ room
    → suc (packets_in rest) ≤ room
    → ((n : ℕ)
        → packets_in rest ≤ n
        → ReaderEnds (record s { reader = scanning rest; in_room = n }))
    → ReaderEnds s
from_sending zero s p rest e f h more = absurd (omega (arith, h))
from_sending (suc n) s p rest e f h more =
    step_first (scanning rest) n (next here (send e f)) (more n (omega (arith, h)))

-- The `while` loop ends, and the read behind it fails, where the channel takes all of the packets.
from_scanning :
    (fuel room : ℕ) (s : Shutdown) (acc : List ℕ)
    → length acc < fuel
    → s.reader ≡ scanning acc
    → s.in_room ≡ room
    → packets_in acc ≤ room
    → ReaderEnds s
from_scanning zero room s acc l e f h = absurd (omega (arith, l))
from_scanning (suc fuel) room s acc l e f h = elim (round_of acc) [
  | stops x ↦
      step_first (reading acc) s.in_room (next here (scanned e x))
        (from_reading (record s { reader = reading acc }) acc refl)
  | skips rest x ↦ step_first (scanning rest) s.in_room (next here (remove e x)) (
      from_scanning fuel room (record s { reader = scanning rest }) rest
        (omega (arith, l, skip-length acc rest x)) refl f
        (omega (arith, h, packets_in-skip acc rest x)))
  | emits (err y) rest x ↦ step_first (scanning rest) s.in_room (next here (discard e x)) (
      from_scanning fuel room (record s { reader = scanning rest }) rest
        (omega (arith, l, emit-length acc rest (err y) x)) refl f
        (omega (arith, h, packets_in-emit acc rest (err y) x)))
  | emits (ok p) rest x ↦ step_first (sending p rest) s.in_room (next here (decode e x)) (
      from_sending room (record s { reader = sending p rest }) p rest refl f
        (omega (arith, h, packets_in-emit acc rest (ok p) x))
        (λ n le.
          from_scanning fuel n (record s { reader = scanning rest; in_room = n }) rest
            (omega (arith, l, emit-length acc rest (ok p) x)) refl refl le))
]

pub reader_ends :
    (s : Shutdown) (r : ReadWorker) (room : ℕ)
    → s.reader ≡ r
    → s.in_room ≡ room
    → backlog r ≤ room
    → ReaderEnds s
reader_ends s (reading acc) room e f h = from_reading s acc e
reader_ends s (scanning acc) room e f h =
    from_scanning (suc (length acc)) room s acc (omega arith) e f h
reader_ends s (sending p rest) room e f h = from_sending room s p rest e f h (λ n le.
    from_scanning (suc (length rest)) n (record s { reader = scanning rest; in_room = n }) rest
      (omega arith) refl refl le)
reader_ends s ReadWorker.ended room e f h = record {
  after = s;
  reached = here;
  joined = e;
  same_main = refl;
  same_writer = refl;
  same_queue = refl;
}

pub record WriterEnds (s : Shutdown) : Type 0 where
  pub after : Shutdown
  pub reached : Reach s after
  pub joined : after.writer ≡ WriteWorker.ended
  pub same_main : after.main ≡ s.main

pub writer_ends :
    (s : Shutdown) (w : WriteWorker) (queue : ℕ)
    → s.writer ≡ w
    → s.out_queue ≡ queue
    → (w ≡ receiving → queue ≢ 0)
    → WriterEnds s
writer_ends s receiving zero e f h = absurd (h refl refl)
writer_ends s receiving (suc n) e f h = record {
  after = record s { writer = WriteWorker.ended; out_queue = n };
  reached = next (next here (take e f)) (write_fails refl);
  joined = refl;
  same_main = refl;
}
writer_ends s writing queue e f h = record {
  after = record s { writer = WriteWorker.ended };
  reached = next here (write_fails e);
  joined = refl;
  same_main = refl;
}
writer_ends s WriteWorker.ended queue e f h = record {
  after = s;
  reached = here;
  joined = e;
  same_main = refl;
}
