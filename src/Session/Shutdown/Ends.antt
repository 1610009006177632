-- ===== src/Session/Shutdown/Ends.antt =====
-- When `handle_usb_client` of host/src/session/mod.rs returns behind its loop, and when it cannot.
use ord.Prelude.{
  ℕ, ◌≤◌, ◌<◌, ◌≡◌, ◌≢◌, ◌↔◌, refl, ap, true, ok, err, arith, ltb, ltb→lt, ltb→le, Bool-cases, inl,
  inr,
}
use ord.Session.Shutdown.{
  closing, awaiting_read, awaiting_write, finished, ReadWorker, scanning, sending, receiving,
  Shutdown, Step, close, receive, scanned, decode, discard, remove, send, read_fails, take, written,
  write_fails, read_joined, write_joined, Reach, here, next,
}
use ord.Session.Shutdown.Backlog.{backlog, packets_in-stop, packets_in-emit, packets_in-skip}
use ord.Session.Shutdown.Joining.{Reach-trans, reader_ends, writer_ends}

-- The write worker waits for a packet that nobody sends.
record IsStarved (s : Shutdown) : Type 0 where
  waits : s.writer ≡ receiving
  empty : s.out_queue ≡ 0
  open_ended : s.main ≢ finished

Step-IsStarved : {s t : Shutdown} → Step s t → IsStarved s → IsStarved t
Step-IsStarved (close m) h = ground (arith, m, h)
Step-IsStarved (receive b bs r) h = ground (arith, r, h)
Step-IsStarved (scanned r e) h = ground (arith, r, h)
Step-IsStarved (decode r e) h = ground (arith, r, h)
Step-IsStarved (discard r e) h = ground (arith, r, h)
Step-IsStarved (remove r e) h = ground (arith, r, h)
Step-IsStarved (send r q) h = ground (arith, r, q, h)
Step-IsStarved (read_fails r) h = ground (arith, r, h)
Step-IsStarved (take w q) h = ground (arith, w, q, h)
Step-IsStarved (written w) h = ground (arith, w, h)
Step-IsStarved (write_fails w) h = ground (arith, w, h)
Step-IsStarved (read_joined m r) h = ground (arith, m, r, h)
Step-IsStarved (write_joined m w) h = ground (arith, m, w, h)

Reach-IsStarved : {s t : Shutdown} → Reach s t → IsStarved s → IsStarved t
Reach-IsStarved here h = h
Reach-IsStarved (next r st) h = Step-IsStarved st (Reach-IsStarved r h)

-- The read worker has more packets to send than the channel takes.
record IsStuck (s : Shutdown) : Type 0 where
  full : s.in_room < backlog s.reader
  not_joined : s.main ≢ awaiting_write
  open_ended : s.main ≢ finished

-- It stays so as long as the main task does, and no packet gets lost from the backlog.
stay-IsStuck :
    {s : Shutdown} (r : ReadWorker) (room : ℕ)
    → IsStuck s
    → room < backlog r
    → IsStuck (record s { reader = r; in_room = room })
stay-IsStuck r room h full = record {
  full = full;
  not_joined = h.not_joined;
  open_ended = h.open_ended;
}

Step-IsStuck : {s t : Shutdown} → Step s t → IsStuck s → IsStuck t
Step-IsStuck (close m) h = ground (arith, m, h)
Step-IsStuck (receive b bs r) h = absurd (omega (arith, h.full, ap backlog r))
Step-IsStuck (scanned {acc = acc} r e) h =
    absurd (omega (arith, h.full, ap backlog r, packets_in-stop acc e))
Step-IsStuck {s} (decode {acc = acc} {rest} {p} r e) h =
    stay-IsStuck (sending p rest) s.in_room h
      (omega (arith, h.full, ap backlog r, packets_in-emit acc rest (ok p) e))
Step-IsStuck {s} (discard {acc = acc} {rest} {e = x} r e) h =
    stay-IsStuck (scanning rest) s.in_room h
      (omega (arith, h.full, ap backlog r, packets_in-emit acc rest (err x) e))
Step-IsStuck {s} (remove {acc = acc} {rest} r e) h =
    stay-IsStuck (scanning rest) s.in_room h
      (omega (arith, h.full, ap backlog r, packets_in-skip acc rest e))
Step-IsStuck (send {n = n} {rest} r q) h =
    stay-IsStuck (scanning rest) n h (omega (arith, h.full, ap backlog r, q))
Step-IsStuck (read_fails r) h = absurd (omega (arith, h.full, ap backlog r))
Step-IsStuck (take w q) h = ground (arith, w, q, h)
Step-IsStuck (written w) h = ground (arith, w, h)
Step-IsStuck (write_fails w) h = ground (arith, w, h)
Step-IsStuck (read_joined m r) h = absurd (omega (arith, h.full, ap backlog r))
Step-IsStuck (write_joined m w) h = ground (arith, m, w, h)

Reach-IsStuck : {s t : Shutdown} → Reach s t → IsStuck s → IsStuck t
Reach-IsStuck here h = h
Reach-IsStuck (next r st) h = Step-IsStuck st (Reach-IsStuck r h)

-- `handle_usb_client` can return behind its loop exactly when the packets that the read worker has to
-- send before its next read fit into the channel, and the write worker does not wait on an empty one:
-- nobody empties the one or fills the other any more. So after a loop that has sent all its packets it
-- never returns, whatever the accessory does.
pub shutdown_ends :
    (s : Shutdown)
    → s.main ≡ closing
    → ((t : Shutdown) × Reach s t × (t.main ≡ finished))
      ↔ ((backlog s.reader ≤ s.in_room) × (¬ ((s.writer ≡ receiving) × (s.out_queue ≡ 0))))
shutdown_ends s m = (
  λ (t, r, f). (
    elim (Bool-cases (ltb s.in_room (backlog s.reader))) [
      | inr fits ↦ ltb→le _ _ fits
      | inl full ↦ absurd (
          (Reach-IsStuck r (record {
            full = ltb→lt _ _ full;
            not_joined = ground (arith, m);
            open_ended = ground (arith, m);
          })).open_ended
            f)
    ],
    (λ (e, z).
        (Reach-IsStarved r
            (record { waits = e; empty = z; open_ended = ground (arith, m) })).open_ended
          f),
  ),
  λ (hr, hw).
      let closed : Shutdown = record s { main = awaiting_read; is_closed = true } in
      let a = reader_ends closed s.reader s.in_room refl refl hr in
      let joined : Shutdown = record a.after { main = awaiting_write } in
      let b =
        writer_ends joined s.writer s.out_queue a.same_writer a.same_queue (λ e z. hw (e, z)) in
      (
        record b.after { main = finished },
        next
            (Reach-trans
              (next (Reach-trans (next here (close m)) a.reached)
                (read_joined a.same_main a.joined))
              b.reached)
            (write_joined b.same_main b.joined),
        refl,
      ),
)
