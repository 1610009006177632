-- ===== src/Transport/Tcp/Waiting.antt =====
-- Calls of `read_packet` of host/src/transport/tcp.rs that wait or fail: the session's `select!`
-- drops a waiting call and makes a new one.
use ord.Prelude.{ℕ, ◌⊎◌, inl, inr, ◌≡◌, refl, ap, List, [], ◌∷◌, ◌++◌, err, arith}
use ord.Protocol.Packet.{PacketError}
use ord.Transport.Tcp.Sink.{StreamError, packet}
use ord.Transport.Tcp.{
  Next, incomplete, invalid, complete, next_packet, Read, received, failed, Outcome, returned,
  waiting, on_next, read_packet,
}

abbrev kept_of : Outcome → List ℕ
kept_of (waiting b) = b
kept_of (returned r buf reads) = buf

on_next_waits :
    (n : Next) (buf : List ℕ) (reads : List Read) (more : Outcome) {b : List ℕ}
    → on_next n buf reads more ≡ waiting b
    → (n ≡ incomplete) × (more ≡ waiting b)
on_next_waits incomplete buf reads more h = (refl, h)
on_next_waits (invalid x) buf reads more h = cc
on_next_waits (complete p rest) buf reads more h = cc

-- A call that waits can be dropped: a new call on the buffer that it left sees the later reads as
-- the dropped call would have seen them.
pub read_packet_resumed :
    (buf kept : List ℕ) (reads later : List Read)
    → read_packet buf reads ≡ waiting kept
    → read_packet buf (reads ++ later) ≡ read_packet kept later
unfolding read_packet
read_packet_resumed buf kept [] later h =
    let (_, same) = on_next_waits (next_packet buf) buf [] (waiting buf) h in
    ap (λ b. read_packet b later) (ap kept_of same)
read_packet_resumed buf kept (failed ∷ reads) later h = cc (
    (on_next_waits (next_packet buf) buf (failed ∷ reads) (returned (err StreamError.io) buf reads)
      h).1)
read_packet_resumed buf kept (received [] ∷ reads) later h = cc (
    (on_next_waits (next_packet buf) buf (received [] ∷ reads)
      (returned (err StreamError.closed) buf reads) h).1)
read_packet_resumed buf kept (received (b ∷ bs) ∷ reads) later h =
    let (waits, more) = on_next_waits (next_packet buf) buf (received (b ∷ bs) ∷ reads) _ h in
    rw waits (read_packet_resumed (buf ++ b ∷ bs) kept reads later more)

on_next_fails :
    (n : Next) (buf left : List ℕ) (reads rest : List Read) (more : Outcome) (x : PacketError)
    → on_next n buf reads more ≡ returned (err (packet x)) left rest
    → ((n ≡ invalid x) × (buf ≡ left)) ⊎ (more ≡ returned (err (packet x)) left rest)
on_next_fails incomplete buf left reads rest more x h = inr h
on_next_fails (invalid y) buf left reads rest more x h = inl (ground arith)
on_next_fails (complete p r) buf left reads rest more x h = cc

-- A call fails on a bad header only with that header at the front of the buffer that it leaves.
bad_header_left :
    (buf left : List ℕ) (reads rest : List Read) (x : PacketError)
    → read_packet buf reads ≡ returned (err (packet x)) left rest
    → next_packet left ≡ invalid x
unfolding read_packet
bad_header_left buf left [] rest x h =
    elim (on_next_fails (next_packet buf) buf left [] rest _ x h) [
      | inl (bad, same) ↦ rw (← same) bad
      | inr other ↦ cc
    ]
bad_header_left buf left (failed ∷ reads) rest x h =
    elim (on_next_fails (next_packet buf) buf left _ rest _ x h) [
      | inl (bad, same) ↦ rw (← same) bad
      | inr other ↦ cc
    ]
bad_header_left buf left (received [] ∷ reads) rest x h =
    elim (on_next_fails (next_packet buf) buf left _ rest _ x h) [
      | inl (bad, same) ↦ rw (← same) bad
      | inr other ↦ cc
    ]
bad_header_left buf left (received (b ∷ bs) ∷ reads) rest x h =
    elim (on_next_fails (next_packet buf) buf left _ rest _ x h) [
      | inl (bad, same) ↦ rw (← same) bad
      | inr more ↦ bad_header_left (buf ++ b ∷ bs) left reads rest x more
    ]

-- A call that fails on a bad header leaves the header in the buffer: every later call fails in the
-- same way, whatever arrives.
pub read_packet_poisoned :
    (buf left : List ℕ) (reads rest later : List Read) (x : PacketError)
    → read_packet buf reads ≡ returned (err (packet x)) left rest
    → read_packet left later ≡ returned (err (packet x)) left later
unfolding read_packet
read_packet_poisoned buf left reads rest [] x h = rw (bad_header_left buf left reads rest x h)
read_packet_poisoned buf left reads rest (failed ∷ later) x h =
    rw (bad_header_left buf left reads rest x h)
read_packet_poisoned buf left reads rest (received [] ∷ later) x h =
    rw (bad_header_left buf left reads rest x h)
read_packet_poisoned buf left reads rest (received (b ∷ bs) ∷ later) x h =
    rw (bad_header_left buf left reads rest x h)
