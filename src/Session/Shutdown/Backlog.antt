-- ===== src/Session/Shutdown/Backlog.antt =====
-- The packets that the read worker of `handle_usb_client` (host/src/session/mod.rs) has to send before
-- it reads the accessory again.
use ord.Prelude.{ℕ, zero, suc, ◌+◌, ◌<◌, ◌≡◌, refl, ap, List, Result, ok, err, length, arith}
use ord.Protocol.Packet.{OrdPacket, PacketError}
use ord.Session.Reader.{Round, round, stop, emit, skip}
use ord.Session.Reader.Scanning.{emit-length, skip-length}
use ord.Session.Reader.Runs.{stops, emits, skips, round_of}
use ord.Session.Shutdown.{ReadWorker, reading, scanning, sending}

abbrev pub one_if : Result PacketError OrdPacket → ℕ
one_if (ok p) = 1
one_if (err e) = 0

-- What a round adds to the packets in the bytes that it leaves.
abbrev count_round : Round → (List ℕ → ℕ) → ℕ
count_round stop more = 0
count_round (emit r rest) more = one_if r + more rest
count_round (skip rest) more = more rest

-- The packets that decode in an accumulator, over rounds.
abbrev count : ℕ → List ℕ → ℕ
count zero acc = 0
count (suc fuel) acc = count_round (round acc) (count fuel)

-- A round takes a byte at least, so one more than the bytes is enough.
count_enough :
    (f g : ℕ) (acc : List ℕ) → length acc < f → length acc < g → count f acc ≡ count g acc
count_enough zero g acc lf lg = absurd (omega (arith, lf))
count_enough (suc f) zero acc lf lg = absurd (omega (arith, lg))
count_enough (suc f) (suc g) acc lf lg = elim (round_of acc) [
  | stops e ↦ rw e refl
  | emits r rest e ↦
      let l = emit-length acc rest r e in
      rw e (
        ap (λ n. one_if r + n)
          (count_enough f g rest (omega (arith, l, lf)) (omega (arith, l, lg))))
  | skips rest e ↦
      let l = skip-length acc rest e in
      rw e (count_enough f g rest (omega (arith, l, lf)) (omega (arith, l, lg)))
]

unfoldable pub packets_in : List ℕ → ℕ
packets_in acc = count (suc (length acc)) acc

abbrev pub backlog : ReadWorker → ℕ
backlog (reading acc) = 0
backlog (scanning acc) = packets_in acc
backlog (sending p rest) = suc (packets_in rest)
backlog ReadWorker.ended = 0

pub packets_in-stop : (acc : List ℕ) → round acc ≡ stop → packets_in acc ≡ 0
unfolding packets_in
packets_in-stop acc e = rw e refl

pub packets_in-emit :
    (acc rest : List ℕ) (r : Result PacketError OrdPacket)
    → round acc ≡ emit r rest
    → packets_in acc ≡ one_if r + packets_in rest
unfolding packets_in
packets_in-emit acc rest r e = rw e (
    ap (λ n. one_if r + n)
      (count_enough (length acc) (suc (length rest)) rest (emit-length acc rest r e) (omega arith)))

pub packets_in-skip : (acc rest : List ℕ) → round acc ≡ skip rest → packets_in acc ≡ packets_in rest
unfolding packets_in
packets_in-skip acc rest e =
    rw e (count_enough (length acc) (suc (length rest)) rest (skip-length acc rest e) (omega arith))
