-- ===== src/Session/Reader/Resync.antt =====
-- What the USB read worker of host/src/session/mod.rs finds in a stream: the encodings of packets,
-- and it finds its way back to them behind bytes that are no packet.
use mathlib.Core.Path.{subst₂}
use ord.Prelude.{
  ℕ, drop, All-drop, All-append_right, zero, suc, ◌≤◌, ◌≡◌, refl, sym, ap, subst, ◌∙◌, List, [],
  ◌∷◌, ◌++◌, Option, some, ok, err, arith, length, All, Result,
}
use ord.Prelude.{append_assoc, append-nil}
use ord.Bytes.{IsByte, IsBytes}
use ord.Protocol.Packet.{OrdPacket, PacketError, encode_packet}
use ord.Protocol.Packet.Framing.{IsValid}
use ord.Session.Reader.{round, Worker, Status, running, returned, deliver, UsbRead, read_worker}
use ord.Session.Reader.Scanning.{emit-canonical, round-Skips}
use ord.Session.Reader.Runs.{Runs, halt, skipped, delivered, closed, append_to}
use ord.Session.Reader.Chunks.{Brings, bytes_of, packets_of, extend_total, read_worker-stream}

-- The stream holds the encodings of the packets, in this order, with other bytes between them, and
-- ends with what is left.
pub data Found (left : List ℕ) : List OrdPacket → List ℕ → Type 0 where
  rest : Found left [] left
  junk :
      {ps : List OrdPacket} {stream : List ℕ} (b : ℕ)
      → Found left ps stream
      → Found left ps (b ∷ stream)
  found :
      {ps : List OrdPacket} {stream : List ℕ} (p : OrdPacket)
      → IsValid p
      → Found left ps stream
      → Found left (p ∷ ps) (encode_packet p ++ stream)

abbrev pub worker_of : Status → Worker
worker_of (running w) = w
worker_of (returned w) = w

pub record Finds (before after : List OrdPacket) (stream : List ℕ) : Type 0 where
  pub packets : List OrdPacket
  pub left : List ℕ
  pub passed_on : after ≡ before ++ packets
  pub found : Found left packets stream

packets_of-some : (s : Status) → packets_of (some s) ≡ some (worker_of s).delivered
packets_of-some (running w) = refl
packets_of-some (returned w) = refl

Finds-nothing : (d : List OrdPacket) (stream : List ℕ) → Finds d d stream
Finds-nothing d stream = record {
  packets = [];
  left = stream;
  passed_on = sym (append-nil d);
  found = rest;
}

uncons : (acc : List ℕ) → 16 ≤ length acc → (b : ℕ) × (acc ≡ b ∷ drop 1 acc)
uncons [] h = absurd (omega arith)
uncons (b ∷ acc) h = (b, refl)

deliver-running :
    (p : OrdPacket) (x : Result PacketError OrdPacket) (r : List ℕ) (d : List OrdPacket) (n : ℕ)
    {v : Worker}
    → x ≡ ok p
    → deliver x r d n ≡ running v
    → (v.accumulator ≡ r) × (v.delivered ≡ d ++ p ∷ [])
deliver-running p (ok q) r d zero e h = cc
deliver-running p (ok q) r d (suc n) e h = ground arith
deliver-running p (err x) r d n e h = cc

deliver-returned :
    (x : Result PacketError OrdPacket) (r : List ℕ) (d : List OrdPacket) (n : ℕ) {v : Worker}
    → deliver x r d n ≡ returned v
    → v.delivered ≡ d
deliver-returned (ok q) r d zero h = ground arith
deliver-returned (ok q) r d (suc n) h = cc
deliver-returned (err x) r d n h = cc

Finds-junk :
    {d after : List OrdPacket} {stream : List ℕ} (b : ℕ)
    → Finds d after stream
    → Finds d after (b ∷ stream)
Finds-junk b f = record {
  packets = f.packets;
  left = f.left;
  passed_on = f.passed_on;
  found = junk b f.found;
}

Finds-found :
    (d : List OrdPacket) {after : List OrdPacket} {stream : List ℕ} (p : OrdPacket)
    → IsValid p
    → Finds (d ++ p ∷ []) after stream
    → Finds d after (encode_packet p ++ stream)
Finds-found d p v f = record {
  packets = p ∷ f.packets;
  left = f.left;
  passed_on = f.passed_on ∙ append_assoc d (p ∷ []) f.packets;
  found = found p v f.found;
}

pub Runs-Finds :
    {w : Worker} {s : Status}
    → IsBytes w.accumulator
    → Runs w s
    → Finds w.delivered (worker_of s).delivered w.accumulator
Runs-Finds {w} hb (halt e) = Finds-nothing w.delivered w.accumulator
Runs-Finds {w} {s} hb (skipped r e run) =
    let seen = round-Skips w.accumulator r e in
    let (b, whole) = uncons w.accumulator seen.long in
    let hr : IsBytes r = subst IsBytes (sym seen.left) (All-drop IsByte 1 w.accumulator hb) in
    subst (Finds w.delivered (worker_of s).delivered)
      (sym (whole ∙ ap (λ t. b ∷ t) (sym seen.left))) (Finds-junk b (Runs-Finds hr run))
Runs-Finds {w} {s} hb (delivered x r v e d run) =
    let (p, is_p, valid, whole) = emit-canonical w.accumulator r x hb e in
    let (same, more) = deliver-running p x r w.delivered w.accepts is_p d in
    let hv : IsBytes v.accumulator =
      subst IsBytes (sym same)
        (All-append_right IsByte (encode_packet p) r (subst IsBytes whole hb)) in
    let f : Finds v.delivered (worker_of s).delivered v.accumulator = Runs-Finds hv run in
    subst (Finds w.delivered (worker_of s).delivered) (sym whole) (
      Finds-found w.delivered p valid
        (subst₂ (λ a b. Finds a (worker_of s).delivered b) more same f))
Runs-Finds {w} hb (closed x r v e d) =
    subst (λ a. Finds w.delivered a w.accumulator)
      (sym (deliver-returned x r w.delivered w.accepts d)) (Finds-nothing w.delivered w.accumulator)

abbrev pub start : ℕ → Worker
start n = record { accumulator = []; delivered = []; accepts = n }

-- What the worker has passed on after some reads, and how it stands in the bytes of the reads.
pub record Sound (reads : List UsbRead) (o : Option Status) : Type 0 where
  pub packets : List OrdPacket
  pub left : List ℕ
  pub passed_on : packets_of o ≡ some packets
  pub found : Found left packets (bytes_of reads)

-- The worker ends every loop, and whatever the accessory sends, the packets that it has passed on
-- stand in the stream as encodings of valid packets, in this order.
pub read_worker-Sound :
    (n : ℕ) (reads : List UsbRead)
    → All Brings reads
    → IsBytes (bytes_of reads)
    → Sound reads (read_worker (start n) reads)
read_worker-Sound n reads br hb =
    let (s, e, run) = extend_total (start n) (bytes_of reads) in
    let f = Runs-Finds {w = append_to (start n) (bytes_of reads)} hb run in
    let stream = read_worker-stream (start n) reads (unfold round in refl) br in
    record {
      packets = f.packets;
      left = f.left;
      passed_on = stream ∙ ap packets_of e ∙ packets_of-some s ∙ ap some f.passed_on;
      found = f.found;
    }
