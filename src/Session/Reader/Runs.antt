-- ===== src/Session/Reader/Runs.antt =====
-- The loop over the accumulator of the USB read worker (host/src/session/mod.rs), as a relation, and
-- the fuel that its function needs.
use ord.Prelude.{
  ℕ, zero, suc, ◌<◌, ◌≡◌, refl, sym, subst, ap, ◌∙◌, List, ◌++◌, some, ok, err, arith, length,
  Result,
}
use ord.Protocol.Packet.{OrdPacket, PacketError}
use ord.Session.Reader.{
  Round, stop, emit, skip, round, Worker, Status, running, returned, deliver, while_header,
}
use ord.Session.Reader.Scanning.{emit-length, skip-length, emit-append, skip-append}

pub data RoundOf (acc : List ℕ) : Type 0 where
  stops : round acc ≡ stop → RoundOf acc
  emits : (r : Result PacketError OrdPacket) (rest : List ℕ) → round acc ≡ emit r rest → RoundOf acc
  skips : (rest : List ℕ) → round acc ≡ skip rest → RoundOf acc

pub round_of : (acc : List ℕ) → RoundOf acc
round_of acc = go (round acc) refl
  where
    go : (x : Round) → round acc ≡ x → RoundOf acc
    go stop e = stops e
    go (emit r rest) e = emits r rest e
    go (skip rest) e = skips rest e

-- The worker after a delivery: it goes on, unless the channel is closed.
pub data Runs : Worker → Status → Type 0 where
  halt : {w : Worker} → round w.accumulator ≡ stop → Runs w (running w)
  skipped :
      {w : Worker} {s : Status} (rest : List ℕ)
      → round w.accumulator ≡ skip rest
      → Runs (record w { accumulator = rest }) s
      → Runs w s
  delivered :
      {w : Worker} {s : Status} (r : Result PacketError OrdPacket) (rest : List ℕ) (w' : Worker)
      → round w.accumulator ≡ emit r rest
      → deliver r rest w.delivered w.accepts ≡ running w'
      → Runs w' s
      → Runs w s
  closed :
      {w : Worker} (r : Result PacketError OrdPacket) (rest : List ℕ) (w' : Worker)
      → round w.accumulator ≡ emit r rest
      → deliver r rest w.delivered w.accepts ≡ returned w'
      → Runs w (returned w')

accumulator-deliver :
    (r : Result PacketError OrdPacket) (rest : List ℕ) (d : List OrdPacket) (n : ℕ) {w' : Worker}
    → deliver r rest d n ≡ running w'
    → w'.accumulator ≡ rest
accumulator-deliver (ok p) rest d zero h = cc
accumulator-deliver (ok p) rest d (suc n) h = ground arith
accumulator-deliver (err x) rest d n h = ground arith

-- The function computes what the relation says, if its fuel is more than the bytes.
pub Runs-while_header :
    {w : Worker} {s : Status} (fuel : ℕ)
    → Runs w s
    → length w.accumulator < fuel
    → while_header fuel w ≡ some s
unfolding while_header
Runs-while_header zero r h = elim h [ ]
Runs-while_header (suc fuel) (halt e) h = rw (e, while_header)
Runs-while_header {w} (suc fuel) (skipped rest e r) h =
    rw (e, while_header)
      (Runs-while_header fuel r (omega (arith, skip-length w.accumulator rest e)))
Runs-while_header {w} (suc fuel) (delivered x rest w' e d r) h =
    rw (e, while_header, d)
      (Runs-while_header fuel r (
        omega (
          arith,
          ap length (accumulator-deliver x rest w.delivered w.accepts d),
          emit-length w.accumulator rest x e,
        )))
Runs-while_header (suc fuel) (closed x rest w' e d) h = rw (e, while_header, d)

pub data Delivery (r : Result PacketError OrdPacket) (rest : List ℕ) (d : List OrdPacket) (n : ℕ)
    : Type 0 where
  goes_on : (w' : Worker) → deliver r rest d n ≡ running w' → Delivery r rest d n
  ends : (w' : Worker) → deliver r rest d n ≡ returned w' → Delivery r rest d n

pub delivery :
    (r : Result PacketError OrdPacket) (rest : List ℕ) (d : List OrdPacket) (n : ℕ)
    → Delivery r rest d n
delivery (ok p) rest d zero = ends _ refl
delivery (ok p) rest d (suc n) = goes_on _ refl
delivery (err x) rest d n = goes_on _ refl

-- The loop ends from every state.
pub Runs-total : (fuel : ℕ) (w : Worker) → length w.accumulator < fuel → (s : Status) × Runs w s
Runs-total zero w h = elim h [ ]
Runs-total (suc fuel) w h = elim (round_of w.accumulator) [
  | stops e ↦ (running w, halt e)
  | skips rest e ↦
      let (s, r) =
        Runs-total fuel (record w { accumulator = rest })
          (omega (arith, skip-length w.accumulator rest e)) in
      (s, skipped rest e r)
  | emits x rest e ↦ elim (delivery x rest w.delivered w.accepts) [
    | goes_on w' d ↦
        let (s, r) = Runs-total fuel w' (
          omega (
            arith,
            ap length (accumulator-deliver x rest w.delivered w.accepts d),
            emit-length w.accumulator rest x e,
          )) in
        (s, delivered x rest w' e d r)
    | ends w' d ↦ (returned w', closed x rest w' e d)
  ]
]

abbrev pub append_to : Worker → List ℕ → Worker
append_to w more = record w { accumulator = w.accumulator ++ more }

deliver-append_running :
    (r : Result PacketError OrdPacket) (rest more : List ℕ) (d : List OrdPacket) (n : ℕ)
    {w' : Worker}
    → deliver r rest d n ≡ running w'
    → deliver r (rest ++ more) d n ≡ running (append_to w' more)
deliver-append_running (ok p) rest more d zero h = cc
deliver-append_running (ok p) rest more d (suc n) h = ground arith
deliver-append_running (err x) rest more d n h = ground arith

deliver-append_returned :
    (r : Result PacketError OrdPacket) (rest more : List ℕ) (d : List OrdPacket) (n : ℕ)
    {w' : Worker}
    → deliver r rest d n ≡ returned w'
    → deliver r (rest ++ more) d n ≡ returned (append_to w' more)
deliver-append_returned (ok p) rest more d zero h = ground arith
deliver-append_returned (ok p) rest more d (suc n) h = cc
deliver-append_returned (err x) rest more d n h = cc

abbrev worker_of : Status → Worker
worker_of (running w) = w
worker_of (returned w) = w

-- A loop that stops after some bytes goes on from there when more bytes come.
pub Runs-append_running :
    {w w' : Worker} {t s : Status} (more : List ℕ)
    → Runs w t
    → t ≡ running w'
    → Runs (append_to w' more) s
    → Runs (append_to w more) s
Runs-append_running {w' = w'} {s = s} more (halt e) h k =
    subst (λ v. Runs (append_to v more) s) (sym (ap worker_of h)) k
Runs-append_running {w} more (skipped rest e r) h k =
    skipped (rest ++ more) (skip-append w.accumulator rest more e) (Runs-append_running more r h k)
Runs-append_running {w} more (delivered x rest v e d r) h k =
    delivered x (rest ++ more) (append_to v more) (emit-append w.accumulator rest more x e)
      (deliver-append_running x rest more w.delivered w.accepts d) (Runs-append_running more r h k)
Runs-append_running more (closed x rest v e d) h k = absurd (cc h)

-- A loop that ends at a closed channel ends there with more bytes too.
pub Runs-append_returned :
    {w w' : Worker} {t : Status} (more : List ℕ)
    → Runs w t
    → t ≡ returned w'
    → Runs (append_to w more) (returned (append_to w' more))
Runs-append_returned more (halt e) h = absurd (cc h)
Runs-append_returned {w} more (skipped rest e r) h =
    skipped (rest ++ more) (skip-append w.accumulator rest more e) (Runs-append_returned more r h)
Runs-append_returned {w} more (delivered x rest v e d r) h =
    delivered x (rest ++ more) (append_to v more) (emit-append w.accumulator rest more x e)
      (deliver-append_running x rest more w.delivered w.accepts d) (Runs-append_returned more r h)
Runs-append_returned {w} {w'} more (closed x rest v e d) h =
    subst (λ u. Runs (append_to w more) (returned (append_to u more))) (ap worker_of h)
      (closed x (rest ++ more) (append_to v more) (emit-append w.accumulator rest more x e)
        (deliver-append_returned x rest more w.delivered w.accepts d))

pub Runs-stops :
    {w w' : Worker} {t : Status} → Runs w t → t ≡ running w' → round w'.accumulator ≡ stop
Runs-stops (halt e) h = sym (ap (λ s. round (worker_of s).accumulator) h) ∙ e
Runs-stops (skipped rest e r) h = Runs-stops r h
Runs-stops (delivered x rest v e d r) h = Runs-stops r h
Runs-stops (closed x rest v e d) h = absurd (cc h)
