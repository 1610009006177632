-- ===== src/Session/Reader/Chunks.antt =====
-- The USB read worker of host/src/session/mod.rs sees the bytes of the accessory as one stream: how
-- the transfers cut it does not matter.
use ord.Prelude.{
  ℕ, suc, ◌≡◌, refl, sym, ap, subst, ◌∙◌, List, [], ◌∷◌, ◌++◌, Option, none, some, arith, length,
  All,
}
use ord.Prelude.{append_assoc, append-nil}
use ord.Protocol.Packet.{OrdPacket}
use ord.Session.Reader.{
  stop, round, Worker, Status, running, returned, UsbRead, arrived, ended, extend, read_worker,
}
use ord.Session.Reader.Runs.{
  Runs, Runs-stops, halt, append_to, Runs-while_header, Runs-total, Runs-append_running,
  Runs-append_returned,
}

-- Reads that bring bytes.
abbrev pub Brings : UsbRead → Type 0
Brings (arrived (b ∷ bs)) = Unit
Brings (arrived []) = ⊥
Brings ended = ⊥

abbrev pub bytes_of : List UsbRead → List ℕ
bytes_of [] = []
bytes_of (arrived bs ∷ reads) = bs ++ bytes_of reads
bytes_of (ended ∷ reads) = bytes_of reads

-- The packets that the session has got.
abbrev pub packets_of : Option Status → Option (List OrdPacket)
packets_of none = none
packets_of (some (running w)) = some w.delivered
packets_of (some (returned w)) = some w.delivered

-- The loop runs to its end after every read: the fuel is enough.
pub extend_total :
    (w : Worker) (bytes : List ℕ)
    → (s : Status) × (extend w bytes ≡ some s) × Runs (append_to w bytes) s
unfolding extend
extend_total w bytes =
    let fuel = suc (length (w.accumulator ++ bytes)) in
    let (s, r) = Runs-total fuel (append_to w bytes) (omega arith) in
    (s, Runs-while_header fuel r (omega arith), r)

pub Runs-extend :
    (w : Worker) (bytes : List ℕ) (s : Status)
    → Runs (append_to w bytes) s
    → extend w bytes ≡ some s
unfolding extend
Runs-extend w bytes s r = Runs-while_header _ r (omega arith)

-- The status that `extend` gives is the one that its loop runs to.
pub extend-Runs :
    (w : Worker) (bytes : List ℕ) {s : Status}
    → extend w bytes ≡ some s
    → Runs (append_to w bytes) s
extend-Runs w bytes {s} h =
    let (t, e, r) = extend_total w bytes in
    subst (λ u. Runs (append_to w bytes) u) (ap (status_or t) (sym e ∙ h)) r
  where
    status_or : Status → Option Status → Status
    status_or d none = d
    status_or d (some t) = t

append_to-append :
    (w : Worker) (xs ys : List ℕ) → append_to (append_to w xs) ys ≡ append_to w (xs ++ ys)
append_to-append w xs ys = ap (λ a. record w { accumulator = a }) (append_assoc w.accumulator xs ys)

-- Two reads on which the worker goes on are one read of both.
pub extend-append_running :
    (w w' : Worker) (xs ys : List ℕ)
    → extend w xs ≡ some (running w')
    → extend w (xs ++ ys) ≡ extend w' ys
extend-append_running w w' xs ys h =
    let (s, e, r) = extend_total w' ys in
    let both = Runs-append_running {w' = w'} ys (extend-Runs w xs h) refl r in
    Runs-extend w (xs ++ ys) s (subst (λ v. Runs v s) (append_to-append w xs ys) both) ∙ sym e

pub extend-append_returned :
    (w w' : Worker) (xs ys : List ℕ)
    → extend w xs ≡ some (returned w')
    → extend w (xs ++ ys) ≡ some (returned (append_to w' ys))
extend-append_returned w w' xs ys h =
    let both = Runs-append_returned {w' = w'} ys (extend-Runs w xs h) refl in
    Runs-extend w (xs ++ ys) _
      (subst (λ v. Runs v (returned (append_to w' ys))) (append_to-append w xs ys) both)

-- Where the worker goes on, its loop has stopped at bytes that it cannot use yet.
extend-stops :
    (w w' : Worker) (bytes : List ℕ)
    → extend w bytes ≡ some (running w')
    → round w'.accumulator ≡ stop
extend-stops w w' bytes h = Runs-stops (extend-Runs w bytes h) refl

extend-nil : (w : Worker) → round w.accumulator ≡ stop → packets_of (extend w []) ≡ some w.delivered
extend-nil w h = ap packets_of (Runs-extend w [] _ (halt (ap round (append-nil w.accumulator) ∙ h)))

-- However the transfers cut the bytes, garbage included, the session gets the packets that one
-- transfer of all of them would have given it.
pub read_worker-stream :
    (w : Worker) (reads : List UsbRead)
    → round w.accumulator ≡ stop
    → All Brings reads
    → packets_of (read_worker w reads) ≡ packets_of (extend w (bytes_of reads))
unfolding read_worker
read_worker-stream w [] h br = sym (extend-nil w h)
read_worker-stream w (ended ∷ reads) h br = elim br.0 [ ]
read_worker-stream w (arrived [] ∷ reads) h br = elim br.0 [ ]
read_worker-stream w (arrived (b ∷ bs) ∷ reads) h br =
    let (s, e, r) = extend_total w (b ∷ bs) in
    after (λ w' k. read_worker-stream w' reads k br.1) s e
  where
    after :
        ((w' : Worker)
          → round w'.accumulator ≡ stop
          → packets_of (read_worker w' reads) ≡ packets_of (extend w' (bytes_of reads)))
        → (s : Status) → extend w (b ∷ bs) ≡ some s
        → packets_of (read_worker w (arrived (b ∷ bs) ∷ reads))
          ≡ packets_of (extend w (b ∷ bs ++ bytes_of reads))
    after ih (running w') e =
        rw (e, read_worker)
          (ih w' (extend-stops w w' (b ∷ bs) e)
            ∙ sym (ap packets_of (extend-append_running w w' (b ∷ bs) (bytes_of reads) e)))
    after ih (returned w') e =
        rw (e, read_worker)
          (sym (ap packets_of (extend-append_returned w w' (b ∷ bs) (bytes_of reads) e)))
