-- ===== src/Session/Wire/Delivery.antt =====
-- Which packets the loop of host/src/session/mod.rs gets off the wire.
use ord.Prelude.{
  ℕ, zero, suc, ◌≤◌, ◌≡◌, refl, sym, ap, subst, ◌∙◌, List, [], ◌∷◌, ◌++◌, All, ok, err, arith,
  length, append_assoc, append-nil, length-append, All-append, All-append_right,
}
use ord.Protocol.Packet.{OrdPacket, encode_packet}
use ord.Protocol.Packet.Framing.{IsValid, length-encode_packet}
use ord.Transport.Tcp.{Read, received, failed, Outcome, read_packet}
use ord.Transport.Tcp.Chunks.{bytes_of, Brings, IsFlowing, encode_packets}
use ord.Session.Loop.{F32, Event, frame, read}
use ord.Session.Wire.Polling.{Progress, got, blocked, read_packet-Progress, read_packet-empty}
use ord.Session.Wire.{
  Turn, arrives, frame_ready, poll_read, Wire, new_wire, wire_after, result_of, selected,
  wire_at_end,
}

bytes_of-append : (xs ys : List Read) → bytes_of (xs ++ ys) ≡ bytes_of xs ++ bytes_of ys
bytes_of-append [] ys = refl
bytes_of-append (received bs ∷ xs) ys =
    ap (λ t. bs ++ t) (bytes_of-append xs ys) ∙ sym (append_assoc bs (bytes_of xs) (bytes_of ys))
bytes_of-append (failed ∷ xs) ys = bytes_of-append xs ys

-- A read that reaches the socket is one less to come.
socket_moves :
    (socket : List Read) (r : Read) (to_come : List Read) (more : List ℕ)
    → bytes_of (socket ++ r ∷ []) ++ (bytes_of to_come ++ more)
      ≡ bytes_of socket ++ (bytes_of (r ∷ to_come) ++ more)
socket_moves socket r to_come more =
    ap (λ t. t ++ (bytes_of to_come ++ more)) (bytes_of-append socket (r ∷ []))
    ∙ append_assoc (bytes_of socket) (bytes_of (r ∷ [])) (bytes_of to_come ++ more)
    ∙ ap (λ t. bytes_of socket ++ t)
        (sym (append_assoc (bytes_of (r ∷ [])) (bytes_of to_come) more)
          ∙ ap (λ t. t ++ more) (sym (bytes_of-append (r ∷ []) to_come)))

module _ {f32 : F32} where
  abbrev pub packets_in : List (Event f32) → List OrdPacket
  packets_in [] = []
  packets_in (frame _ _ ∷ es) = packets_in es
  packets_in (read (ok p) ∷ es) = p ∷ packets_in es
  packets_in (read (err _) ∷ es) = packets_in es

  abbrev pub NoError : Event f32 → Type 0
  NoError (frame _ _) = Unit
  NoError (read (ok _)) = Unit
  NoError (read (err _)) = ⊥

  abbrev pub arrivals : List (Turn f32) → List Read
  arrivals [] = []
  arrivals (arrives r ∷ ts) = r ∷ arrivals ts
  arrivals (frame_ready _ _ ∷ ts) = arrivals ts
  arrivals (poll_read ∷ ts) = arrivals ts

  -- The packets among the events are the first of these, no read has failed, and the wire holds the
  -- beginning of the others.
  pub record Traced (ps : List OrdPacket) (more : List ℕ) (es : List (Event f32)) (w : Wire)
      : Type 0 where
    pub back : List OrdPacket
    pub split : packets_in es ++ back ≡ ps
    pub left : w.read_buf ++ (bytes_of w.socket ++ more) ≡ encode_packets back
    pub flows : IsFlowing w.socket
    pub fine : All NoError es

  module _ (more : List ℕ) (ts : List (Turn f32)) where
    -- What the rest of a run does, from every wire.
    abbrev Rest : Type 0
    Rest =
        (w : Wire) (ps : List OrdPacket)
        → All IsValid ps
        → IsFlowing w.socket
        → w.read_buf ++ (bytes_of w.socket ++ (bytes_of (arrivals ts) ++ more)) ≡ encode_packets ps
        → Traced ps more (selected w ts) (wire_at_end w ts)

    poll-Traced :
        (p : OrdPacket) (ps : List OrdPacket) (bytes : List ℕ) (o : Outcome)
        → All IsValid (p ∷ ps)
        → Progress p (encode_packets ps) (bytes_of (arrivals ts) ++ more) bytes o
        → bytes ++ (bytes_of (arrivals ts) ++ more) ≡ encode_packets (p ∷ ps)
        → Rest
        → Traced
            (p ∷ ps)
            more
            (result_of o ++ selected (wire_after o) ts)
            (wire_at_end (wire_after o) ts)
    poll-Traced p ps bytes o vs (got buf reads e left fl) whole rest =
        let r : Traced ps more _ _ =
          rest (record { read_buf = buf; socket = reads }) ps vs.1 fl left in
        rw e (record {
          back = r.back;
          split = ap (λ t. p ∷ t) r.split;
          left = r.left;
          flows = r.flows;
          fine = (tt, r.fine);
        })
    poll-Traced p ps bytes o vs (blocked e lt) whole rest =
        rw e (rest (record { read_buf = bytes; socket = [] }) (p ∷ ps) vs tt whole)

  -- However frames and bytes come in, and whenever calls of `read_packet` are dropped, the packets that
  -- the loop gets are the first of those that were sent.
  pub selected-Traced :
      (more : List ℕ) (ts : List (Turn f32)) → IsFlowing (arrivals ts) → Rest more ts
  unfolding selected wire_at_end
  selected-Traced more [] fl w ps vs ws e = record {
    back = ps;
    split = refl;
    left = e;
    flows = ws;
    fine = tt;
  }
  selected-Traced more (arrives r ∷ ts) fl w ps vs ws e =
      selected-Traced more ts fl.1 (record w { socket = w.socket ++ r ∷ [] }) ps vs
        (All-append Brings w.socket (r ∷ []) ws (fl.0, tt))
        (ap (λ t. w.read_buf ++ t) (socket_moves w.socket r (arrivals ts) more) ∙ e)
  selected-Traced more (frame_ready f elapsed ∷ ts) fl w ps vs ws e =
      let r : Traced ps more (selected w ts) _ = selected-Traced more ts fl w ps vs ws e in
      record { back = r.back; split = r.split; left = r.left; flows = r.flows; fine = (tt, r.fine) }
  selected-Traced more (poll_read ∷ ts) fl w [] vs ws e =
      let (waits, empty) =
        read_packet-empty w.read_buf (bytes_of (arrivals ts) ++ more) w.socket ws e in
      rw waits (selected-Traced more ts fl new_wire [] vs tt empty)
  selected-Traced more (poll_read ∷ ts) fl w (p ∷ ps) vs ws e =
      let later = bytes_of (arrivals ts) ++ more in
      poll-Traced more ts p ps (w.read_buf ++ bytes_of w.socket) _ vs
        (read_packet-Progress p (encode_packets ps) later vs.0 w.read_buf w.socket ws e)
        (append_assoc w.read_buf (bytes_of w.socket) later ∙ e) (selected-Traced more ts fl)

  selected-append :
      (w : Wire) (ts us : List (Turn f32))
      → selected w (ts ++ us) ≡ selected w ts ++ selected (wire_at_end w ts) us
  unfolding selected wire_at_end
  selected-append w [] us = refl
  selected-append w (arrives r ∷ ts) us =
      selected-append (record w { socket = w.socket ++ r ∷ [] }) ts us
  selected-append w (frame_ready f elapsed ∷ ts) us =
      ap (λ t. frame f elapsed ∷ t) (selected-append w ts us)
  selected-append w (poll_read ∷ ts) us =
      let o = read_packet w.read_buf w.socket in
      ap (λ t. result_of o ++ t) (selected-append (wire_after o) ts us)
      ∙ sym (
          append_assoc (result_of o) (selected (wire_after o) ts)
            (selected (wire_at_end (wire_after o) ts) us))

  packets_in-append :
      (es fs : List (Event f32)) → packets_in (es ++ fs) ≡ packets_in es ++ packets_in fs
  packets_in-append [] fs = refl
  packets_in-append (frame _ _ ∷ es) fs = packets_in-append es fs
  packets_in-append (read (ok p) ∷ es) fs = ap (λ t. p ∷ t) (packets_in-append es fs)
  packets_in-append (read (err _) ∷ es) fs = packets_in-append es fs

length-back : (xs ys zs : List OrdPacket) → xs ++ ys ≡ zs → length ys ≤ length zs
length-back xs ys zs e = omega (arith, ap length e, length-append xs ys)

module _ (f32 : F32) where
  -- Calls of `read_packet`, one after the other.
  abbrev pub polls : ℕ → List (Turn f32)
  polls zero = []
  polls (suc n) = poll_read ∷ polls n

  poll_drains :
      (n : ℕ) (p : OrdPacket) (ps : List OrdPacket) (bytes : List ℕ) (o : Outcome)
      → Progress p (encode_packets ps) [] bytes o
      → bytes ++ [] ≡ encode_packets (p ∷ ps)
      → ((w : Wire)
          → IsFlowing w.socket
          → w.read_buf ++ (bytes_of w.socket ++ []) ≡ encode_packets ps
          → packets_in (selected w (polls n)) ≡ ps)
      → packets_in (result_of o ++ selected (wire_after o) (polls n)) ≡ p ∷ ps
  poll_drains n p ps bytes o (got buf reads e left fl) whole rest =
      rw e (ap (λ t. p ∷ t) (rest (record { read_buf = buf; socket = reads }) fl left))
  poll_drains n p ps bytes o (blocked e lt) whole rest = absurd (
      omega (
        arith,
        ap length whole,
        length-append bytes [],
        length-append (encode_packet p) (encode_packets ps),
        length-encode_packet p,
        lt,
      ))

  polls_drain :
      (n : ℕ) (ps : List OrdPacket) (w : Wire)
      → length ps ≤ n
      → All IsValid ps
      → IsFlowing w.socket
      → w.read_buf ++ (bytes_of w.socket ++ []) ≡ encode_packets ps
      → packets_in (selected w (polls n)) ≡ ps
  unfolding selected
  polls_drain zero [] w le vs ws e = refl
  polls_drain zero (p ∷ ps) w le vs ws e = elim le [ ]
  polls_drain (suc n) [] w le vs ws e =
      rw ((read_packet-empty w.read_buf [] w.socket ws e).0)
        (polls_drain n [] new_wire (omega arith) tt tt refl)
  polls_drain (suc n) (p ∷ ps) w le vs ws e =
      poll_drains n p ps (w.read_buf ++ bytes_of w.socket) _
        (read_packet-Progress p (encode_packets ps) [] vs.0 w.read_buf w.socket ws e)
        (append_assoc w.read_buf (bytes_of w.socket) [] ∙ e)
        (λ w' ws' e'. polls_drain n ps w' (omega arith) vs.1 ws' e')

  arrivals-polls : (ts : List (Turn f32)) (n : ℕ) → arrivals (ts ++ polls n) ≡ arrivals ts
  arrivals-polls [] zero = refl
  arrivals-polls [] (suc n) = arrivals-polls [] n
  arrivals-polls (arrives r ∷ ts) n = ap (λ t. r ∷ t) (arrivals-polls ts n)
  arrivals-polls (frame_ready _ _ ∷ ts) n = arrivals-polls ts n
  arrivals-polls (poll_read ∷ ts) n = arrivals-polls ts n

  module _ (w : Wire) (ws : IsFlowing w.socket) (ps : List OrdPacket) (ts : List (Turn f32))
      (vs : All IsValid ps) (fl : IsFlowing (arrivals ts))
      (e : w.read_buf ++ (bytes_of w.socket ++ bytes_of (arrivals ts)) ≡ encode_packets ps) where
    whole : w.read_buf ++ (bytes_of w.socket ++ (bytes_of (arrivals ts) ++ [])) ≡ encode_packets ps
    whole = rw (append-nil (bytes_of (arrivals ts))) e

    -- Once all has arrived, as many calls as there were packets leave none behind.
    pub selected-packets : packets_in (selected w (ts ++ polls (length ps))) ≡ ps
    selected-packets =
        let r : Traced ps [] (selected w ts) (wire_at_end w ts) =
          selected-Traced [] ts fl w ps vs ws whole in
        ap packets_in (selected-append w ts (polls (length ps)))
        ∙ packets_in-append (selected w ts) (selected (wire_at_end w ts) (polls (length ps)))
        ∙ ap (λ t. packets_in (selected w ts) ++ t)
            (polls_drain (length ps) r.back (wire_at_end w ts)
              (length-back (packets_in (selected w ts)) r.back ps r.split)
              (All-append_right IsValid (packets_in (selected w ts)) r.back
                (subst (All IsValid) (sym r.split) vs))
              r.flows r.left)
        ∙ r.split

    -- None of the calls fails.
    pub selected-fine : (n : ℕ) → All NoError (selected w (ts ++ polls n))
    selected-fine n =
        let same = arrivals-polls ts n in
        (selected-Traced [] (ts ++ polls n) (subst IsFlowing (sym same) fl) w ps vs ws (
          subst (λ rs. w.read_buf ++ (bytes_of w.socket ++ (bytes_of rs ++ [])) ≡ encode_packets ps)
            (sym same) whole)).fine
