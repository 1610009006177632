-- ===== src/Transport/Tcp/Writing.antt =====
-- The writes of `FramedStream` of host/src/transport/tcp.rs.
use ord.Prelude.{
  ℕ, ◌%◌, ◌^◌, ◌≡◌, refl, sym, ap, ◌∙◌, List, [], ◌∷◌, ◌++◌, ok, err, length, append-nil,
  append_assoc, Result, All,
}
use ord.Protocol.Packet.{OrdPacket, encode_packet, encode_header, new_packet, new_header}
use ord.Protocol.Packet.Framing.{IsValid}
use ord.Protocol.Message.{msg_video_data}
use ord.Transport.Tcp.{Read, write_packet, write_frame_data, then_write}
use ord.Transport.Tcp.Sink.{StreamError, ByteSink, IsOrdered, Wrote, whole, broken}
use ord.Transport.Tcp.Chunks.{
  encode_packets, bytes_of, IsFlowing, read_packets, read_packets_chunks,
}

module _ (sink : ByteSink) (law : IsOrdered sink) where
  open sink use {State, taken, write_all}

  second-Wrote :
      (xs ys : List ℕ) (s s' : State)
      → taken s' ≡ taken s ++ xs
      → (o : Result StreamError (Unit {0}) × State) → Wrote sink ys s' o
      → Wrote sink (xs ++ ys) s o
  second-Wrote xs ys s s' e _ (whole s'' e') =
      whole s'' (e' ∙ ap (λ t. t ++ ys) e ∙ append_assoc (taken s) xs ys)
  second-Wrote xs ys s s' e _ (broken s'' x front c e') =
      broken s'' x (xs ++ front)
        (record {
          next = c.next;
          back = c.back;
          cut = ap (λ t. xs ++ t) c.cut ∙ sym (append_assoc xs front (c.next ∷ c.back));
        })
        (e' ∙ ap (λ t. t ++ front) e ∙ append_assoc (taken s) xs front)

  -- A write after a write, each with `?`, is a write of both.
  then_write-Wrote :
      (xs ys : List ℕ) (s : State) (o : Result StreamError (Unit {0}) × State)
      → Wrote sink xs s o
      → Wrote sink (xs ++ ys) s (then_write sink o ys)
  then_write-Wrote xs ys s _ (whole s' e) =
      second-Wrote xs ys s s' e (write_all ys s') (law.write_all-Wrote ys s')
  then_write-Wrote xs ys s _ (broken s' x front c e) =
      broken s' x front
        (record {
          next = c.next;
          back = c.back ++ ys;
          cut = ap (λ t. t ++ ys) c.cut ∙ append_assoc front (c.next ∷ c.back) ys;
        })
        e

  -- A call of `write_packet` puts the whole packet on the connection and succeeds, or fails with a
  -- proper prefix of it there.
  pub write_packet-Wrote :
      (p : OrdPacket) (s : State) → Wrote sink (encode_packet p) s (write_packet sink p s)
  unfolding write_packet
  write_packet-Wrote p s = law.write_all-Wrote (encode_packet p) s

  -- `write_frame_data`, which makes no copy of the payload, does to the connection what a write of
  -- the encoded video packet does.
  pub write_frame_data-Wrote :
      (sequence flags : ℕ) (payload : List ℕ) (s : State)
      → Wrote sink
          (encode_packet (new_packet msg_video_data flags sequence payload))
          s
          (write_frame_data sink sequence flags payload s)
  unfolding write_frame_data encode_packet new_packet
  write_frame_data-Wrote sequence flags payload s =
      let header = new_header msg_video_data flags sequence (length payload % 2 ^ 32) in
      then_write-Wrote (encode_header header) payload s (write_all (encode_header header) s)
        (law.write_all-Wrote (encode_header header) s)

module _ (sink : ByteSink) where
  open sink use {State, taken}

  abbrev and_write :
      Result StreamError (Unit {0}) × State
      → (State → Result StreamError (Unit {0}) × State)
      → Result StreamError (Unit {0}) × State
  and_write (ok _, s) more = more s
  and_write (err e, s) more = (err e, s)

  -- Packets written one after the other, each with `?`.
  unfoldable pub write_packets : List OrdPacket → State → Result StreamError (Unit {0}) × State
  write_packets [] s = (ok tt, s)
  write_packets (p ∷ ps) s = and_write (write_packet sink p s) (λ s'. write_packets ps s')

  Wrote-ok :
      (bytes : List ℕ) (s : State) (o : Result StreamError (Unit {0}) × State)
      → Wrote sink bytes s o
      → o.0 ≡ ok tt
      → taken o.1 ≡ taken s ++ bytes
  Wrote-ok bytes s _ (whole _ e) h = e
  Wrote-ok bytes s _ (broken _ x front c e) h = cc

module _ (sink : ByteSink) (law : IsOrdered sink) where
  open sink use {State, taken}

  and_write-ok :
      (o : Result StreamError (Unit {0}) × State)
      (more : State → Result StreamError (Unit {0}) × State)
      → (and_write sink o more).0 ≡ ok tt
      → (o.0 ≡ ok tt) × (and_write sink o more ≡ more o.1)
  and_write-ok (ok _, s) more h = (refl, refl)
  and_write-ok (err x, s) more h = cc

  taken-write_packets :
      (ps : List OrdPacket) (s : State)
      → (write_packets sink ps s).0 ≡ ok tt
      → taken (write_packets sink ps s).1 ≡ taken s ++ encode_packets ps
  unfolding write_packets
  taken-write_packets [] s h = sym (append-nil (taken s))
  taken-write_packets (p ∷ ps) s h =
      let o = write_packet sink p s in
      let (first, go) = and_write-ok o (λ s'. write_packets sink ps s') h in
      ap (λ (r : Result StreamError (Unit {0}) × State). taken r.1) go
      ∙ taken-write_packets ps o.1
          (ap (λ (r : Result StreamError (Unit {0}) × State). r.0) (sym go) ∙ h)
      ∙ ap (λ t. t ++ encode_packets ps)
          (Wrote-ok sink (encode_packet p) s o (write_packet-Wrote sink law p s) first)
      ∙ append_assoc (taken s) (encode_packet p) (encode_packets ps)

  -- From a sender to a receiver: if all the writes succeed on a fresh connection, the receiver
  -- gets the packets, in order, however the network cuts the bytes.
  pub read_packets-write_packets :
      (ps : List OrdPacket) (s : State) (reads : List Read)
      → All IsValid ps
      → taken s ≡ []
      → (write_packets sink ps s).0 ≡ ok tt
      → IsFlowing reads
      → bytes_of reads ≡ taken (write_packets sink ps s).1
      → read_packets (length ps) [] reads ≡ ps
  read_packets-write_packets ps s reads vs fresh done fl e =
      read_packets_chunks ps [] [] reads vs fl (
        e
        ∙ taken-write_packets ps s done
        ∙ ap (λ t. t ++ encode_packets ps) fresh
        ∙ sym (append-nil (encode_packets ps)))
