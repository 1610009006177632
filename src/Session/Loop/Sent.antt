-- ===== src/Session/Loop/Sent.antt =====
-- What the session of host/src/session/mod.rs sends, as packets, and that `run_session_loop` puts
-- their encoding on the connection.
use ord.Prelude.{
  ℕ, ◌≡◌, refl, sym, ap, subst, ◌∙◌, List, [], ◌∷◌, ◌++◌, false, Bool-cases, inl, inr, Option, none,
  some, Result, ok, err, append_assoc, append-nil, ◌==◌, if◌then◌else◌, arith,
}
use ord.Protocol.Packet.{OrdPacket, encode_packet, new_packet}
use ord.Protocol.Message.{
  MetricsMessage, msg_video_data, msg_input_event, msg_ping, msg_pong, msg_metrics, msg_disconnect,
}
use ord.Protocol.Input
use ord.Protocol.Coordinate.Float.{F64}
use ord.Transport.Tcp.{write_frame_data}
use ord.Transport.Tcp.Sink.{StreamError, ByteSink}
use ord.Transport.Tcp.Chunks.{encode_packets}
use ord.Encoder.{VideoFrame}
use ord.Session.Loop.{
  F32, Event, frame, read, Counters, count, reset, flags_of, metrics_of, Session, Status, running,
  send_metrics, send_ignored, or_return, and_run, on_input, turn, run_session_loop, session_of,
}
use ord.Session.Loop.Connection.{
  IsConnection, Puts, Puts-nil, Puts-failed, Puts-append, Sends, Puts-Sends, Attempt,
  write_packet-Attempt, write_frame_data-Attempt,
}

abbrev pub encode_packets-append :
    (ps qs : List OrdPacket) → encode_packets (ps ++ qs) ≡ encode_packets ps ++ encode_packets qs
encode_packets-append [] qs = refl
encode_packets-append (p ∷ ps) qs =
    ap (λ t. encode_packet p ++ t) (encode_packets-append ps qs)
    ∙ sym (append_assoc (encode_packet p) (encode_packets ps) (encode_packets qs))

module _ (f32 : F32) (to_vec : MetricsMessage f32.Carrier → Option (List ℕ)) where
  abbrev pub metrics_packets : Option (List ℕ) → ℕ → List OrdPacket
  metrics_packets (some payload) frame_seq = new_packet msg_metrics 0 frame_seq payload ∷ []
  metrics_packets none frame_seq = []

  abbrev pub metrics_sent : Counters → Option f32.Carrier → List OrdPacket
  metrics_sent c none = []
  metrics_sent c (some elapsed) = metrics_packets (to_vec (metrics_of f32 c elapsed)) c.frame_seq

  abbrev pub after_metrics : Counters → Option f32.Carrier → Counters
  after_metrics c none = c
  after_metrics c (some _) = reset c

  abbrev pub video_packet : Counters → VideoFrame → OrdPacket
  video_packet c f = new_packet msg_video_data (flags_of f.is_keyframe) c.frame_seq f.bytes

  abbrev pub pong_packet : OrdPacket → OrdPacket
  pong_packet p = new_packet msg_pong 0 p.header.sequence p.payload

  -- A frame is sent, with metrics when they are due; a ping is answered; a disconnect, or an error of
  -- the connection, is the end.
  unfoldable pub sent : Counters → List (Event f32) → List OrdPacket
  sent c [] = []
  sent c (frame f elapsed ∷ es) =
      video_packet (count c f) f
      ∷ (metrics_sent (count c f) elapsed ++ sent (after_metrics (count c f) elapsed) es)
  sent c (read (ok p) ∷ es) =
      let rest = sent c es in
      if p.header.msg_type == msg_ping
      then pong_packet p ∷ rest
      else if p.header.msg_type == msg_disconnect
      then []
      else rest
  sent c (read (err _) ∷ es) = []

module _ (sink : ByteSink) (law : IsConnection sink) (f64 : F64) (f32 : F32)
    (to_vec : MetricsMessage f32.Carrier → Option (List ℕ)) where
  open sink use {State}
  open law use {failed}

  abbrev Here : Type 0
  Here = Session sink f64 f32 to_vec

  one-Puts :
      (p : OrdPacket) (s s' : State)
      → Puts sink law (encode_packet p) s s'
      → Puts sink law (encode_packets (p ∷ [])) s s'
  one-Puts p s s' h = subst (λ t. Puts sink law t s s') (sym (append-nil (encode_packet p))) h

  send_ignored-Puts :
      (payload : Option (List ℕ)) (frame_seq : ℕ) (s : State)
      → Puts sink law
          (encode_packets (metrics_packets f32 to_vec payload frame_seq))
          s
          (send_ignored sink f64 f32 to_vec payload frame_seq s)
  send_ignored-Puts none frame_seq s = Puts-nil sink law s
  send_ignored-Puts (some payload) frame_seq s =
      let p = new_packet msg_metrics 0 frame_seq payload in
      one-Puts p s _ (write_packet-Attempt sink law p s).puts

  -- A write with `?`, and the rest of the loop.
  or_return-Puts :
      (bytes rest : List ℕ) (o : Result StreamError (Unit {0}) × State) (s : Here)
      (next : Here → Status sink f64 f32 to_vec) (more : Here → Status sink f64 f32 to_vec)
      → Attempt sink law bytes s.stream o
      → ((stream : State)
          → Puts sink law rest stream
              (session_of sink f64 f32 to_vec
                (and_run sink f64 f32 to_vec (next (record s { stream = stream })) more)).stream)
      → Puts sink law
          (bytes ++ rest)
          s.stream
          (session_of sink f64 f32 to_vec
            (and_run sink f64 f32 to_vec (or_return sink f64 f32 to_vec o s next) more)).stream
  or_return-Puts bytes rest (ok _, stream) s next more first then_rest =
      Puts-append sink law bytes rest s.stream stream _ first.puts (then_rest stream)
  or_return-Puts bytes rest (err e, stream) s next more first then_rest =
      Puts-append sink law bytes rest s.stream stream stream first.puts
        (Puts-failed sink law rest stream (first.on_err e refl))

  abbrev Goal : List (Event f32) → Here → Here → Type 0
  Goal es s s' =
      Puts sink law (encode_packets (sent f32 to_vec s.counters es)) s.stream
        (session_of sink f64 f32 to_vec (run_session_loop sink f64 f32 to_vec s' es)).stream

  on_input-Puts :
      (event : Option Input.InputEvent) (es : List (Event f32)) (s : Here)
      → ((s' : Here) → Goal es s' s')
      → Goal es s (on_input sink f64 f32 to_vec event s)
  on_input-Puts none es s rest = rest s
  on_input-Puts (some event) es s rest = rest (on_input sink f64 f32 to_vec (some event) s)

  send_metrics-Puts :
      (elapsed : Option f32.Carrier) (es : List (Event f32)) (s : Here)
      → ((s' : Here) → Goal es s' s')
      → Puts sink law
          (encode_packets (
            metrics_sent f32 to_vec s.counters elapsed
            ++ sent f32 to_vec (after_metrics f32 to_vec s.counters elapsed) es))
          s.stream
          (session_of sink f64 f32 to_vec (
            run_session_loop sink f64 f32 to_vec
              (send_metrics sink f64 f32 to_vec elapsed s)
              es)).stream
  send_metrics-Puts none es s rest = rest s
  send_metrics-Puts (some elapsed) es s rest =
      let payload = to_vec (metrics_of f32 s.counters elapsed) in
      let s' = send_metrics sink f64 f32 to_vec (some elapsed) s in
      let ps = metrics_packets f32 to_vec payload s.counters.frame_seq in
      rw (encode_packets-append ps (sent f32 to_vec s'.counters es)) (
        Puts-append sink law (encode_packets ps) (encode_packets (sent f32 to_vec s'.counters es))
          s.stream s'.stream _ (send_ignored-Puts payload s.counters.frame_seq s.stream) (rest s'))

  pub run_session_loop-Puts :
      (es : List (Event f32)) (s : Here)
      → Puts sink law
          (encode_packets (sent f32 to_vec s.counters es))
          s.stream
          (session_of sink f64 f32 to_vec (run_session_loop sink f64 f32 to_vec s es)).stream
  unfolding run_session_loop turn sent
  run_session_loop-Puts [] s = Puts-nil sink law s.stream
  run_session_loop-Puts (frame f elapsed ∷ es) s =
      let c = count s.counters f in
      let rest = sent f32 to_vec (after_metrics f32 to_vec c elapsed) es in
      or_return-Puts (encode_packet (video_packet f32 to_vec c f))
        (encode_packets (metrics_sent f32 to_vec c elapsed ++ rest))
        (write_frame_data sink c.frame_seq (flags_of f.is_keyframe) f.bytes s.stream)
        (record s { counters = c }) (λ s'. running (send_metrics sink f64 f32 to_vec elapsed s'))
        (λ s'. run_session_loop sink f64 f32 to_vec s' es)
        (write_frame_data-Attempt sink law c.frame_seq (flags_of f.is_keyframe) f.bytes s.stream)
        (λ stream.
          send_metrics-Puts elapsed es (record s { stream = stream; counters = c })
            (run_session_loop-Puts es))
  run_session_loop-Puts (read (ok p) ∷ es) s =
      elim (Bool-cases (p.header.msg_type == msg_input_event)) [
        | inl input ↦
            let not_ping : (p.header.msg_type == msg_ping) ≡ false = ground (arith, input) in
            let not_bye : (p.header.msg_type == msg_disconnect) ≡ false = ground (arith, input) in
            rw (input, not_ping, not_bye)
              (on_input-Puts (Input.decode p.payload) es s (run_session_loop-Puts es))
        | inr other ↦ elim (Bool-cases (p.header.msg_type == msg_ping)) [
          | inl ping ↦
              rw (other, ping)
                (or_return-Puts (encode_packet (pong_packet f32 to_vec p))
                  (encode_packets (sent f32 to_vec s.counters es)) _ s (λ s'. running s')
                  (λ s'. run_session_loop sink f64 f32 to_vec s' es)
                  (write_packet-Attempt sink law (pong_packet f32 to_vec p) s.stream)
                  (λ stream. run_session_loop-Puts es (record s { stream = stream })))
          | inr not_ping ↦ elim (Bool-cases (p.header.msg_type == msg_disconnect)) [
            | inl bye ↦ rw (other, not_ping, bye) (Puts-nil sink law s.stream)
            | inr not_bye ↦ rw (other, not_ping, not_bye) (run_session_loop-Puts es s)
          ]
        ]
      ]
  run_session_loop-Puts (read (err e) ∷ es) s = Puts-nil sink law s.stream

  -- On a connection that does not fail, the loop puts the encoding of the packets `sent` there, for
  -- every sequence of events; on one that fails, the first bytes of it; and on a failed one, nothing.
  pub run_session_loop-Sends :
      (es : List (Event f32)) (s : Here)
      → Sends sink law
          (encode_packets (sent f32 to_vec s.counters es))
          s.stream
          (session_of sink f64 f32 to_vec (run_session_loop sink f64 f32 to_vec s es)).stream
  run_session_loop-Sends es s = Puts-Sends sink law _ _ _ (run_session_loop-Puts es s)
