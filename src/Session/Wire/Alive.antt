-- ===== src/Session/Wire/Alive.antt =====
-- When the loop of host/src/session/mod.rs goes on.
use ord.Prelude.{
  ℕ, ◌≡◌, refl, ◌⊎◌, inl, inr, List, [], ◌∷◌, Bool-cases, true, false, Option, Result, ok, err, All,
  ◌==◌,
}
use ord.Protocol.Message.{MetricsMessage, msg_input_event, msg_ping, msg_disconnect}
use ord.Protocol.Input
use ord.Protocol.Coordinate.Float.{F64}
use ord.Transport.Tcp.Sink.{StreamError, ByteSink}
use ord.Session.Loop.{
  F32, Event, frame, read, count, flags_of, Session, Status, running, send_metrics, or_return,
  and_run, on_input, turn, run_session_loop, session_of,
}
use ord.Session.Loop.Connection.{
  IsConnection, Attempt, write_packet-Attempt, write_frame_data-Attempt,
}
use ord.Session.Loop.Sent.{pong_packet}

-- Neither the end of the connection nor a disconnect.
abbrev pub KeepsOn : {f32 : F32} → Event f32 → Type 0
KeepsOn (frame _ _) = Unit
KeepsOn (read (ok p)) = (p.header.msg_type == msg_disconnect) ≡ false
KeepsOn (read (err _)) = ⊥

module _ (sink : ByteSink) (law : IsConnection sink) (f64 : F64) (f32 : F32)
    (to_vec : MetricsMessage f32.Carrier → Option (List ℕ)) where
  open sink use {State}
  open law use {failed}

  abbrev Here : Type 0
  Here = Session sink f64 f32 to_vec

  -- The loop is running, or its connection has failed.
  abbrev pub IsAlive : Status sink f64 f32 to_vec → Type 0
  IsAlive st =
      ((s : Here) × (st ≡ running s)) ⊎ (failed (session_of sink f64 f32 to_vec st).stream ≡ true)

  or_return-IsAlive :
      (bytes : List ℕ) (o : Result StreamError (Unit {0}) × State) (s : Here)
      (next : Here → Status sink f64 f32 to_vec) (more : Here → Status sink f64 f32 to_vec)
      → Attempt sink law bytes s.stream o
      → ((stream : State)
          → IsAlive (and_run sink f64 f32 to_vec (next (record s { stream = stream })) more))
      → IsAlive (and_run sink f64 f32 to_vec (or_return sink f64 f32 to_vec o s next) more)
  or_return-IsAlive bytes (ok _, stream) s next more a then_rest = then_rest stream
  or_return-IsAlive bytes (err e, stream) s next more a then_rest = inr (a.on_err e refl)

  -- A loop that reads no disconnect and no end is running, unless its connection has failed.
  pub run_session_loop-IsAlive :
      (es : List (Event f32)) (s : Here)
      → All KeepsOn es
      → IsAlive (run_session_loop sink f64 f32 to_vec s es)
  unfolding run_session_loop turn
  run_session_loop-IsAlive [] s k = inl (s, refl)
  run_session_loop-IsAlive (frame f elapsed ∷ es) s k =
      let c = count s.counters f in
      or_return-IsAlive _ _ (record s { counters = c })
        (λ s'. running (send_metrics sink f64 f32 to_vec elapsed s'))
        (λ s'. run_session_loop sink f64 f32 to_vec s' es)
        (write_frame_data-Attempt sink law c.frame_seq (flags_of f.is_keyframe) f.bytes s.stream)
        (λ stream. run_session_loop-IsAlive es _ k.1)
  run_session_loop-IsAlive (read (ok p) ∷ es) s k =
      elim (Bool-cases (p.header.msg_type == msg_input_event)) [
        | inl input ↦ rw input (
            run_session_loop-IsAlive es (on_input sink f64 f32 to_vec (Input.decode p.payload) s)
              k.1)
        | inr other ↦ elim (Bool-cases (p.header.msg_type == msg_ping)) [
          | inl ping ↦
              rw (other, ping)
                (or_return-IsAlive _ _ s (λ s'. running s')
                  (λ s'. run_session_loop sink f64 f32 to_vec s' es)
                  (write_packet-Attempt sink law (pong_packet f32 to_vec p) s.stream)
                  (λ stream. run_session_loop-IsAlive es (record s { stream = stream }) k.1))
          | inr not_ping ↦ rw (other, not_ping, k.0) (run_session_loop-IsAlive es s k.1)
        ]
      ]
  run_session_loop-IsAlive (read (err e) ∷ es) s k = elim k.0 [ ]
