-- ===== src/Session/Loop/Endings.antt =====
-- What the loop of host/src/session/mod.rs gives to the input backend, and how it ends.
use ord.Prelude.{
  ℕ, ◌≡◌, refl, sym, ap, subst, ◌∙◌, List, [], ◌∷◌, ◌++◌, Bool-cases, inl, inr, Option, none, some,
  Result, ok, err, append_assoc, append-nil, ◌==◌, if◌then◌else◌,
}
use ord.Protocol.Packet.{OrdPacket}
use ord.Protocol.Message.{MetricsMessage, msg_input_event, msg_ping, msg_disconnect}
use ord.Protocol.Input
use ord.Protocol.Coordinate.Float.{F64}
use ord.Transport.Tcp.Sink.{StreamError, ByteSink}
use ord.Encoder.{VideoFrame}
use ord.Input.{Call, InputBackend, dispatch}
use ord.Session.Loop.{
  F32, Event, frame, read, count, Session, Status, running, returned, send_metrics, or_return,
  and_run, on_input, turn, run_session_loop, session_of,
}

module _ (f64 : F64) where
  abbrev pub calls_for : InputBackend f64 → Option Input.InputEvent → List (Call f64.Carrier)
  calls_for backend none = []
  calls_for backend (some event) = dispatch f64 backend event

  -- The calls for the input packets among the events; a payload that does not decode makes none.
  abbrev pub input_calls :
      {f32 : F32} → InputBackend f64 → List (Event f32) → List (Call f64.Carrier)
  input_calls backend [] = []
  input_calls backend (frame _ _ ∷ es) = input_calls backend es
  input_calls backend (read (err _) ∷ es) = input_calls backend es
  input_calls backend (read (ok p) ∷ es) =
      let rest = input_calls backend es in
      if p.header.msg_type == msg_input_event
      then calls_for backend (Input.decode p.payload) ++ rest
      else rest

  input_calls-cons :
      {f32 : F32} (backend : InputBackend f64) (e : Event f32) (es : List (Event f32))
      → input_calls backend (e ∷ es) ≡ input_calls backend (e ∷ []) ++ input_calls backend es
  input_calls-cons backend (frame _ _) es = refl
  input_calls-cons backend (read (err _)) es = refl
  input_calls-cons backend (read (ok p)) es =
      elim (Bool-cases (p.header.msg_type == msg_input_event)) [
        | inl yes_input ↦ rw (yes_input) (
            ap (λ t. t ++ input_calls backend es)
              (sym (append-nil (calls_for backend (Input.decode p.payload)))))
        | inr no_input ↦ rw no_input refl
      ]

module _ (sink : ByteSink) (f64 : F64) (f32 : F32)
    (to_vec : MetricsMessage f32.Carrier → Option (List ℕ)) where
  abbrev Here : Type 0
  Here = Session sink f64 f32 to_vec

  -- What a turn does to the backend and its calls, if the loop goes on.
  abbrev Turned : Here → Event f32 → Status sink f64 f32 to_vec → Type 0
  Turned s e (running s') =
      (s'.input ≡ s.input) × (s'.calls ≡ s.calls ++ input_calls f64 s.input (e ∷ []))
  Turned s e (returned _ _) = Unit

  Turned-idle :
      (s s' : Here) (e : Event f32)
      → input_calls f64 s.input (e ∷ []) ≡ []
      → s'.input ≡ s.input
      → s'.calls ≡ s.calls
      → Turned s e (running s')
  Turned-idle s s' e none_made i c =
      (i, c ∙ sym (append-nil s.calls) ∙ ap (λ t. s.calls ++ t) (sym none_made))

  frame-Turned :
      (o : Result StreamError (Unit {0}) × sink.State) (s s' : Here) (f : VideoFrame)
      (elapsed : Option f32.Carrier)
      → s'.input ≡ s.input
      → s'.calls ≡ s.calls
      → Turned s (frame f elapsed) (
          or_return sink f64 f32 to_vec o s'
            (λ x. running (send_metrics sink f64 f32 to_vec elapsed x)))
  frame-Turned (err x, stream) s s' f elapsed i c = tt
  frame-Turned (ok _, stream) s s' f none i c =
      Turned-idle s (record s' { stream = stream }) (frame f none) refl i c
  frame-Turned (ok _, stream) s s' f (some t) i c =
      Turned-idle s (send_metrics sink f64 f32 to_vec (some t) (record s' { stream = stream }))
        (frame f (some t)) refl i c

  pong-Turned :
      (o : Result StreamError (Unit {0}) × sink.State) (s : Here) (p : OrdPacket)
      → input_calls f64 {f32 = f32} s.input (read (ok p) ∷ []) ≡ []
      → Turned s (read (ok p)) (or_return sink f64 f32 to_vec o s (λ x. running x))
  pong-Turned (err x, stream) s p none_made = tt
  pong-Turned (ok _, stream) s p none_made =
      Turned-idle s (record s { stream = stream }) (read (ok p)) none_made refl refl

  on_input-Turned :
      (event : Option Input.InputEvent) (s : Here)
      → ((on_input sink f64 f32 to_vec event s).input ≡ s.input)
        × ((on_input sink f64 f32 to_vec event s).calls
            ≡ s.calls ++ (calls_for f64 s.input event ++ []))
  on_input-Turned none s = (refl, sym (append-nil s.calls))
  on_input-Turned (some event) s =
      (refl, ap (λ t. s.calls ++ t) (sym (append-nil (dispatch f64 s.input event))))

  turn-Turned : (s : Here) (e : Event f32) → Turned s e (turn sink f64 f32 to_vec s e)
  unfolding turn
  turn-Turned s (frame f elapsed) =
      frame-Turned _ s (record s { counters = count s.counters f }) f elapsed refl refl
  turn-Turned s (read (ok p)) = elim (Bool-cases (p.header.msg_type == msg_input_event)) [
    | inl input_event ↦ rw input_event (rw input_event (on_input-Turned (Input.decode p.payload) s))
    | inr other ↦
        let none_made : input_calls f64 {f32 = f32} s.input (read (ok p) ∷ []) ≡ [] =
          rw other refl in
        elim (Bool-cases (p.header.msg_type == msg_ping)) [
          | inl ping ↦ rw (other, ping) (pong-Turned _ s p none_made)
          | inr not_ping ↦ elim (Bool-cases (p.header.msg_type == msg_disconnect)) [
            | inl bye ↦ rw (other, not_ping, bye) tt
            | inr not_bye ↦
                rw (other, not_ping, not_bye) (Turned-idle s s (read (ok p)) none_made refl refl)
          ]
        ]
  ]
  turn-Turned s (read (err _)) = tt

  running_inv :
      (st : Status sink f64 f32 to_vec) (more : Here → Status sink f64 f32 to_vec) {s' : Here}
      → and_run sink f64 f32 to_vec st more ≡ running s'
      → (s1 : Here) × (st ≡ running s1) × (more s1 ≡ running s')
  running_inv (running s1) more h = (s1, refl, h)
  running_inv (returned r s1) more h = absurd cc

  -- A loop that is still running has made exactly the calls of the input packets that it received, in
  -- their order.
  pub run_session_loop-input :
      (es : List (Event f32)) (s : Here) {s' : Here}
      → run_session_loop sink f64 f32 to_vec s es ≡ running s'
      → s'.calls ≡ s.calls ++ input_calls f64 s.input es
  unfolding run_session_loop
  run_session_loop-input [] s h =
      ap (λ st. (session_of sink f64 f32 to_vec st).calls) (sym h) ∙ sym (append-nil s.calls)
  run_session_loop-input (e ∷ es) s h =
      let (s1, first, rest) =
        running_inv (turn sink f64 f32 to_vec s e) (λ x. run_session_loop sink f64 f32 to_vec x es)
          h in
      let t : Turned s e (running s1) = subst (Turned s e) first (turn-Turned s e) in
      run_session_loop-input es s1 rest
      ∙ ap (λ b. s1.calls ++ input_calls f64 b es) t.0
      ∙ ap (λ c. c ++ input_calls f64 s.input es) t.1
      ∙ append_assoc s.calls (input_calls f64 s.input (e ∷ [])) (input_calls f64 s.input es)
      ∙ ap (λ c. s.calls ++ c) (sym (input_calls-cons f64 s.input e es))

  and_run-returned :
      (st : Status sink f64 f32 to_vec) (more : Here → Status sink f64 f32 to_vec)
      → ((s1 : Here)
          → (r : Result StreamError (Unit {0})) × ((s' : Here) × (more s1 ≡ returned r s')))
      → (r : Result StreamError (Unit {0})) × ((s' : Here) × (and_run sink f64 f32 to_vec st more
            ≡ returned r s'))
  and_run-returned (running s1) more later = later s1
  and_run-returned (returned r s1) more later = (r, (s1, refl))

  -- A disconnect ends the session, unless it has ended before, and nothing that comes later matters.
  pub run_session_loop-disconnect :
      (es rest : List (Event f32)) (p : OrdPacket) (s : Here)
      → p.header.msg_type ≡ msg_disconnect
      → (r : Result StreamError (Unit {0})) × ((s' : Here) × (run_session_loop sink f64 f32 to_vec s
              (es ++ read (ok p) ∷ rest)
            ≡ returned r s'))
  unfolding run_session_loop turn
  run_session_loop-disconnect [] rest p s h = (ok tt, (s, rw h refl))
  run_session_loop-disconnect (e ∷ es) rest p s h =
      and_run-returned (turn sink f64 f32 to_vec s e) _
        (λ s1. run_session_loop-disconnect es rest p s1 h)
