-- ===== src/Session/Wire/Inputs.antt =====
-- From the client's input events to the calls on the desktop, through host/src/transport/tcp.rs and the
-- loop of host/src/session/mod.rs.
use ord.Prelude.{
  ℕ, ◌^◌, ◌<◌, ◌≡◌, refl, sym, ap, subst, ◌∙◌, inl, inr, List, [], ◌∷◌, ◌++◌, map, Bool-cases,
  false, Option, ok, err, All, length, ◌==◌, if◌then◌else◌, suc, some, append-nil, arith,
}
use ord.Protocol.Packet.{OrdPacket, new_packet}
use ord.Protocol.Packet.Framing.{IsValid, new_packet-IsValid}
use ord.Protocol.Message.{MetricsMessage, msg_input_event, msg_disconnect}
use ord.Protocol.Input
use ord.Protocol.Input.Codec.{FitsWidths, decode-encode, length-encode}
use ord.Protocol.Coordinate.Float.{F64}
use ord.Transport.Tcp.Sink.{ByteSink}
use ord.Transport.Tcp.Chunks.{bytes_of, IsFlowing, encode_packets}
use ord.Input.{Call, InputBackend, dispatch}
use ord.Session.Loop.{
  F32, Event, frame, read, Session, Status, running, run_session_loop, session_of,
}
use ord.Session.Loop.Connection.{IsConnection}
use ord.Session.Loop.Endings.{calls_for, input_calls, run_session_loop-input}
use ord.Session.Wire.{Turn, Wire, selected}
use ord.Session.Wire.Alive.{KeepsOn, run_session_loop-IsAlive}
use ord.Session.Wire.Delivery.{
  packets_in, NoError, arrivals, polls, selected-packets, selected-fine,
}

-- What the client sends: an input event under a sequence number, or another packet.
pub data ClientPacket : Type 0 where
  event : ℕ → Input.InputEvent → ClientPacket
  other : OrdPacket → ClientPacket

abbrev pub packet_of : ClientPacket → OrdPacket
packet_of (event sequence e) = new_packet msg_input_event 0 sequence (Input.encode e)
packet_of (other p) = p

-- The fields fit their widths; the other packets are valid, and neither input nor a disconnect.
abbrev pub IsFit : ClientPacket → Type 0
IsFit (event sequence e) = (sequence < 2 ^ 32) × FitsWidths e
IsFit (other p) =
    IsValid p
    × ((p.header.msg_type == msg_input_event) ≡ false)
    × ((p.header.msg_type == msg_disconnect) ≡ false)

module _ (f64 : F64) where
  -- The calls for the client's events.
  abbrev pub calls_of : InputBackend f64 → List ClientPacket → List (Call f64.Carrier)
  calls_of backend [] = []
  calls_of backend (event _ e ∷ xs) = dispatch f64 backend e ++ calls_of backend xs
  calls_of backend (other _ ∷ xs) = calls_of backend xs

  abbrev pub calls_in : InputBackend f64 → List OrdPacket → List (Call f64.Carrier)
  calls_in backend [] = []
  calls_in backend (p ∷ ps) =
      let rest = calls_in backend ps in
      if p.header.msg_type == msg_input_event
      then calls_for f64 backend (Input.decode p.payload) ++ rest
      else rest

  input_calls-packets :
      {f32 : F32} (backend : InputBackend f64) (es : List (Event f32))
      → input_calls f64 backend es ≡ calls_in backend (packets_in es)
  input_calls-packets backend [] = refl
  input_calls-packets backend (frame _ _ ∷ es) = input_calls-packets backend es
  input_calls-packets backend (read (ok p) ∷ es) =
      elim (Bool-cases (p.header.msg_type == msg_input_event)) [
        | inl input ↦ rw input (
            ap (λ t. calls_for f64 backend (Input.decode p.payload) ++ t)
              (input_calls-packets backend es))
        | inr no_input ↦ rw no_input (input_calls-packets backend es)
      ]
  input_calls-packets backend (read (err _) ∷ es) = input_calls-packets backend es

  decoded : (e : Input.InputEvent) → FitsWidths e → Input.decode (Input.encode e) ≡ some e
  decoded e w =
      subst (λ t. Input.decode t ≡ some e) (append-nil (Input.encode e)) (decode-encode e [] w)

  pub calls_in-packets :
      (backend : InputBackend f64) (xs : List ClientPacket)
      → All IsFit xs
      → calls_in backend (map packet_of xs) ≡ calls_of backend xs
  unfolding new_packet
  calls_in-packets backend [] fit = refl
  calls_in-packets backend (event sequence e ∷ xs) fit =
      rw (decoded e fit.0.1)
        (ap (λ t. dispatch f64 backend e ++ t) (calls_in-packets backend xs fit.1))
  calls_in-packets backend (other p ∷ xs) fit = rw fit.0.1 (calls_in-packets backend xs fit.1)

pub packet_of-IsValid : (xs : List ClientPacket) → All IsFit xs → All IsValid (map packet_of xs)
packet_of-IsValid [] fit = tt
packet_of-IsValid (event sequence e ∷ xs) fit = (
  new_packet-IsValid msg_input_event 0 sequence (Input.encode e) (omega arith) (omega arith) fit.0.0
      (rw (length-encode e) (omega arith)),
  packet_of-IsValid xs fit.1,
)
packet_of-IsValid (other p ∷ xs) fit = (fit.0.0, packet_of-IsValid xs fit.1)

abbrev pub NotBye : OrdPacket → Type 0
NotBye p = (p.header.msg_type == msg_disconnect) ≡ false

pub packet_of-NotBye : (xs : List ClientPacket) → All IsFit xs → All NotBye (map packet_of xs)
unfolding new_packet
packet_of-NotBye [] fit = tt
packet_of-NotBye (event sequence e ∷ xs) fit = (refl, packet_of-NotBye xs fit.1)
packet_of-NotBye (other p ∷ xs) fit = (fit.0.2, packet_of-NotBye xs fit.1)

pub length-packets : (xs : List ClientPacket) → length (map packet_of xs) ≡ length xs
length-packets [] = refl
length-packets (x ∷ xs) = ap suc (length-packets xs)

KeepsOn-packets :
    {f32 : F32} (es : List (Event f32))
    → All NoError es
    → All NotBye (packets_in es)
    → All KeepsOn es
KeepsOn-packets [] fine n = tt
KeepsOn-packets (frame _ _ ∷ es) fine n = (tt, KeepsOn-packets es fine.1 n)
KeepsOn-packets (read (ok p) ∷ es) fine n = (n.0, KeepsOn-packets es fine.1 n.1)
KeepsOn-packets (read (err _) ∷ es) fine n = elim fine.0 [ ]

module _ (sink : ByteSink) (f64 : F64) (f32 : F32)
    (to_vec : MetricsMessage f32.Carrier → Option (List ℕ)) where
  -- The loop, with as many calls of `read_packet` behind these turns as there were packets.
  abbrev pub session_after :
      Session sink f64 f32 to_vec → Wire → List (Turn f32) → ℕ → Status sink f64 f32 to_vec
  session_after s w ts n = run_session_loop sink f64 f32 to_vec s (selected w (ts ++ polls f32 n))

module _ (sink : ByteSink) (law : IsConnection sink) (f64 : F64) (f32 : F32)
    (to_vec : MetricsMessage f32.Carrier → Option (List ℕ)) where
  -- From the client to the desktop: of a client that sends input events whose fields fit, and other
  -- valid packets, but no disconnect, the backend is given exactly the calls for these events, in order,
  -- and the session is still running, once all has arrived and been polled for, unless a write of the
  -- session has failed. It makes no difference how the bytes are cut, what the buffer held when the loop
  -- began, which frames are sent in between, and how often `select!` drops a call of `read_packet` that
  -- waits.
  pub session_after-calls :
      (s : Session sink f64 f32 to_vec) (w : Wire) (xs : List ClientPacket) (ts : List (Turn f32))
      → All IsFit xs
      → IsFlowing w.socket
      → IsFlowing (arrivals ts)
      → w.read_buf ++ (bytes_of w.socket ++ bytes_of (arrivals ts))
        ≡ encode_packets (map packet_of xs)
      → law.failed
          (session_of sink f64 f32 to_vec
            (session_after sink f64 f32 to_vec s w ts (length xs))).stream
        ≡ false
      → (s' : Session sink f64 f32 to_vec) × (session_after sink f64 f32 to_vec s w ts (length xs)
          ≡ running s')
        × (s'.calls ≡ s.calls ++ calls_of f64 s.input xs)
  session_after-calls s w xs ts fit ws fl e up =
      let ps = map packet_of xs in
      let es = selected w (ts ++ polls f32 (length xs)) in
      let vs = packet_of-IsValid xs fit in
      let all_read : packets_in es ≡ ps =
        subst (λ n. packets_in (selected w (ts ++ polls f32 n)) ≡ ps) (length-packets xs)
          (selected-packets f32 w ws ps ts vs fl e) in
      let keeps : All KeepsOn es =
        KeepsOn-packets es (selected-fine f32 w ws ps ts vs fl e (length xs))
          (subst (All NotBye) (sym all_read) (packet_of-NotBye xs fit)) in
      elim (run_session_loop-IsAlive sink law f64 f32 to_vec es s keeps) [
        | inl (s', runs) ↦ (
          s',
          runs,
          run_session_loop-input sink f64 f32 to_vec es s runs
              ∙ ap (λ t. s.calls ++ t)
                  (input_calls-packets f64 s.input es
                    ∙ ap (calls_in f64 s.input) all_read
                    ∙ calls_in-packets f64 s.input xs fit),
        )
        | inr down ↦ absurd (ground (arith, up, down))
      ]
