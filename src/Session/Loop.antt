-- ===== src/Session/Loop.antt =====
-- host/src/session/mod.rs, `run_session_loop`: the session over a TCP connection. f32, f64 and
-- serde_json are parameters; an event is what `select!` takes next, with what the clock says then.
pub mod Connection
pub mod Sent
pub mod Streams
pub mod Video
pub mod Endings
mod Tests
use ord.Prelude.{
  ℕ, ◌+◌, ◌*◌, ◌%◌, ◌^◌, List, [], ◌∷◌, ◌++◌, Bool, Option, none, some, Result, ok, err, ◌==◌,
  if◌then◌else◌, length,
}
use Prim.Native.Nat.{bit_or}
use ord.Protocol.Packet.{OrdPacket, new_packet}
use ord.Protocol.Message.{
  MetricsMessage, msg_video_data, msg_input_event, msg_ping, msg_pong, msg_metrics, msg_disconnect,
  flag_keyframe, flag_end_of_frame,
}
use ord.Protocol.Input
use ord.Protocol.Coordinate.Float.{F64}
use ord.Transport.Tcp.{write_packet, write_frame_data}
use ord.Transport.Tcp.Sink.{StreamError, ByteSink}
use ord.Encoder.{VideoFrame}
use ord.Input.{Call, InputBackend, dispatch}

-- f32 as the metrics use it.
pub record F32 : Type 1 where
  pub Carrier : Type 0
  pub of_nat : ℕ → Carrier
  infixl 70 ◌/f◌ ◌*f◌
  pub ◌/f◌ : Carrier → Carrier → Carrier
  pub ◌*f◌ : Carrier → Carrier → Carrier
  pub to_u32 : Carrier → ℕ

-- A frame of the encoder, with the seconds since the last metrics if they are one or more; or what
-- `read_packet` returns.
pub data Event (f32 : F32) : Type 0 where
  frame : VideoFrame → Option f32.Carrier → Event f32
  read : Result StreamError OrdPacket → Event f32

-- The local variables but the clock: the sequence number, and what was sent since the last metrics.
pub record Counters : Type 0 where
  pub frame_seq : ℕ  -- u32
  pub frames_sent : ℕ  -- i32
  pub bytes_sent : ℕ  -- usize

abbrev pub no_counters : Counters
no_counters = record { frame_seq = 0; frames_sent = 0; bytes_sent = 0 }

unfoldable pub flags_of : Bool → ℕ
flags_of is_keyframe =
    let flags = if is_keyframe then bit_or 0 flag_keyframe else 0 in bit_or flags flag_end_of_frame

abbrev pub count : Counters → VideoFrame → Counters
count c f = record {
  frame_seq = (c.frame_seq + 1) % 2 ^ 32;
  frames_sent = c.frames_sent + 1;
  bytes_sent = c.bytes_sent + length f.bytes;
}

abbrev pub reset : Counters → Counters
reset c = record c { frames_sent = 0; bytes_sent = 0 }

module _ (f32 : F32) where
  open f32 use {Carrier, of_nat, ◌/f◌, ◌*f◌, to_u32}

  unfoldable pub metrics_of : Counters → Carrier → MetricsMessage Carrier
  metrics_of c elapsed_sec = record {
    fps = of_nat c.frames_sent /f elapsed_sec;
    bitrate_kbps = to_u32 (of_nat c.bytes_sent *f of_nat 8 /f (elapsed_sec *f of_nat 1000));
    rtt_ms = 0;
    dropped_frames = 0;
    encoder_latency_us = 0;
  }

module _ (sink : ByteSink) (f64 : F64) (f32 : F32)
    (to_vec : MetricsMessage f32.Carrier → Option (List ℕ)) where
  open sink use {State}

  -- The connection, the backend and the calls that it has made, and the counters.
  pub record Session : Type 0 where
    pub stream : State
    pub input : InputBackend f64
    pub calls : List (Call f64.Carrier)
    pub counters : Counters

  pub data Status : Type 0 where
    running : Session → Status
    returned : Result StreamError (Unit {0}) → Session → Status

  abbrev pub at : Session → State → Session
  at s stream = record s { stream = stream }

  abbrev pub or_return :
      Result StreamError (Unit {0}) × State → Session → (Session → Status) → Status
  or_return (ok _, stream) s next = next (at s stream)
  or_return (err e, stream) s next = returned (err e) (at s stream)

  abbrev pub send_ignored : Option (List ℕ) → ℕ → State → State
  send_ignored (some payload) frame_seq stream =
      (write_packet sink (new_packet msg_metrics 0 frame_seq payload) stream).1
  send_ignored none frame_seq stream = stream

  -- The metrics, a second after the last; whether they could be written is ignored.
  abbrev pub send_metrics : Option f32.Carrier → Session → Session
  send_metrics none s = s
  send_metrics (some elapsed) s = record s {
    stream =
        send_ignored (to_vec (metrics_of f32 s.counters elapsed)) s.counters.frame_seq s.stream;
    counters = reset s.counters;
  }

  abbrev pub on_frame : VideoFrame → Option f32.Carrier → Session → Status
  on_frame f elapsed s =
      let c = count s.counters f in
      or_return (write_frame_data sink c.frame_seq (flags_of f.is_keyframe) f.bytes s.stream)
        (record s { counters = c }) (λ s'. running (send_metrics elapsed s'))

  abbrev pub on_input : Option Input.InputEvent → Session → Session
  on_input none s = s
  on_input (some event) s = record s { calls = s.calls ++ dispatch f64 s.input event }

  abbrev pub on_packet : OrdPacket → Session → Status
  on_packet p s =
      if p.header.msg_type == msg_input_event
      then running (on_input (Input.decode p.payload) s)
      else if p.header.msg_type == msg_ping
      then or_return
          (write_packet sink (new_packet msg_pong 0 p.header.sequence p.payload) s.stream) s
          (λ s'. running s')
      else if p.header.msg_type == msg_disconnect
      then returned (ok tt) s
      else running s

  -- One turn of the loop.
  unfoldable pub turn : Session → Event f32 → Status
  turn s (frame f elapsed) = on_frame f elapsed s
  turn s (read (ok p)) = on_packet p s
  turn s (read (err _)) = returned (ok tt) s

  abbrev pub and_run : Status → (Session → Status) → Status
  and_run (running s) more = more s
  and_run (returned r s) more = returned r s

  -- `run_session_loop`, over the events to come.
  unfoldable pub run_session_loop : Session → List (Event f32) → Status
  unfolding turn
  run_session_loop s [] = running s
  run_session_loop s (e ∷ es) = and_run (turn s e) (λ s'. run_session_loop s' es)

  abbrev pub session_of : Status → Session
  session_of (running s) = s
  session_of (returned _ s) = s
