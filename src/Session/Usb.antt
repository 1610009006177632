-- ===== src/Session/Usb.antt =====
-- host/src/session/mod.rs, the loop of `handle_usb_client`. An event is what `select!` takes next, with
-- what the write worker's channel answers.
pub mod Queue
pub mod Stops
pub mod Inputs
pub mod Stale
pub mod Arriving
mod Tests
use ord.Prelude.{
  ℕ, ◌+◌, ◌%◌, ◌^◌, List, [], ◌∷◌, ◌++◌, Bool, true, false, Option, none, some, ◌==◌, if◌then◌else◌,
}
use ord.Protocol.Packet.{OrdPacket, new_packet, encode_packet}
use ord.Protocol.Message.{
  msg_hello, msg_video_data, msg_input_event, msg_ping, msg_pong, msg_disconnect,
}
use ord.Protocol.Input
use ord.Protocol.Coordinate.Float.{F64}
use ord.Encoder.{VideoFrame, EncoderConfig}
use ord.Input.{Call, InputBackend, dispatch}
use ord.Session.Screen.{Screen}
use ord.Session.Loop.{flags_of}
use ord.Session.Recovery.{Video, Answers, recover_display}

-- `try_send`
pub data TrySend : Type 0 where
  accepted full closed : TrySend

pub data UsbEvent : Type 0 where
  -- the pipeline reports an error, or no frame has come for 500 ms
  pipeline_error no_frame : Answers → UsbEvent
  frame : VideoFrame → TrySend → UsbEvent
  frames_closed : UsbEvent
  -- a packet of the read worker; the flag says whether a pong would be taken
  packet : OrdPacket → Bool → UsbEvent

module _ (f64 : F64) where
  -- The session; `queued` is what it has put into the channel of the write worker.
  pub record UsbSession : Type 0 where
    pub video : Video
    pub frame_seq : ℕ  -- u32
    pub queued : List (List ℕ)
    pub input : InputBackend f64
    pub calls : List (Call f64.Carrier)

  pub data UsbStatus : Type 0 where
    running : UsbSession → UsbStatus
    broken : UsbSession → UsbStatus

  abbrev pub recover : EncoderConfig → Screen → Answers → UsbSession → UsbStatus
  recover config screen answers s =
      running (record s { video = recover_display answers config screen s.video })

  abbrev pub offer : TrySend → OrdPacket → UsbSession → UsbStatus
  offer accepted p s = running (record s { queued = s.queued ++ encode_packet p ∷ [] })
  offer full p s = running s
  offer closed p s = broken s

  abbrev pub on_video : VideoFrame → TrySend → UsbSession → UsbStatus
  on_video f sent s =
      let frame_seq = (s.frame_seq + 1) % 2 ^ 32 in
      offer sent (new_packet msg_video_data (flags_of f.is_keyframe) frame_seq f.bytes)
        (record s { frame_seq = frame_seq })

  abbrev pub send_pong : Bool → OrdPacket → UsbSession → UsbSession
  send_pong true pong s = record s { queued = s.queued ++ encode_packet pong ∷ [] }
  send_pong false pong s = s

  abbrev pub take_input : Option Input.InputEvent → UsbSession → UsbSession
  take_input none s = s
  take_input (some event) s = record s { calls = s.calls ++ dispatch f64 s.input event }

  abbrev pub on_usb_packet : OrdPacket → Bool → UsbSession → UsbStatus
  on_usb_packet p taken s =
      if p.header.msg_type == msg_input_event
      then running (take_input (Input.decode p.payload) s)
      else if p.header.msg_type == msg_ping
      then running (send_pong taken (new_packet msg_pong 0 p.header.sequence p.payload) s)
      else if p.header.msg_type == msg_disconnect
      then broken s
      else if p.header.msg_type == msg_hello
      then broken s
      else running s

  -- One turn of the loop.
  unfoldable pub usb_turn : EncoderConfig → Screen → UsbSession → UsbEvent → UsbStatus
  usb_turn config screen s (pipeline_error answers) = recover config screen answers s
  usb_turn config screen s (no_frame answers) = recover config screen answers s
  usb_turn config screen s (frame f sent) = on_video f sent s
  usb_turn config screen s frames_closed = broken s
  usb_turn config screen s (packet p taken) = on_usb_packet p taken s

  abbrev pub unless_broken : UsbStatus → (UsbSession → UsbStatus) → UsbStatus
  unless_broken (running s) more = more s
  unless_broken (broken s) more = broken s

  unfoldable pub usb_loop : EncoderConfig → Screen → UsbSession → List UsbEvent → UsbStatus
  unfolding usb_turn
  usb_loop config screen s [] = running s
  usb_loop config screen s (e ∷ es) =
      unless_broken (usb_turn config screen s e) (λ s'. usb_loop config screen s' es)
