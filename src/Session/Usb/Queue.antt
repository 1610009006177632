-- ===== src/Session/Usb/Queue.antt =====
-- What the loop of `handle_usb_client` (host/src/session/mod.rs) gives to the write worker.
use ord.Prelude.{
  ℕ, ◌+◌, ◌%◌, ◌^◌, ◌≡◌, sym, ◌∙◌, List, [], ◌∷◌, ◌++◌, Bool, true, false, Bool-cases, inl, inr,
  Option, none, some, map, append_assoc, append-nil, ◌==◌, if◌then◌else◌, arith,
}
use ord.Protocol.Packet.{OrdPacket, new_packet, encode_packet}
use ord.Protocol.Message.{
  msg_hello, msg_video_data, msg_input_event, msg_ping, msg_pong, msg_disconnect,
}
use ord.Protocol.Input
use ord.Protocol.Coordinate.Float.{F64}
use ord.Encoder.{EncoderConfig}
use ord.Session.Screen.{Screen}
use ord.Session.Loop.{flags_of}
use ord.Session.Usb.{
  accepted, full, closed, UsbEvent, pipeline_error, no_frame, frame, frames_closed, packet,
  UsbSession, UsbStatus, running, broken, take_input, send_pong, usb_turn, usb_loop,
}

abbrev answer : Bool → OrdPacket → List OrdPacket
answer true p = new_packet msg_pong 0 p.header.sequence p.payload ∷ []
answer false p = []

-- The packets for the write worker: each frame takes the next number, also one that is dropped because
-- the channel is full; each ping that can be answered is.
unfoldable pub outgoing : ℕ → List UsbEvent → List OrdPacket
outgoing n [] = []
outgoing n (pipeline_error _ ∷ es) = outgoing n es
outgoing n (no_frame _ ∷ es) = outgoing n es
outgoing n (frame f accepted ∷ es) =
    let n' = (n + 1) % 2 ^ 32 in
    new_packet msg_video_data (flags_of f.is_keyframe) n' f.bytes ∷ outgoing n' es
outgoing n (frame f full ∷ es) = outgoing ((n + 1) % 2 ^ 32) es
outgoing n (frame f closed ∷ es) = []
outgoing n (frames_closed ∷ es) = []
outgoing n (packet p taken ∷ es) =
    let rest = outgoing n es in
    if p.header.msg_type == msg_ping
    then answer taken p ++ rest
    else if p.header.msg_type == msg_disconnect
    then []
    else if p.header.msg_type == msg_hello
    then []
    else rest

module _ (f64 : F64) (config : EncoderConfig) (screen : Screen) where
  abbrev pub session_in : UsbStatus f64 → UsbSession f64
  session_in (running s) = s
  session_in (broken s) = s

  abbrev Goal : List UsbEvent → UsbSession f64 → Type 0
  Goal es s =
      (session_in (usb_loop f64 config screen s es)).queued
      ≡ s.queued ++ map encode_packet (outgoing s.frame_seq es)

  one_more :
      (q : List (List ℕ)) (x : List ℕ) (xs : List (List ℕ)) → (q ++ x ∷ []) ++ xs ≡ q ++ x ∷ xs
  one_more q x xs = append_assoc q (x ∷ []) xs

  take_input-queue :
      (event : Option Input.InputEvent) (es : List UsbEvent) (s : UsbSession f64)
      → ((s' : UsbSession f64) → Goal es s')
      → (session_in (usb_loop f64 config screen (take_input f64 event s) es)).queued
        ≡ s.queued ++ map encode_packet (outgoing s.frame_seq es)
  take_input-queue none es s h = h s
  take_input-queue (some event) es s h = h (take_input f64 (some event) s)

  send_pong-queue :
      (taken : Bool) (p : OrdPacket) (es : List UsbEvent) (s : UsbSession f64)
      → ((s' : UsbSession f64) → Goal es s')
      → (session_in (
          usb_loop f64 config screen
            (send_pong f64 taken (new_packet msg_pong 0 p.header.sequence p.payload) s)
            es)).queued
        ≡ s.queued ++ map encode_packet (answer taken p ++ outgoing s.frame_seq es)
  send_pong-queue true p es s h = h _ ∙ one_more s.queued _ _
  send_pong-queue false p es s h = h s

  on_usb_packet-queue :
      (p : OrdPacket) (taken : Bool) (es : List UsbEvent) (s : UsbSession f64)
      → ((s' : UsbSession f64) → Goal es s')
      → Goal (packet p taken ∷ es) s
  unfolding usb_loop usb_turn outgoing
  on_usb_packet-queue p taken es s h = elim (Bool-cases (p.header.msg_type == msg_input_event)) [
    | inl input ↦
        let not_ping : (p.header.msg_type == msg_ping) ≡ false = ground (arith, input) in
        let not_bye : (p.header.msg_type == msg_disconnect) ≡ false = ground (arith, input) in
        let not_hello : (p.header.msg_type == msg_hello) ≡ false = ground (arith, input) in
        rw (input, not_ping, not_bye, not_hello) (take_input-queue (Input.decode p.payload) es s h)
    | inr other ↦ elim (Bool-cases (p.header.msg_type == msg_ping)) [
      | inl ping ↦ rw (other, ping) (send_pong-queue taken p es s h)
      | inr not_ping ↦ elim (Bool-cases (p.header.msg_type == msg_disconnect)) [
        | inl bye ↦ rw (other, not_ping, bye) (sym (append-nil s.queued))
        | inr not_bye ↦ elim (Bool-cases (p.header.msg_type == msg_hello)) [
          | inl again ↦ rw (other, not_ping, not_bye, again) (sym (append-nil s.queued))
          | inr unknown ↦ rw (other, not_ping, not_bye, unknown) (h s)
        ]
      ]
    ]
  ]

  -- A USB session has put into the channel the packets `outgoing`, in order, whatever recoveries of the
  -- display come between: no frame is sent twice or under another's number.
  pub usb_loop-queue :
      (es : List UsbEvent) (s : UsbSession f64)
      → (session_in (usb_loop f64 config screen s es)).queued
        ≡ s.queued ++ map encode_packet (outgoing s.frame_seq es)
  unfolding usb_loop usb_turn outgoing
  usb_loop-queue [] s = sym (append-nil s.queued)
  usb_loop-queue (pipeline_error a ∷ es) s = usb_loop-queue es _
  usb_loop-queue (no_frame a ∷ es) s = usb_loop-queue es _
  usb_loop-queue (frame f accepted ∷ es) s = usb_loop-queue es _ ∙ one_more s.queued _ _
  usb_loop-queue (frame f full ∷ es) s = usb_loop-queue es _
  usb_loop-queue (frame f closed ∷ es) s = sym (append-nil s.queued)
  usb_loop-queue (frames_closed ∷ es) s = sym (append-nil s.queued)
  usb_loop-queue (packet p taken ∷ es) s = on_usb_packet-queue p taken es s (usb_loop-queue es)
