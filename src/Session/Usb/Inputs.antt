-- ===== src/Session/Usb/Inputs.antt =====
-- From the accessory's bytes to the calls on the desktop, in the loop of `handle_usb_client`
-- (host/src/session/mod.rs).
use ord.Prelude.{
  ◌≡◌, refl, sym, ap, ◌∙◌, inl, inr, List, [], ◌∷◌, ◌++◌, Bool, true, false, Bool-cases, Option,
  none, some, All, ◌==◌, append-nil, append_assoc,
}
use ord.Protocol.Packet.{OrdPacket}
use ord.Protocol.Message.{msg_hello, msg_input_event, msg_ping, msg_disconnect}
use ord.Protocol.Input
use ord.Protocol.Coordinate.Float.{F64}
use ord.Encoder.{EncoderConfig}
use ord.Input.{Call, dispatch}
use ord.Session.Screen.{Screen}
use ord.Session.Loop.Endings.{calls_for}
use ord.Session.Wire.Inputs.{calls_in}
use ord.Session.Usb.{
  accepted, full, closed, UsbEvent, pipeline_error, no_frame, frame, frames_closed, packet,
  UsbSession, UsbStatus, running, take_input, send_pong, usb_turn, usb_loop,
}

-- The packets that the loop takes from the read worker.
abbrev pub took : List UsbEvent → List OrdPacket
took [] = []
took (pipeline_error _ ∷ es) = took es
took (no_frame _ ∷ es) = took es
took (frame _ _ ∷ es) = took es
took (frames_closed ∷ es) = took es
took (packet p _ ∷ es) = p ∷ took es

-- Both channels stay open, and the client neither leaves nor says hello again.
abbrev pub KeepsOn : UsbEvent → Type 0
KeepsOn (pipeline_error _) = Unit
KeepsOn (no_frame _) = Unit
KeepsOn (frame _ accepted) = Unit
KeepsOn (frame _ full) = Unit
KeepsOn (frame _ closed) = ⊥
KeepsOn frames_closed = ⊥
KeepsOn (packet p _) =
    ((p.header.msg_type == msg_disconnect) ≡ false) × ((p.header.msg_type == msg_hello) ≡ false)

module _ (f64 : F64) (config : EncoderConfig) (screen : Screen) where
  -- The loop runs on, with the backend that it began with, and has made these calls.
  pub record Runs (s : UsbSession f64) (calls : List (Call f64.Carrier)) (st : UsbStatus f64)
      : Type 0 where
    pub session : UsbSession f64
    pub runs : st ≡ running session
    pub same_input : session.input ≡ s.input
    pub made : session.calls ≡ s.calls ++ calls

  abbrev Goal : UsbSession f64 → List UsbEvent → UsbStatus f64 → Type 0
  Goal s es st = Runs s (calls_in f64 s.input (took es)) st

  take_input-Runs :
      (event : Option Input.InputEvent) (es : List UsbEvent) (s : UsbSession f64)
      → ((s' : UsbSession f64) → Goal s' es (usb_loop f64 config screen s' es))
      → Runs s
          (calls_for f64 s.input event ++ calls_in f64 s.input (took es))
          (usb_loop f64 config screen (take_input f64 event s) es)
  take_input-Runs none es s h = h s
  take_input-Runs (some event) es s h =
      let r : Goal _ es _ = h (take_input f64 (some event) s) in
      record {
        session = r.session;
        runs = r.runs;
        same_input = r.same_input;
        made =
            r.made
            ∙ append_assoc s.calls (dispatch f64 s.input event) (calls_in f64 s.input (took es));
      }

  -- A turn that leaves the backend and its calls alone.
  unchanged :
      (s s1 : UsbSession f64) (es : List UsbEvent) (st : UsbStatus f64)
      → s1.input ≡ s.input
      → s1.calls ≡ s.calls
      → Goal s1 es st
      → Goal s es st
  unchanged s s1 es st i c r = record {
    session = r.session;
    runs = r.runs;
    same_input = r.same_input ∙ i;
    made =
        r.made
        ∙ ap (λ t. t ++ calls_in f64 s1.input (took es)) c
        ∙ ap (λ b. s.calls ++ calls_in f64 b (took es)) i;
  }

  send_pong-Runs :
      (taken : Bool) (pong : OrdPacket) (es : List UsbEvent) (s : UsbSession f64)
      → ((s' : UsbSession f64) → Goal s' es (usb_loop f64 config screen s' es))
      → Goal s es (usb_loop f64 config screen (send_pong f64 taken pong s) es)
  send_pong-Runs true pong es s h =
      unchanged s (send_pong f64 true pong s) es _ refl refl (h (send_pong f64 true pong s))
  send_pong-Runs false pong es s h = h s

  packet-Runs :
      (p : OrdPacket) (taken : Bool) (es : List UsbEvent) (s : UsbSession f64)
      → KeepsOn (packet p taken)
      → ((s' : UsbSession f64) → Goal s' es (usb_loop f64 config screen s' es))
      → Goal s (packet p taken ∷ es) (usb_loop f64 config screen s (packet p taken ∷ es))
  unfolding usb_loop usb_turn
  packet-Runs p taken es s (not_bye, not_hello) h =
      elim (Bool-cases (p.header.msg_type == msg_input_event)) [
        | inl input ↦ rw input (take_input-Runs (Input.decode p.payload) es s h)
        | inr other ↦ elim (Bool-cases (p.header.msg_type == msg_ping)) [
          | inl ping ↦ rw (other, ping) (send_pong-Runs taken _ es s h)
          | inr not_ping ↦ rw (other, not_ping, not_bye, not_hello) (h s)
        ]
      ]

  pub usb_loop-Runs :
      (es : List UsbEvent) (s : UsbSession f64)
      → All KeepsOn es
      → Goal s es (usb_loop f64 config screen s es)
  unfolding usb_loop usb_turn
  usb_loop-Runs [] s k = record {
    session = s;
    runs = refl;
    same_input = refl;
    made = sym (append-nil s.calls);
  }
  usb_loop-Runs (pipeline_error a ∷ es) s k = unchanged s _ es _ refl refl (usb_loop-Runs es _ k.1)
  usb_loop-Runs (no_frame a ∷ es) s k = unchanged s _ es _ refl refl (usb_loop-Runs es _ k.1)
  usb_loop-Runs (frame f accepted ∷ es) s k = unchanged s _ es _ refl refl (usb_loop-Runs es _ k.1)
  usb_loop-Runs (frame f full ∷ es) s k = unchanged s _ es _ refl refl (usb_loop-Runs es _ k.1)
  usb_loop-Runs (frame f closed ∷ es) s k = elim k.0 [ ]
  usb_loop-Runs (frames_closed ∷ es) s k = elim k.0 [ ]
  usb_loop-Runs (packet p taken ∷ es) s k =
      packet-Runs p taken es s k.0 (λ s'. usb_loop-Runs es s' k.1)
