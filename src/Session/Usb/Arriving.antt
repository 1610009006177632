-- ===== src/Session/Usb/Arriving.antt =====
-- From the client's packets to the calls on the desktop, in the loop of `handle_usb_client`
-- (host/src/session/mod.rs).
use ord.Prelude.{◌≡◌, sym, ap, subst, ◌∙◌, List, [], ◌∷◌, ◌++◌, map, false, All, ◌==◌}
use ord.Protocol.Packet.{OrdPacket}
use ord.Protocol.Message.{msg_hello}
use ord.Protocol.Coordinate.Float.{F64}
use ord.Encoder.{EncoderConfig}
use ord.Session.Screen.{Screen}
use ord.Session.Wire.Inputs.{
  ClientPacket, packet_of, IsFit, calls_of, calls_in, calls_in-packets, NotBye, packet_of-NotBye,
}
use ord.Session.Usb.{
  accepted, full, closed, UsbEvent, pipeline_error, no_frame, frame, frames_closed, packet,
  UsbSession, running, usb_loop,
}
use ord.Session.Usb.Inputs.{took, KeepsOn, Runs, usb_loop-Runs}

-- Both channels stay open.
abbrev pub StaysOpen : UsbEvent → Type 0
StaysOpen (frame _ closed) = ⊥
StaysOpen frames_closed = ⊥
StaysOpen _ = Unit

abbrev NotHello : OrdPacket → Type 0
NotHello p = (p.header.msg_type == msg_hello) ≡ false

-- The client does not say hello again.
abbrev pub IsQuiet : ClientPacket → Type 0
IsQuiet x = NotHello (packet_of x)

packet_of-NotHello : (xs : List ClientPacket) → All IsQuiet xs → All NotHello (map packet_of xs)
packet_of-NotHello [] q = tt
packet_of-NotHello (x ∷ xs) q = (q.0, packet_of-NotHello xs q.1)

KeepsOn-took :
    (es : List UsbEvent)
    → All StaysOpen es
    → All NotBye (took es)
    → All NotHello (took es)
    → All KeepsOn es
KeepsOn-took [] o b h = tt
KeepsOn-took (pipeline_error _ ∷ es) o b h = (tt, KeepsOn-took es o.1 b h)
KeepsOn-took (no_frame _ ∷ es) o b h = (tt, KeepsOn-took es o.1 b h)
KeepsOn-took (frame _ accepted ∷ es) o b h = (tt, KeepsOn-took es o.1 b h)
KeepsOn-took (frame _ full ∷ es) o b h = (tt, KeepsOn-took es o.1 b h)
KeepsOn-took (frame _ closed ∷ es) o b h = elim o.0 [ ]
KeepsOn-took (frames_closed ∷ es) o b h = elim o.0 [ ]
KeepsOn-took (packet p _ ∷ es) o b h = ((b.0, h.0), KeepsOn-took es o.1 b.1 h.1)

module _ (f64 : F64) (config : EncoderConfig) (screen : Screen) where
  -- Of a client that sends input events whose fields fit, and other valid packets, but neither a
  -- disconnect nor a hello, the backend is given exactly the calls for these events, in order, and the
  -- loop is still running, where its channels stay open and it has taken all the packets; which frames
  -- are sent or dropped in between, and how often the display is recovered, makes no difference.
  pub usb_loop-calls :
      (xs : List ClientPacket) (s : UsbSession f64) (es : List UsbEvent)
      → All IsFit xs
      → All IsQuiet xs
      → took es ≡ map packet_of xs
      → All StaysOpen es
      → (s' : UsbSession f64) × (usb_loop f64 config screen s es ≡ running s')
        × (s'.calls ≡ s.calls ++ calls_of f64 s.input xs)
  usb_loop-calls xs s es fit quiet same open_still =
      let r : Runs f64 config screen s (calls_in f64 s.input (took es)) _ =
        usb_loop-Runs f64 config screen es s (
          KeepsOn-took es open_still (subst (All NotBye) (sym same) (packet_of-NotBye xs fit))
            (subst (All NotHello) (sym same) (packet_of-NotHello xs quiet))) in
      (
        r.session,
        r.runs,
        r.made
            ∙ ap (λ t. s.calls ++ t)
                (ap (calls_in f64 s.input) same ∙ calls_in-packets f64 s.input xs fit),
      )
