-- ===== src/Session/Loop/Streams.antt =====
-- The session of host/src/session/mod.rs seen by kind of packet: its video, its answers to pings, and
-- how it ends.
use ord.Prelude.{
  ℕ, ◌+◌, ◌%◌, ◌^◌, ◌≡◌, refl, ap, ◌∙◌, List, [], ◌∷◌, ◌++◌, Bool, true, false, Bool-cases, inl,
  inr, Option, none, some, ok, err, map, ◌==◌, if◌then◌else◌, arith,
}
use ord.Protocol.Packet.{OrdPacket, new_packet}
use ord.Protocol.Message.{MetricsMessage, msg_video_data, msg_ping, msg_pong, msg_disconnect}
use ord.Encoder.{VideoFrame}
use ord.Session.Loop.{F32, Event, frame, read, Counters, count, reset, flags_of, metrics_of}
use ord.Session.Loop.Sent.{sent, metrics_packets, metrics_sent, video_packet, pong_packet}

-- The packets of one type.
abbrev pub of_type : ℕ → List OrdPacket → List OrdPacket
of_type t [] = []
of_type t (p ∷ ps) = let rest = of_type t ps in if p.header.msg_type == t then p ∷ rest else rest

abbrev of_type-append :
    (t : ℕ) (ps qs : List OrdPacket) → of_type t (ps ++ qs) ≡ of_type t ps ++ of_type t qs
of_type-append t [] qs = refl
of_type-append t (p ∷ ps) qs = elim (Bool-cases (p.header.msg_type == t)) [
  | inl e ↦ rw e (ap (λ xs. p ∷ xs) (of_type-append t ps qs))
  | inr e ↦ rw e (of_type-append t ps qs)
]

-- Bit 1 ends a frame, and bit 0 is of a key frame.
abbrev pub video_flags : Bool → ℕ
video_flags true = 3
video_flags false = 2

flags_of-video_flags : (k : Bool) → flags_of k ≡ video_flags k
unfolding flags_of
flags_of-video_flags true = refl
flags_of-video_flags false = refl

-- Frames numbered from the one after `n`, modulo 2^32.
abbrev pub numbered : ℕ → List VideoFrame → List OrdPacket
numbered n [] = []
numbered n (f ∷ fs) =
    let n' = (n + 1) % 2 ^ 32 in
    new_packet msg_video_data (video_flags f.is_keyframe) n' f.bytes ∷ numbered n' fs

module _ {f32 : F32} where
  -- The events before the session ends.
  abbrev pub live : List (Event f32) → List (Event f32)
  live [] = []
  live (frame f elapsed ∷ es) = frame f elapsed ∷ live es
  live (read (ok p) ∷ es) =
      let rest = read (ok p) ∷ live es in if p.header.msg_type == msg_disconnect then [] else rest
  live (read (err _) ∷ es) = []

  abbrev pub frames : List (Event f32) → List VideoFrame
  frames [] = []
  frames (frame f _ ∷ es) = f ∷ frames es
  frames (read _ ∷ es) = frames es

  abbrev pub received : List (Event f32) → List OrdPacket
  received [] = []
  received (frame _ _ ∷ es) = received es
  received (read (ok p) ∷ es) = p ∷ received es
  received (read (err _) ∷ es) = received es

module _ (f32 : F32) (to_vec : MetricsMessage f32.Carrier → Option (List ℕ)) where
  no_video :
      (payload : Option (List ℕ)) (n : ℕ)
      → of_type msg_video_data (metrics_packets f32 to_vec payload n) ≡ []
  unfolding new_packet
  no_video none n = refl
  no_video (some payload) n = refl

  video_packet-flags :
      (c : Counters) (f : VideoFrame)
      → video_packet f32 to_vec c f
        ≡ new_packet msg_video_data (video_flags f.is_keyframe) c.frame_seq f.bytes
  video_packet-flags c f =
      ap (λ flags. new_packet msg_video_data flags c.frame_seq f.bytes)
        (flags_of-video_flags f.is_keyframe)

  no_pong :
      (payload : Option (List ℕ)) (n : ℕ)
      → of_type msg_pong (metrics_packets f32 to_vec payload n) ≡ []
  unfolding new_packet
  no_pong none n = refl
  no_pong (some payload) n = refl

  -- Every frame is sent, once and in order, as a video packet with the frame's bytes and flags, and
  -- the sequence numbers are consecutive modulo 2^32 whatever else is sent or received between them.
  pub sent_video :
      (es : List (Event f32)) (c : Counters)
      → of_type msg_video_data (sent f32 to_vec c es) ≡ numbered c.frame_seq (frames (live es))
  unfolding sent new_packet
  sent_video [] c = refl
  sent_video (frame f none ∷ es) c =
      ap (λ xs. video_packet f32 to_vec (count c f) f ∷ xs) (sent_video es (count c f))
      ∙ ap (λ p. p ∷ numbered (count c f).frame_seq (frames (live es)))
          (video_packet-flags (count c f) f)
  sent_video (frame f (some elapsed) ∷ es) c =
      let c' = count c f in
      ap (λ xs. video_packet f32 to_vec c' f ∷ xs)
        (of_type-append msg_video_data (metrics_sent f32 to_vec c' (some elapsed))
            (sent f32 to_vec (reset c') es)
          ∙ ap (λ xs. xs ++ of_type msg_video_data (sent f32 to_vec (reset c') es))
              (no_video (to_vec (metrics_of f32 c' elapsed)) c'.frame_seq)
          ∙ sent_video es (reset c'))
      ∙ ap (λ p. p ∷ numbered c'.frame_seq (frames (live es))) (video_packet-flags c' f)
  sent_video (read (ok p) ∷ es) c = elim (Bool-cases (p.header.msg_type == msg_ping)) [
    | inl ping ↦
        let not_bye : (p.header.msg_type == msg_disconnect) ≡ false = ground (arith, ping) in
        rw (ping, not_bye) (sent_video es c)
    | inr not_ping ↦ elim (Bool-cases (p.header.msg_type == msg_disconnect)) [
      | inl bye ↦ rw (not_ping, bye) refl
      | inr not_bye ↦ rw (not_ping, not_bye) (sent_video es c)
    ]
  ]
  sent_video (read (err _) ∷ es) c = refl

  -- Every ping received is answered, once and in order, by a pong with its sequence number and its
  -- payload.
  pub sent_pong :
      (es : List (Event f32)) (c : Counters)
      → of_type msg_pong (sent f32 to_vec c es)
        ≡ map (pong_packet f32 to_vec) (of_type msg_ping (received (live es)))
  unfolding sent new_packet
  sent_pong [] c = refl
  sent_pong (frame f none ∷ es) c = sent_pong es (count c f)
  sent_pong (frame f (some elapsed) ∷ es) c =
      let c' = count c f in
      of_type-append msg_pong (metrics_sent f32 to_vec c' (some elapsed))
        (sent f32 to_vec (reset c') es)
      ∙ ap (λ xs. xs ++ of_type msg_pong (sent f32 to_vec (reset c') es))
          (no_pong (to_vec (metrics_of f32 c' elapsed)) c'.frame_seq)
      ∙ sent_pong es (reset c')
  sent_pong (read (ok p) ∷ es) c = elim (Bool-cases (p.header.msg_type == msg_ping)) [
    | inl ping ↦
        let not_bye : (p.header.msg_type == msg_disconnect) ≡ false = ground (arith, ping) in
        rw (ping, not_bye) (rw ping (ap (λ xs. pong_packet f32 to_vec p ∷ xs) (sent_pong es c)))
    | inr not_ping ↦ elim (Bool-cases (p.header.msg_type == msg_disconnect)) [
      | inl bye ↦ rw (not_ping, bye) refl
      | inr not_bye ↦ rw (not_ping, not_bye) (rw not_ping (sent_pong es c))
    ]
  ]
  sent_pong (read (err _) ∷ es) c = refl
