-- ===== src/Session/Loop/Video.antt =====
-- The video that the other end of the session of host/src/session/mod.rs gets.
use ord.Prelude.{ℕ, ◌≡◌, sym, ap, ◌∙◌, List, [], ◌++◌, append-nil, false, Option, All, length}
use ord.Protocol.Packet.Framing.{IsValid}
use ord.Protocol.Message.{MetricsMessage, msg_video_data}
use ord.Protocol.Coordinate.Float.{F64}
use ord.Transport.Tcp.{Read}
use ord.Transport.Tcp.Sink.{ByteSink}
use ord.Transport.Tcp.Chunks.{
  bytes_of, IsFlowing, encode_packets, read_packets, read_packets_chunks,
}
use ord.Session.Loop.{F32, Event, Session, run_session_loop, session_of}
use ord.Session.Loop.Connection.{IsConnection, Sends, whole, cut, refused}
use ord.Session.Loop.Sent.{sent, run_session_loop-Sends}
use ord.Session.Loop.Streams.{of_type, numbered, frames, live, sent_video}

module _ (sink : ByteSink) (law : IsConnection sink) where
  pub Sends-taken :
      (bytes : List ℕ) (s s' : sink.State)
      → Sends sink law bytes s s'
      → sink.taken s ≡ []
      → law.failed s' ≡ false
      → sink.taken s' ≡ bytes
  Sends-taken bytes s s' (whole up up' e) empty fine = e ∙ ap (λ t. t ++ bytes) empty
  Sends-taken bytes s s' (cut back up down e) empty fine = absurd cc
  Sends-taken bytes s s' (refused down down' e) empty fine = absurd cc

module _ (sink : ByteSink) (law : IsConnection sink) (f64 : F64) (f32 : F32)
    (to_vec : MetricsMessage f32.Carrier → Option (List ℕ)) where
  -- On a connection that was new and has not failed, where the packets of the session are valid, a reader
  -- of the same framing at the other end, however its reads cut the bytes, gets as video exactly the
  -- frames before the end of the session, once and in order, with their bytes, with a flag for the end of
  -- the frame and one for a key frame, and with consecutive sequence numbers modulo 2^32, whatever else
  -- is sent or received between them.
  pub run_session_loop-video :
      (es : List (Event f32)) (s : Session sink f64 f32 to_vec) (reads : List Read)
      → All IsValid (sent f32 to_vec s.counters es)
      → sink.taken s.stream ≡ []
      → law.failed
          (session_of sink f64 f32 to_vec (run_session_loop sink f64 f32 to_vec s es)).stream
        ≡ false
      → IsFlowing reads
      → bytes_of reads
        ≡ sink.taken
            (session_of sink f64 f32 to_vec (run_session_loop sink f64 f32 to_vec s es)).stream
      → of_type msg_video_data (read_packets (length (sent f32 to_vec s.counters es)) [] reads)
        ≡ numbered s.counters.frame_seq (frames (live es))
  run_session_loop-video es s reads vs empty fine flows b =
      let ps = sent f32 to_vec s.counters es in
      ap (of_type msg_video_data) (
        read_packets_chunks ps [] [] reads vs flows (
          b
          ∙ Sends-taken sink law (encode_packets ps) s.stream _
              (run_session_loop-Sends sink law f64 f32 to_vec es s) empty fine
          ∙ sym (append-nil (encode_packets ps))))
      ∙ sent_video f32 to_vec es s.counters
