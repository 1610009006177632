-- ===== src/Transport/Tcp.antt =====
-- host/src/transport/tcp.rs: `FramedStream`, the packets of a TCP stream.
pub mod Sink
pub mod Framing
pub mod Chunks
pub mod Waiting
pub mod Writing
pub mod Server
mod Tests
use Sink.{StreamError, packet, io, closed, no_delay, ByteSink}
use ord.Prelude.{
  ℕ, ◌+◌, ◌-◌, ◌%◌, ◌^◌, List, [], ◌∷◌, ◌++◌, Bool, true, false, Result, ok, err, ◌>>=◌, leb,
  if◌then◌else◌, length, take, drop, slice,
}
use ord.Protocol.Packet.{
  OrdHeader, OrdPacket, PacketError, ord_header_size, new_header, encode_header, decode_header,
  encode_packet,
}
use ord.Protocol.Message.{msg_video_data}

-- What one `read` of the connection gives: some bytes, of which there are none at its end, or an
-- error. The sizes are the network's choice (the buffer of 16384 bytes is an upper bound).
pub data Read : Type 0 where
  received : List ℕ → Read
  failed : Read

pub record FramedStream (S : Type 0) : Type 0 where
  pub stream : S
  pub read_buf : List ℕ

-- `FramedStream::new`; the flag says whether `set_nodelay` succeeds.
unfoldable pub new : {S : Type 0} → Bool → S → Result StreamError (FramedStream S)
new nodelay stream =
    if nodelay then ok (record { stream = stream; read_buf = [] }) else err no_delay

-- One look at the buffer, at the head of the loop of `read_packet`.
pub data Next : Type 0 where
  incomplete : Next
  invalid : PacketError → Next
  complete : OrdPacket → List ℕ → Next

abbrev pub body_of : List ℕ → OrdHeader → Next
body_of read_buf header =
    let total_len = ord_header_size + header.payload_len in
    if leb total_len (length read_buf)
    then (complete (record { header = header; payload = slice ord_header_size total_len read_buf })
        (drop total_len read_buf))
    else incomplete

abbrev pub frame_of : List ℕ → Result PacketError OrdHeader → Next
frame_of read_buf (err e) = invalid e
frame_of read_buf (ok header) = body_of read_buf header

unfoldable pub next_packet : List ℕ → Next
next_packet read_buf =
    if leb ord_header_size (length read_buf)
    then frame_of read_buf (decode_header (take ord_header_size read_buf))
    else incomplete

-- How a call of `read_packet` ends: it returns, with the buffer that it leaves and the reads that
-- it has not used, or it waits for the connection, with the buffer kept in the stream.
pub data Outcome : Type 0 where
  returned : Result StreamError OrdPacket → List ℕ → List Read → Outcome
  waiting : List ℕ → Outcome

abbrev pub on_next : Next → List ℕ → List Read → Outcome → Outcome
on_next (complete p rest) read_buf reads more = returned (ok p) rest reads
on_next (invalid e) read_buf reads more = returned (err (packet e)) read_buf reads
on_next incomplete read_buf reads more = more

-- `FramedStream::read_packet`, over the reads that the connection will give.
unfoldable pub read_packet : List ℕ → List Read → Outcome
unfolding next_packet
read_packet read_buf [] = on_next (next_packet read_buf) read_buf [] (waiting read_buf)
read_packet read_buf (failed ∷ reads) =
    on_next (next_packet read_buf) read_buf (failed ∷ reads) (returned (err io) read_buf reads)
read_packet read_buf (received [] ∷ reads) =
    on_next (next_packet read_buf) read_buf (received [] ∷ reads)
      (returned (err closed) read_buf reads)
read_packet read_buf (received (b ∷ bs) ∷ reads) =
    on_next (next_packet read_buf) read_buf (received (b ∷ bs) ∷ reads)
      (read_packet (read_buf ++ b ∷ bs) reads)

module _ (sink : ByteSink) where
  open sink use {State, write_all}

  -- `?` between two writes
  abbrev pub then_write :
      Result StreamError (Unit {0}) × State → List ℕ → Result StreamError (Unit {0}) × State
  then_write (ok u, s) bytes = write_all bytes s
  then_write (err e, s) bytes = (err e, s)

  -- `FramedStream::write_packet`
  unfoldable pub write_packet : OrdPacket → State → Result StreamError (Unit {0}) × State
  write_packet p s = let encoded = encode_packet p in write_all encoded s

  -- `FramedStream::write_frame_data`
  unfoldable pub write_frame_data : ℕ → ℕ → List ℕ → State → Result StreamError (Unit {0}) × State
  write_frame_data sequence flags payload s =
      let header = new_header msg_video_data flags sequence (length payload % 2 ^ 32) in
      then_write (write_all (encode_header header) s) payload
