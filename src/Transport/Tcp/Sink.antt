-- ===== src/Transport/Tcp/Sink.antt =====
-- The writing side of a tokio `TcpStream`, as host/src/transport/tcp.rs uses it: `write_all`, whose
-- meaning is a parameter. (`flush` of a TCP stream does nothing.)
use ord.Prelude.{ℕ, ◌≡◌, List, ◌∷◌, ◌++◌, Result, ok, err}
use ord.Protocol.Packet.{PacketError}

-- The `anyhow` errors of this file.
pub data StreamError : Type 0 where
  packet : PacketError → StreamError
  io : StreamError
  closed : StreamError
  no_delay : StreamError

-- A connection, and the bytes that it has taken so far.
pub record ByteSink : Type 1 where
  pub State : Type 0
  pub taken : State → List ℕ
  pub write_all : List ℕ → State → Result StreamError (Unit {0}) × State

-- A proper prefix.
pub record IsCut (front whole : List ℕ) : Type 0 where
  pub next : ℕ
  pub back : List ℕ
  pub cut : whole ≡ front ++ next ∷ back

-- What a write did: all the bytes are on the connection, or it failed and a proper prefix of them is.
pub data Wrote (sink : ByteSink) (bytes : List ℕ) (s : sink.State)
    : Result StreamError (Unit {0}) × sink.State → Type 0 where
  whole : (s' : sink.State) → sink.taken s' ≡ sink.taken s ++ bytes → Wrote sink bytes s (ok tt, s')
  broken :
      (s' : sink.State) (e : StreamError) (front : List ℕ)
      → IsCut front bytes
      → sink.taken s' ≡ sink.taken s ++ front
      → Wrote sink bytes s (err e, s')

-- What the documentation of `write_all` promises.
pub record IsOrdered (sink : ByteSink) : Type 0 where
  pub write_all-Wrote :
      (bytes : List ℕ) (s : sink.State) → Wrote sink bytes s (sink.write_all bytes s)
