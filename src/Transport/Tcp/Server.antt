-- ===== src/Transport/Tcp/Server.antt =====
-- host/src/transport/tcp.rs, `TcpTransportServer`. The operating system is a parameter: whether it
-- listens on an address.
use ord.Prelude.{ℕ, Bool, Result, ok, err, if◌then◌else◌}
use Prim.Native.String.{String}
use ord.Address.{address}

pub record TcpTransportServer : Type 0 where
  pub bind_addr : String
  pub port : ℕ  -- u16

abbrev pub new_server : String → ℕ → TcpTransportServer
new_server bind_addr port = record { bind_addr = bind_addr; port = port }

-- The error names the address.
pub data BindError : Type 0 where
  failed_to_bind : String → BindError

-- `TcpTransportServer::bind`; a listener is the address that it listens on.
unfoldable pub bind : (String → Bool) → TcpTransportServer → Result BindError String
bind listens s =
    let addr = address s.bind_addr s.port in
    if listens addr then ok addr else err (failed_to_bind addr)
