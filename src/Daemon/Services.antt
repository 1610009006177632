-- ===== src/Daemon/Services.antt =====
-- host/src/daemon.rs: what `HostDaemon::run` starts before its loops: the broadcaster and the listener.
use ord.Prelude.{ℕ, List, [], ◌∷◌, Bool, if◌then◌else◌, Option, none, some, Result, ok, err}
use Prim.Native.String.{String}
use ord.Config.{Config}
use ord.Transport.Discovery.{
  DiscoveryBeacon, Datagram, Discovery, Event, start, stop, discovery_step, discovery_run, made,
}
use ord.Transport.Tcp.Server.{BindError, new_server, bind}
use ord.Daemon
use ord.Daemon.{Daemon}

pub record HostDaemon (F : Type 0) : Type 0 where
  pub config : Config F
  pub force_test_pattern : Bool

abbrev pub new_daemon : {F : Type 0} → Config F → Bool → HostDaemon F
new_daemon config force_test_pattern = record {
  config = config;
  force_test_pattern = force_test_pattern;
}

-- The datagrams of the broadcaster, over what happens to it and its tasks behind `start`, which always
-- returns `Ok`.
unfoldable pub broadcasts :
    {F : Type 0} → (DiscoveryBeacon → Option (List ℕ)) → HostDaemon F → List Event → List Datagram
unfolding discovery_run made
broadcasts to_vec d events =
    if d.config.server.enable_discovery
    then (discovery_run to_vec (made d.config.server.discovery_port d.config.server.port)
        (start ∷ events)).datagrams
    else []

-- How `run` gets to its loops: with the address that it listens on, the daemon and the broadcaster, or
-- it returns the error, and the broadcaster is dropped, which stops it.
pub data Startup : Type 0 where
  ready : String → Daemon → Option Discovery → Startup
  refused : BindError → Option Discovery → Startup

abbrev pub on_bind :
    (DiscoveryBeacon → Option (List ℕ))
    → Result BindError String
    → Bool
    → Option Discovery
    → Startup
on_bind to_vec (ok addr) enable_discovery discovery =
    ready addr (Daemon.start enable_discovery) discovery
on_bind to_vec (err e) enable_discovery none = refused e none
on_bind to_vec (err e) enable_discovery (some d) = refused e (some (discovery_step to_vec d stop))

-- `run` up to its loops; the events are what happens to the broadcaster until `bind` has answered.
unfoldable pub start_up :
    {F : Type 0}
    → (DiscoveryBeacon → Option (List ℕ))
    → (String → Bool)
    → HostDaemon F
    → List Event
    → Startup
unfolding discovery_run discovery_step made bind
start_up to_vec listens d events =
    let server = d.config.server in
    let discovery =
      if server.enable_discovery
      then some (discovery_run to_vec (made server.discovery_port server.port) (start ∷ events))
      else none in
    on_bind to_vec (bind listens (new_server server.bind_address server.port))
      server.enable_discovery discovery
