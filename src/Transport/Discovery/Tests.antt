-- ===== src/Transport/Discovery/Tests.antt =====
-- Runs of the broadcaster of host/src/transport/discovery.rs.
use ord.Prelude.{
  ℕ, ◌+◌, ◌≤◌, ◌≡◌, refl, List, [], ◌∷◌, true, false, Option, none, some, All, length,
}
use ord.Transport.Discovery.{
  DiscoveryBeacon, binding, sending, sleeping, returned, bound, sent, slept, Discovery, Event,
  start, stop, wake, discovery_run, made,
}
use ord.Transport.Discovery.Broadcast.{IsBeacon, discovery_run-IsBeacon}
use ord.Transport.Discovery.Stopping.{discovery_run_bound}

-- The port in place of the whole beacon.
abbrev port_only : DiscoveryBeacon → Option (List ℕ)
port_only b = some (b.port ∷ b.version ∷ [])

-- Stopped, and started again before the first task has seen it: there are two tasks.
abbrev restarted : List Event
restarted =
    start
    ∷ wake 0 (bound none)
    ∷ wake 0 (sent true)
    ∷ stop
    ∷ start
    ∷ wake 1 (bound (some "desk"))
    ∷ wake 0 slept
    ∷ wake 0 (sent true)
    ∷ wake 1 (sent true)
    ∷ []

restarted_twice : length (discovery_run port_only (made 9091 9090) restarted).datagrams ≡ 3
unfolding discovery_run made
restarted_twice = refl

discovery_run-IsBeacon_example :
    All
      (IsBeacon port_only 9091 9090)
      (discovery_run port_only (made 9091 9090) restarted).datagrams
discovery_run-IsBeacon_example = discovery_run-IsBeacon port_only 9091 9090 restarted

-- Stopped with one datagram on its way.
abbrev stopped : Discovery
stopped = record {
  broadcaster = record { port = 9091; tcp_port = 9090; is_running = false };
  tasks = sending "desk" (9090 ∷ 1 ∷ []) ∷ sleeping "desk" ∷ binding ∷ returned ∷ [];
  datagrams = [];
}

abbrev wakes : List Event
wakes =
    wake 0 (sent true) ∷ wake 1 slept ∷ wake 1 (sent true) ∷ wake 2 (bound none) ∷ wake 0 slept ∷ []

stopped_once : length (discovery_run port_only stopped wakes).datagrams ≡ 1
unfolding discovery_run
stopped_once = refl

discovery_run_bound_example : length (discovery_run port_only stopped wakes).datagrams ≤ 0 + 1
discovery_run_bound_example =
    discovery_run_bound port_only wakes stopped refl (tt, (tt, (tt, (tt, (tt, tt)))))
