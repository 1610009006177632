-- ===== src/Daemon/Refused.antt =====
-- `HostDaemon::run` of host/src/daemon.rs where the listener cannot be bound.
use ord.Prelude.{
  ℕ, zero, suc, ◌+◌, ◌≤◌, ◌≡◌, refl, ap, ◌∙◌, List, [], ◌∷◌, Bool, false, Bool-cases, inl, inr,
  Option, none, some, All, length, arith,
}
use Prim.Native.String.{String}
use ord.Address.{address}
use ord.Transport.Discovery.{
  DiscoveryBeacon, DiscoveryBroadcaster, Task, binding, sending, sleeping, returned, Wake,
  Discovery, Event, start, stop, wake, resume_at, discovery_step, discovery_run, made,
}
use ord.Transport.Discovery.Stopping.{in_flight, NoStart, discovery_run_bound}
use ord.Transport.Tcp.Server.{failed_to_bind}
use ord.Daemon.Services.{HostDaemon, refused, start_up}

in_flight-le-length : (ts : List Task) → in_flight ts ≤ length ts
in_flight-le-length [] = omega arith
in_flight-le-length (sending _ _ ∷ ts) = omega (arith, in_flight-le-length ts)
in_flight-le-length (binding ∷ ts) = omega (arith, in_flight-le-length ts)
in_flight-le-length (sleeping _ ∷ ts) = omega (arith, in_flight-le-length ts)
in_flight-le-length (returned ∷ ts) = omega (arith, in_flight-le-length ts)

module _ (to_vec : DiscoveryBeacon → Option (List ℕ)) where
  length-resume_at :
      (b : DiscoveryBroadcaster) (ts : List Task) (i : ℕ) (w : Wake)
      → length (resume_at to_vec b ts i w).0 ≡ length ts
  unfolding resume_at
  length-resume_at b [] i w = refl
  length-resume_at b (t ∷ ts) zero w = refl
  length-resume_at b (t ∷ ts) (suc i) w = ap suc (length-resume_at b ts i w)

  -- Tasks are spawned by `start` alone.
  length-discovery_run :
      (es : List Event) (d : Discovery)
      → All NoStart es
      → length (discovery_run to_vec d es).tasks ≡ length d.tasks
  unfolding discovery_run discovery_step
  length-discovery_run [] d n = refl
  length-discovery_run (start ∷ es) d n = absurd n.0
  length-discovery_run (stop ∷ es) d n = length-discovery_run es _ n.1
  length-discovery_run (wake i w ∷ es) d n =
      length-discovery_run es _ n.1 ∙ length-resume_at d.broadcaster d.tasks i w

  -- At most one more datagram leaves while these events happen.
  abbrev pub OneMore : List Event → Option Discovery → Type 0
  OneMore later none = Unit
  OneMore later (some d) = length (discovery_run to_vec d later).datagrams ≤ length d.datagrams + 1

  stopped-OneMore :
      (d : Discovery) (later : List Event)
      → length d.tasks ≡ 1
      → All NoStart later
      → OneMore later (some (discovery_step to_vec d stop))
  unfolding discovery_step
  stopped-OneMore d later one n = omega (
    arith,
    discovery_run_bound to_vec later
        (record d { broadcaster = record d.broadcaster { is_running = false } }) refl n,
    in_flight-le-length d.tasks,
    one,
  )

  -- Where the system does not listen on the configured address, `run` returns an error that names it,
  -- and whatever happened to the broadcaster meanwhile and happens later, but for a call of `start`, at
  -- most one more datagram leaves.
  pub start_up-refused :
      {F : Type 0} (listens : String → Bool) (d : HostDaemon F) (es later : List Event)
      → listens (address d.config.server.bind_address d.config.server.port) ≡ false
      → All NoStart es
      → All NoStart later
      → (discovery : Option Discovery) × (start_up to_vec listens d es
          ≡ refused
              (failed_to_bind (address d.config.server.bind_address d.config.server.port))
              discovery)
        × OneMore later discovery
  unfolding start_up
  start_up-refused listens d es later down n n' =
      elim (Bool-cases d.config.server.enable_discovery) [
        | inl on ↦
            let server = d.config.server in
            let begun = discovery_step to_vec (made server.discovery_port server.port) start in
            (
              some (discovery_step to_vec (discovery_run to_vec begun es) stop),
              rw (down, on) refl,
              stopped-OneMore (discovery_run to_vec begun es) later
                  (length-discovery_run es begun n) n',
            )
        | inr off ↦ (none, rw (down, off) refl, tt)
      ]
