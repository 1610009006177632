-- ===== src/Transport/Discovery/Broadcast.antt =====
-- What the tasks of host/src/transport/discovery.rs send.
use ord.Prelude.{
  ℕ, zero, suc, ◌≡◌, refl, sym, subst, List, [], ◌∷◌, Bool, true, false, Option, none, some,
  Bool-cases, inl, inr, All, All-append,
}
use Prim.Native.String.{String}
use ord.Transport.Discovery.{
  DiscoveryBeacon, DiscoveryBroadcaster, beacon_of, Task, binding, sending, sleeping, returned,
  Wake, bound, bind_failed, sent, slept, Datagram, Discovery, Event, start, stop, wake,
  name_or_default, left, send_or_sleep, loop_head, resume, resume_at, discovery_step, discovery_run,
  made,
}

module _ (to_vec : DiscoveryBeacon → Option (List ℕ)) where
  -- A datagram to the port `port` is the beacon of some host with the TCP port `tcp_port`.
  pub record IsBeacon (port tcp_port : ℕ) (g : Datagram) : Type 0 where
    pub host_name : String
    pub to_port : g.target_port ≡ port
    pub serialised : to_vec (beacon_of host_name tcp_port) ≡ some g.payload

  abbrev TaskBeacons : ℕ → Task → Type 0
  TaskBeacons tcp_port (sending host_name payload) =
      to_vec (beacon_of host_name tcp_port) ≡ some payload
  TaskBeacons tcp_port _ = Unit

  record Beacons (port tcp_port : ℕ) (d : Discovery) : Type 0 where
    to_port : d.broadcaster.port ≡ port
    of_port : d.broadcaster.tcp_port ≡ tcp_port
    tasks_ok : All (TaskBeacons tcp_port) d.tasks
    sent_ok : All (IsBeacon port tcp_port) d.datagrams

  send_or_sleep-TaskBeacons :
      (tcp_port : ℕ) (name : String) (o : Option (List ℕ))
      → to_vec (beacon_of name tcp_port) ≡ o
      → TaskBeacons tcp_port (send_or_sleep to_vec name o)
  send_or_sleep-TaskBeacons tcp_port name none e = tt
  send_or_sleep-TaskBeacons tcp_port name (some p) e = e

  loop_head-TaskBeacons :
      (b : DiscoveryBroadcaster) (name : String) → TaskBeacons b.tcp_port (loop_head to_vec b name)
  unfolding loop_head
  loop_head-TaskBeacons b name = elim (Bool-cases b.is_running) [
    | inl on ↦ rw on (send_or_sleep-TaskBeacons b.tcp_port name _ refl)
    | inr off ↦ rw off tt
  ]

  left-IsBeacon :
      (ok : Bool) (port tcp_port : ℕ) (name : String) (p : List ℕ)
      → to_vec (beacon_of name tcp_port) ≡ some p
      → All (IsBeacon port tcp_port) (left ok port p)
  left-IsBeacon true port tcp_port name p e =
      (record { host_name = name; to_port = refl; serialised = e }, tt)
  left-IsBeacon false port tcp_port name p e = tt

  resume-Beacons :
      (b : DiscoveryBroadcaster) (t : Task) (w : Wake)
      → TaskBeacons b.tcp_port t
      → TaskBeacons b.tcp_port (resume to_vec b t w).0
        × All (IsBeacon b.port b.tcp_port) (resume to_vec b t w).1
  unfolding resume
  resume-Beacons b binding (bound name) h = (loop_head-TaskBeacons b (name_or_default name), tt)
  resume-Beacons b binding bind_failed h = (tt, tt)
  resume-Beacons b binding (sent ok) h = (tt, tt)
  resume-Beacons b binding slept h = (tt, tt)
  resume-Beacons b (sending name p) (bound n) h = (h, tt)
  resume-Beacons b (sending name p) bind_failed h = (h, tt)
  resume-Beacons b (sending name p) (sent ok) h = (tt, left-IsBeacon ok b.port b.tcp_port name p h)
  resume-Beacons b (sending name p) slept h = (h, tt)
  resume-Beacons b (sleeping name) (bound n) h = (tt, tt)
  resume-Beacons b (sleeping name) bind_failed h = (tt, tt)
  resume-Beacons b (sleeping name) (sent ok) h = (tt, tt)
  resume-Beacons b (sleeping name) slept h = (loop_head-TaskBeacons b name, tt)
  resume-Beacons b returned w h = (tt, tt)

  resume_at-Beacons :
      (b : DiscoveryBroadcaster) (ts : List Task) (i : ℕ) (w : Wake)
      → All (TaskBeacons b.tcp_port) ts
      → All (TaskBeacons b.tcp_port) (resume_at to_vec b ts i w).0
        × All (IsBeacon b.port b.tcp_port) (resume_at to_vec b ts i w).1
  unfolding resume_at
  resume_at-Beacons b [] i w h = (tt, tt)
  resume_at-Beacons b (t ∷ ts) zero w h = let r = resume-Beacons b t w h.0 in ((r.0, h.1), r.1)
  resume_at-Beacons b (t ∷ ts) (suc i) w h =
      let r = resume_at-Beacons b ts i w h.1 in ((h.0, r.0), r.1)

  step-Beacons :
      {port tcp_port : ℕ} (d : Discovery) (e : Event)
      → Beacons port tcp_port d
      → Beacons port tcp_port (discovery_step to_vec d e)
  unfolding discovery_step
  step-Beacons d start h = record {
    to_port = h.to_port;
    of_port = h.of_port;
    tasks_ok = All-append (TaskBeacons _) d.tasks (binding ∷ []) h.tasks_ok (tt, tt);
    sent_ok = h.sent_ok;
  }
  step-Beacons d stop h = record {
    to_port = h.to_port;
    of_port = h.of_port;
    tasks_ok = h.tasks_ok;
    sent_ok = h.sent_ok;
  }
  step-Beacons {port = port} {tcp_port = tcp_port} d (wake i w) h =
      let after = resume_at to_vec d.broadcaster d.tasks i w in
      let r =
        resume_at-Beacons d.broadcaster d.tasks i w
          (subst (λ n. All (TaskBeacons n) d.tasks) (sym h.of_port) h.tasks_ok) in
      record {
        to_port = h.to_port;
        of_port = h.of_port;
        tasks_ok = subst (λ n. All (TaskBeacons n) after.0) h.of_port r.0;
        sent_ok = All-append (IsBeacon port tcp_port) d.datagrams after.1 h.sent_ok (
            subst (λ n. All (IsBeacon n tcp_port) after.1) h.to_port
              (subst (λ n. All (IsBeacon d.broadcaster.port n) after.1) h.of_port r.1));
      }

  run-Beacons :
      {port tcp_port : ℕ} (es : List Event) (d : Discovery)
      → Beacons port tcp_port d
      → Beacons port tcp_port (discovery_run to_vec d es)
  unfolding discovery_run
  run-Beacons [] d h = h
  run-Beacons (e ∷ es) d h = run-Beacons es (discovery_step to_vec d e) (step-Beacons d e h)

  -- Whatever calls are made on a broadcaster, and in whatever order its tasks run, each datagram goes
  -- to the discovery port, and is the serialised beacon of a name with the TCP port.
  pub discovery_run-IsBeacon :
      (port tcp_port : ℕ) (es : List Event)
      → All (IsBeacon port tcp_port) (discovery_run to_vec (made port tcp_port) es).datagrams
  unfolding made
  discovery_run-IsBeacon port tcp_port es =
      (run-Beacons es (made port tcp_port)
        (record { to_port = refl; of_port = refl; tasks_ok = tt; sent_ok = tt })).sent_ok
