-- ===== src/Transport/Discovery/Stopping.antt =====
-- When the tasks of host/src/transport/discovery.rs send, and when they cease.
use ord.Prelude.{
  ℕ, zero, suc, ◌+◌, ◌≤◌, ◌≡◌, refl, sym, ◌∙◌, append-nil, List, [], ◌∷◌, ◌++◌, append_assoc, Bool,
  true, false, Option, some, All, length, length-append, arith,
}
use Prim.Native.String.{String}
use ord.Transport.Discovery.{
  DiscoveryBeacon, DiscoveryBroadcaster, beacon_of, Task, binding, sending, sleeping, returned,
  Wake, bound, bind_failed, sent, slept, Datagram, Discovery, Event, start, stop, wake,
  name_or_default, left, new_broadcaster, loop_head, resume, resume_at, discovery_step,
  discovery_run, made,
}

-- The tasks that have a datagram on its way.
abbrev pub in_flight : List Task → ℕ
in_flight [] = 0
in_flight (sending _ _ ∷ ts) = suc (in_flight ts)
in_flight (_ ∷ ts) = in_flight ts

-- Any event but a call of `start`.
abbrev pub NoStart : Event → Type 0
NoStart start = ⊥
NoStart _ = Unit

module _ (to_vec : DiscoveryBeacon → Option (List ℕ)) where
  loop_head-stopped :
      (b : DiscoveryBroadcaster) (name : String)
      → b.is_running ≡ false
      → loop_head to_vec b name ≡ returned
  unfolding loop_head
  loop_head-stopped b name off = rw off refl

  length-left : (ok : Bool) (port : ℕ) (p : List ℕ) → length (left ok port p) ≤ 1
  length-left true port p = omega arith
  length-left false port p = omega arith

  resume_bound :
      (b : DiscoveryBroadcaster) (t : Task) (w : Wake)
      → b.is_running ≡ false
      → in_flight ((resume to_vec b t w).0 ∷ []) + length (resume to_vec b t w).1
        ≤ in_flight (t ∷ [])
  unfolding resume
  resume_bound b binding (bound name) off =
      rw (loop_head-stopped b (name_or_default name) off) (omega arith)
  resume_bound b binding bind_failed off = omega arith
  resume_bound b binding (sent ok) off = omega arith
  resume_bound b binding slept off = omega arith
  resume_bound b (sending name p) (bound n) off = omega arith
  resume_bound b (sending name p) bind_failed off = omega arith
  resume_bound b (sending name p) (sent ok) off = omega (arith, length-left ok b.port p)
  resume_bound b (sending name p) slept off = omega arith
  resume_bound b (sleeping name) (bound n) off = omega arith
  resume_bound b (sleeping name) bind_failed off = omega arith
  resume_bound b (sleeping name) (sent ok) off = omega arith
  resume_bound b (sleeping name) slept off = rw (loop_head-stopped b name off) (omega arith)
  resume_bound b returned w off = omega arith

  in_flight-cons :
      (t : Task) (ts : List Task) → in_flight (t ∷ ts) ≡ in_flight (t ∷ []) + in_flight ts
  in_flight-cons binding ts = omega arith
  in_flight-cons (sending _ _) ts = omega arith
  in_flight-cons (sleeping _) ts = omega arith
  in_flight-cons returned ts = omega arith

  resume_at_bound :
      (b : DiscoveryBroadcaster) (ts : List Task) (i : ℕ) (w : Wake)
      → b.is_running ≡ false
      → in_flight (resume_at to_vec b ts i w).0 + length (resume_at to_vec b ts i w).1
        ≤ in_flight ts
  unfolding resume_at
  resume_at_bound b [] i w off = omega arith
  resume_at_bound b (t ∷ ts) zero w off = omega (
    arith,
    resume_bound b t w off,
    in_flight-cons t ts,
    in_flight-cons (resume to_vec b t w).0 ts,
  )
  resume_at_bound b (t ∷ ts) (suc i) w off = omega (
    arith,
    resume_at_bound b ts i w off,
    in_flight-cons t ts,
    in_flight-cons t (resume_at to_vec b ts i w).0,
  )

  -- Once the flag is cleared and `start` is not called again, at most one more datagram leaves for each
  -- task that had one on its way, whatever else happens.
  pub discovery_run_bound :
      (es : List Event) (d : Discovery)
      → d.broadcaster.is_running ≡ false
      → All NoStart es
      → length (discovery_run to_vec d es).datagrams ≤ length d.datagrams + in_flight d.tasks
  unfolding discovery_run discovery_step
  discovery_run_bound [] d off no_start = omega arith
  discovery_run_bound (start ∷ es) d off no_start = absurd (no_start.0)
  discovery_run_bound (stop ∷ es) d off no_start =
      discovery_run_bound es
        (record d { broadcaster = record d.broadcaster { is_running = false } }) refl no_start.1
  discovery_run_bound (wake i w ∷ es) d off no_start =
      let r = resume_at to_vec d.broadcaster d.tasks i w in
      let rest =
        discovery_run_bound es (record d { tasks = r.0; datagrams = d.datagrams ++ r.1 }) off
          no_start.1 in
      omega
        (arith, rest, length-append d.datagrams r.1, resume_at_bound d.broadcaster d.tasks i w off)

  -- `n` turns of the first task's loop, with the network up.
  abbrev pub rounds : ℕ → List Event
  rounds zero = []
  rounds (suc n) = wake 0 (sent true) ∷ wake 0 slept ∷ rounds n

  abbrev pub copies : ℕ → Datagram → List Datagram
  copies zero g = []
  copies (suc n) g = g ∷ copies n g

  module _ (b : DiscoveryBroadcaster) (on : b.is_running ≡ true) (name : String) (p : List ℕ)
      (serialised : to_vec (beacon_of name b.tcp_port) ≡ some p) where
    loop_head-sends : loop_head to_vec b name ≡ sending name p
    unfolding loop_head
    loop_head-sends = rw (on, serialised) refl

    rounds-copies :
        (n : ℕ) (gs : List Datagram)
        → (discovery_run to_vec
            (record { broadcaster = b; tasks = sending name p ∷ []; datagrams = gs })
            (rounds n)).datagrams
          ≡ gs ++ copies n (record { target_port = b.port; payload = p })
    unfolding discovery_run discovery_step resume_at resume
    rounds-copies zero gs = sym (append-nil gs)
    rounds-copies (suc n) gs =
        let g : Datagram = record { target_port = b.port; payload = p } in
        rw (loop_head-sends, discovery_run, append-nil (gs ++ g ∷ []))
          (rounds-copies n (gs ++ g ∷ []) ∙ append_assoc gs (g ∷ []) (copies n g))

  -- A broadcaster that is started, whose socket is bound and whose beacon is serialised, sends the
  -- same datagram in each of `n` turns in which the network takes it.
  pub discovery_run-copies :
      (port tcp_port n : ℕ) (name : Option String) (p : List ℕ)
      → to_vec (beacon_of (name_or_default name) tcp_port) ≡ some p
      → (discovery_run to_vec
          (made port tcp_port)
          (start ∷ wake 0 (bound name) ∷ rounds n)).datagrams
        ≡ copies n (record { target_port = port; payload = p })
  unfolding discovery_run discovery_step resume_at resume made new_broadcaster
  discovery_run-copies port tcp_port n name p serialised =
      let b : DiscoveryBroadcaster = record {
        port = port;
        tcp_port = tcp_port;
        is_running = true;
      } in
      rw (loop_head-sends b refl (name_or_default name) p serialised, discovery_run)
        (rounds-copies b refl (name_or_default name) p serialised n [])
