-- ===== src/Daemon/Guard.antt =====
-- The flag `is_session_active` of host/src/daemon.rs as a guard of the sessions.
use ord.Prelude.{ℕ, Bool, true, false, suc, ◌+◌, ◌≡◌, List, [], ◌∷◌, All, arith}
use ord.Daemon.{
  connected, WatcherPoint, at_head, polling, accepting, claiming, Daemon, Event, accessory_found,
  connection, claim, usb_session_ends, start, step, run,
}

-- The number of sessions that run is the flag's: one or none.
abbrev pub counted : Bool → ℕ
counted true = 1
counted false = 0

pub record IsGuarded (d : Daemon) : Type 0 where
  pub sessions : d.tcp_sessions + d.usb_sessions ≡ counted d.session_active

abbrev pub NoAccessory : Event → Type 0
NoAccessory (accessory_found true) = ⊥
NoAccessory _ = Unit {0}

abbrev pub NoConnection : Event → Type 0
NoConnection connection = ⊥
NoConnection _ = Unit {0}

record TcpOnly (d : Daemon) : Type 0 where
  guarded : IsGuarded d
  no_usb : d.usb_sessions ≡ 0
  claims : d.acceptor ≡ claiming → d.session_active ≡ false

step-TcpOnly : (d : Daemon) (e : Event) → NoAccessory e → TcpOnly d → TcpOnly (step d e)
unfolding step
step-TcpOnly d (accessory_found true) ne h = elim ne [ ]
step-TcpOnly d e ne h = ground arith

run-TcpOnly : (d : Daemon) (es : List Event) → All NoAccessory es → TcpOnly d → TcpOnly (run d es)
unfolding run
run-TcpOnly d [] ne h = h
run-TcpOnly d (e ∷ es) ne h = run-TcpOnly (step d e) es ne.1 (step-TcpOnly d e ne.0 h)

-- While no accessory is found, at most one session runs, and the flag is up exactly while it does.
pub one_tcp_session :
    (discovery : Bool) (es : List Event) → All NoAccessory es → IsGuarded (run (start discovery) es)
unfolding start
one_tcp_session discovery es ne = (run-TcpOnly (start discovery) es ne (ground arith)).guarded

abbrev IsAway : WatcherPoint → Type 0
IsAway at_head = ⊥
IsAway _ = Unit {0}

record UsbOnly (d : Daemon) : Type 0 where
  guarded : IsGuarded d
  no_tcp : d.tcp_sessions ≡ 0
  no_claim : d.acceptor ≡ claiming → ⊥
  home : d.session_active ≡ true → (d.state ≡ connected) × (d.watcher ≡ at_head)

step-UsbOnly : (d : Daemon) (e : Event) → NoConnection e → UsbOnly d → UsbOnly (step d e)
unfolding step
step-UsbOnly d connection ne h = elim ne [ ]
step-UsbOnly d e ne h = ground arith

run-UsbOnly : (d : Daemon) (es : List Event) → All NoConnection es → UsbOnly d → UsbOnly (run d es)
unfolding run
run-UsbOnly d [] ne h = h
run-UsbOnly d (e ∷ es) ne h = run-UsbOnly (step d e) es ne.1 (step-UsbOnly d e ne.0 h)

-- While no TCP connection comes, at most one session runs, and the flag is up exactly while it does.
pub one_usb_session :
    (discovery : Bool) (es : List Event)
    → All NoConnection es
    → IsGuarded (run (start discovery) es)
unfolding start
one_usb_session discovery es ne = (run-UsbOnly (start discovery) es ne (ground arith)).guarded

-- With both transports the guard fails: a watcher that waits for an accessory does not read the
-- flag. Whatever sessions run, an accessory that it finds starts one more beside them; and when
-- that one ends, the flag is down, so that a connection is accepted beside the TCP sessions that
-- still run.
pub guard_overtaken :
    (d : Daemon)
    → d.watcher ≡ polling
    → d.acceptor ≡ accepting
    → let found = step d (accessory_found true) in
      let after = run found (usb_session_ends ∷ connection ∷ claim ∷ []) in
      (found.tcp_sessions ≡ d.tcp_sessions)
      × (found.usb_sessions ≡ suc d.usb_sessions)
      × (after.tcp_sessions ≡ suc d.tcp_sessions)
unfolding run step
guard_overtaken d w a = ground arith
