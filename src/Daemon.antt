-- ===== src/Daemon.antt =====
-- host/src/daemon.rs: the tasks of `HostDaemon::run` and the flag that they share. The state is
-- what the tasks keep, and where each of them stands between two waits; an event lets one task run
-- to its next wait. The runtime has several threads, so the test and the store of the flag in the
-- accept loop are two events.
pub mod Bounds
pub mod Guard
pub mod Timing
pub mod Services
pub mod Refused
pub mod Held
pub mod Freed
mod Tests
use ord.Prelude.{
  ℕ, zero, suc, ◌+◌, ◌-◌, ◌%◌, ◌^◌, List, [], ◌∷◌, Bool, true, false, ltb, if◌then◌else◌,
}

-- The state machine of the USB watcher.
pub data UsbState : Type 0 where
  idle : UsbState
  waiting_for_accessory : ℕ → UsbState
  connected : UsbState

-- Where the watcher stands: at the head of its loop, or at the result of a blocking call:
-- `find_and_open_accessory` in `Idle`, `scan_and_switch_any`, `find_and_open_accessory` in
-- `WaitingForAccessory`.
pub data WatcherPoint : Type 0 where
  at_head looking scanning polling : WatcherPoint

-- The accept loop waits for a connection, or has read the flag as false and has still to set it.
pub data AcceptPoint : Type 0 where
  accepting claiming stopped : AcceptPoint

pub record Daemon : Type 0 where
  pub session_active : Bool
  pub state : UsbState
  pub switch_cooldown_ms : ℕ  -- u32
  pub watcher : WatcherPoint
  pub acceptor : AcceptPoint
  pub discovery : Bool
  -- the session tasks that are running
  pub tcp_sessions : ℕ
  pub usb_sessions : ℕ

pub data Event : Type 0 where
  -- the watcher's sleep is over, and it goes on from the head of its loop
  wake : Event
  -- a blocking call of the watcher returns
  accessory_found : Bool → Event
  switch_initiated : Bool → Event
  -- `listener.accept` returns a connection or an error; the flag is set and the session spawned
  connection : Event
  accept_error : Event
  claim : Event
  -- a session task ends, and clears the flag
  tcp_session_ends : Event
  usb_session_ends : Event
  ctrl_c : Event

-- `HostDaemon::run` up to the loops; the argument is `enable_discovery`.
unfoldable pub start : Bool → Daemon
start enable_discovery = record {
  session_active = false;
  state = idle;
  switch_cooldown_ms = 0;
  watcher = at_head;
  acceptor = accepting;
  discovery = enable_discovery;
  tcp_sessions = 0;
  usb_sessions = 0;
}

-- The `match` at the head of the watcher's loop. The waiting time is counted behind the sleep.
unfoldable pub at_loop_head : UsbState → Daemon → Daemon
at_loop_head idle d =
    if d.session_active
    then d
    else if ltb 0 d.switch_cooldown_ms
    then record d { switch_cooldown_ms = d.switch_cooldown_ms - 500 }
    else record d { watcher = looking }
at_loop_head (waiting_for_accessory waited_ms) d = record d {
  state = waiting_for_accessory ((waited_ms + 500) % 2 ^ 32);
  watcher = polling;
}
at_loop_head connected d =
    if d.session_active then d else record d { state = idle; switch_cooldown_ms = 2000 }

-- An accessory was opened: the flag is set and the session spawned.
unfoldable pub connect : Daemon → Daemon
connect d = record d {
  session_active = true;
  usb_sessions = suc d.usb_sessions;
  state = connected;
  watcher = at_head;
}

-- No accessory while waiting for one: after 8 s the watcher gives up.
unfoldable pub give_up : UsbState → Daemon → Daemon
give_up (waiting_for_accessory waited_ms) d =
    if ltb 8000 waited_ms
    then record d { state = idle; switch_cooldown_ms = 5000; watcher = at_head }
    else record d { watcher = at_head }
give_up _ d = record d { watcher = at_head }

unfoldable pub on_found : WatcherPoint → Bool → Daemon → Daemon
unfolding connect give_up
on_found looking true d = connect d
on_found looking false d = record d { watcher = scanning }
on_found polling true d = connect d
on_found polling false d = give_up d.state d
on_found _ _ d = d

unfoldable pub on_switched : WatcherPoint → Bool → Daemon → Daemon
on_switched scanning true d = record d { state = waiting_for_accessory 0; watcher = at_head }
on_switched scanning false d = record d { watcher = at_head }
on_switched _ _ d = d

unfoldable pub on_wake : WatcherPoint → Daemon → Daemon
unfolding at_loop_head
on_wake at_head d = at_loop_head d.state d
on_wake _ d = d

-- The accept loop: a connection is dropped while a session is active.
unfoldable pub on_connection : AcceptPoint → Daemon → Daemon
on_connection accepting d = if d.session_active then d else record d { acceptor = claiming }
on_connection _ d = d

unfoldable pub on_claim : AcceptPoint → Daemon → Daemon
on_claim claiming d = record d {
  session_active = true;
  tcp_sessions = suc d.tcp_sessions;
  acceptor = accepting;
}
on_claim _ d = d

-- `break` out of the accept loop, and `disc.stop()`.
unfoldable pub on_ctrl_c : AcceptPoint → Daemon → Daemon
on_ctrl_c accepting d = record d { acceptor = stopped; discovery = false }
on_ctrl_c _ d = d

unfoldable pub end_tcp : ℕ → Daemon → Daemon
end_tcp (suc n) d = record d { session_active = false; tcp_sessions = n }
end_tcp zero d = d

unfoldable pub end_usb : ℕ → Daemon → Daemon
end_usb (suc n) d = record d { session_active = false; usb_sessions = n }
end_usb zero d = d

-- An event that no task waits for changes nothing.
unfoldable pub step : Daemon → Event → Daemon
unfolding on_wake on_found on_switched on_connection on_claim on_ctrl_c end_tcp end_usb
step d wake = on_wake d.watcher d
step d (accessory_found found) = on_found d.watcher found d
step d (switch_initiated switched) = on_switched d.watcher switched d
step d connection = on_connection d.acceptor d
step d accept_error = d
step d claim = on_claim d.acceptor d
step d tcp_session_ends = end_tcp d.tcp_sessions d
step d usb_session_ends = end_usb d.usb_sessions d
step d ctrl_c = on_ctrl_c d.acceptor d

unfoldable pub run : Daemon → List Event → Daemon
run d [] = d
run d (e ∷ es) = run (step d e) es
