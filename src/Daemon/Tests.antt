-- ===== src/Daemon/Tests.antt =====
-- Runs of the tasks of host/src/daemon.rs.
use ord.Prelude.{ℕ, ◌≤◌, ◌≡◌, ◌↔◌, refl, List, [], ◌∷◌, Bool, true, false, not, Option, none, some}
use Prim.Native.String.{String}
use text.Mathlib.Text.{◌==◌ as str_eq}
use ord.Config.{default}
use ord.Transport.Discovery
use ord.Transport.Discovery.{DiscoveryBeacon, Discovery, bound}
use ord.Transport.Tcp.Server.{failed_to_bind}
use ord.Daemon.Services.{HostDaemon, new_daemon, refused, start_up}
use ord.Daemon.Refused.{OneMore, start_up-refused}
use ord.Daemon.{
  idle, waiting_for_accessory, at_head, scanning, polling, accepting, Daemon, Event, wake,
  accessory_found, switch_initiated, connection, claim, usb_session_ends, start, step, run,
}
use ord.Daemon.Guard.{IsGuarded, one_usb_session, guard_overtaken}
use ord.Daemon.Held.{held}
use ord.Daemon.Freed.{Together, ending, Moves, is_active, daemon_freed}
use ord.Session.Shutdown.{Shutdown, closing, reading, receiving, writing}
use ord.Session.Shutdown.Backlog.{backlog}
use ord.Daemon.Timing.{polls, waiting_ends}

-- A phone is switched to accessory mode, and a tablet connects over TCP before it comes back.
abbrev switching : List Event
switching = wake ∷ accessory_found false ∷ switch_initiated true ∷ connection ∷ claim ∷ wake ∷ []

abbrev overtaken : Daemon
overtaken = record {
  session_active = true;
  state = waiting_for_accessory 500;
  switch_cooldown_ms = 0;
  watcher = polling;
  acceptor = accepting;
  discovery = true;
  tcp_sessions = 1;
  usb_sessions = 0;
}

overtaken_reached : run (start true) switching ≡ overtaken
unfolding run step start
overtaken_reached = refl

guard_overtaken_example :
    let found = step overtaken (accessory_found true) in
    let after = run found (usb_session_ends ∷ connection ∷ claim ∷ []) in
    (found.tcp_sessions ≡ 1) × (found.usb_sessions ≡ 1) × (after.tcp_sessions ≡ 2)
guard_overtaken_example = guard_overtaken overtaken refl refl

one_usb_session_example : IsGuarded (run (start true) (wake ∷ accessory_found true ∷ wake ∷ []))
one_usb_session_example =
    one_usb_session true (wake ∷ accessory_found true ∷ wake ∷ []) (tt, (tt, (tt, tt)))

abbrev at_switch : Daemon
at_switch = record {
  session_active = false;
  state = idle;
  switch_cooldown_ms = 0;
  watcher = scanning;
  acceptor = accepting;
  discovery = true;
  tcp_sessions = 0;
  usb_sessions = 0;
}

waiting_ends_example :
    let d' = run at_switch (switch_initiated true ∷ polls 17) in
    (d'.watcher ≡ at_head) × (d'.state ≡ idle) × (d'.switch_cooldown_ms ≡ 5000)
waiting_ends_example = waiting_ends at_switch refl

abbrev paused : Daemon
paused = record at_switch { watcher = at_head; switch_cooldown_ms = 2000 }

-- A tablet is plugged in, and then nobody else gets in.
held_reached : run (start true) (wake ∷ accessory_found true ∷ []) ≡ held 0 accepting true 0 1
unfolding run step start
held_reached = refl

-- The session has left its loop, and the write worker writes the last packet.
abbrev last_write : Shutdown
last_write = record {
  main = closing;
  reader = reading [];
  writer = writing;
  is_closed = false;
  in_room = 120;
  out_queue = 0;
}

daemon_freed_example :
    ((b : Together) × Moves (ending last_write (held 0 accepting true 0 1)) b
      × (is_active b ≡ false))
    ↔ ((backlog last_write.reader ≤ last_write.in_room)
        × (¬ ((last_write.writer ≡ receiving) × (last_write.out_queue ≡ 0))))
daemon_freed_example = daemon_freed last_write 0 true 0 refl

-- The default port is taken.
abbrev refusing : String → Bool
refusing addr = not (str_eq addr "0.0.0.0:9090")

abbrev default_daemon : HostDaemon ℕ
default_daemon = new_daemon (default 1) false

abbrev port_only : DiscoveryBeacon → Option (List ℕ)
port_only b = some (b.port ∷ [])

-- The first beacon is on its way when the listener is refused.
abbrev until_refused : List Discovery.Event
until_refused = Discovery.wake 0 (bound none) ∷ []

-- It leaves, and the loop finds the flag cleared.
abbrev after_refused : List Discovery.Event
after_refused = Discovery.wake 0 (Discovery.sent true) ∷ Discovery.wake 0 Discovery.slept ∷ []

start_up-refused_example :
    (discovery : Option Discovery) × (start_up port_only refusing default_daemon until_refused
      ≡ refused (failed_to_bind "0.0.0.0:9090") discovery)
    × OneMore port_only after_refused discovery
start_up-refused_example =
    start_up-refused port_only refusing default_daemon until_refused after_refused refl (tt, tt)
      (tt, (tt, tt))
