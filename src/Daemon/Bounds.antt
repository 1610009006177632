-- ===== src/Daemon/Bounds.antt =====
-- The timers of the USB watcher (host/src/daemon.rs) stay small, so that its u32 counters never wrap.
use ord.Prelude.{◌≤◌, List, [], ◌∷◌, Bool, arith}
use ord.Daemon.{
  UsbState, waiting_for_accessory, WatcherPoint, polling, Daemon, Event, start, step, run,
}

abbrev pub WaitsAtMost : WatcherPoint → UsbState → Type 0
WaitsAtMost polling (waiting_for_accessory waited_ms) = waited_ms ≤ 8500
WaitsAtMost _ (waiting_for_accessory waited_ms) = waited_ms ≤ 8000
WaitsAtMost _ _ = Unit {0}

pub record IsBounded (d : Daemon) : Type 0 where
  pub waited : WaitsAtMost d.watcher d.state
  pub cooldown : d.switch_cooldown_ms ≤ 5000

step-IsBounded : (d : Daemon) (e : Event) → IsBounded d → IsBounded (step d e)
unfolding step
step-IsBounded d e h = ground arith

run-IsBounded : (d : Daemon) (es : List Event) → IsBounded d → IsBounded (run d es)
unfolding run
run-IsBounded d [] h = h
run-IsBounded d (e ∷ es) h = run-IsBounded (step d e) es (step-IsBounded d e h)

-- After any events, the watcher has waited for an accessory at most 8.5 s, and has to cool down for
-- at most 5 s.
pub timers-IsBounded : (discovery : Bool) (es : List Event) → IsBounded (run (start discovery) es)
unfolding start
timers-IsBounded discovery es = run-IsBounded (start discovery) es (omega arith)
