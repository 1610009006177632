-- ===== src/Cli/Tests.antt =====
-- Runs of the commands of host/src/main.rs.
use ord.Prelude.{
  ℕ, ◌≡◌, refl, sym, subst, List, [], ◌∷◌, true, false, Option, none, some, ◌==◌, if◌then◌else◌,
  Bool-cases, inl, inr, arith,
}
use Prim.Native.String.{String}
use text.Mathlib.Text.{◌==◌ as str_eq}
use text.Mathlib.TextEquality.{eq_iff}
use ord.Config.{Config, default, save, wrote}
use ord.Cli.{Commands, main, run_daemon, start_config}
use ord.Cli.Overrides.{saved, started, start_forgets}
use ord.Transport.Discovery.{
  DiscoveryBeacon, beacon_of, bound, sent, slept, Event, start, wake, discovery_run, made,
}
use ord.Cli.Hosts.{Received, datagram, timed_out, contains, key, list_hosts, search, no_hosts}
use ord.Cli.Hosts.Found.{printed_by, announced, search-announced}
use ord.Cli
use ord.Daemon.Services.{broadcasts}
use ord.Cli.Hosts.Started.{broadcast_by, start-found}
use ord.Cli.Hosts.Lan.{arrivals, hosts-misses}
use ord.Cli.Hosts.Order.{printed_by-Perm}
use mathlib.Core.List.{Permᴰ}

-- Two configurations are told apart by their port.
abbrev print : Config ℕ → Option String
print c = if c.server.port == 9090 then some "default" else some "other"

abbrev other : Config ℕ
other = start_config 7000 "127.0.0.1" "software" 5000 (default 1)

abbrev parse : String → Option (Config ℕ)
parse text = if str_eq text "default" then some (default 1) else some other

-- `start --port 8000`
abbrev with_port : Option Commands
with_port = some (Cli.start 8000 "0.0.0.0" false "auto" 15000)

start_forgets_example :
    started 1 parse print with_port (saved 1 parse print true wrote (default 1) none)
    ≡ started 1 parse print with_port (saved 1 parse print true wrote other (some "old"))
unfolding save
start_forgets_example =
    start_forgets 1 parse print with_port 8000 "0.0.0.0" false "auto" 15000 7000 "127.0.0.1"
      "software" 5000 (default 1) true true wrote wrote none (some "old") refl
      (λ t e. parse_default t e) (λ t e. parse_other t e) refl refl
  where
    parse_default : (t : String) → print (default 1) ≡ some t → parse t ≡ some (default 1)
    parse_default t e =
        let same : "default" ≡ t = cc in subst (λ s. parse s ≡ some (default 1)) same refl

    parse_other : (t : String) → print other ≡ some t → parse t ≡ some other
    parse_other t e = let same : "other" ≡ t = cc in subst (λ s. parse s ≡ some other) same refl

the_key : key "192.168.1.7" 9090 ≡ "192.168.1.7:9090"
the_key = refl

-- Only the beacon of "desk" is printed, as the empty payload.
abbrev to_vec : DiscoveryBeacon → Option (List ℕ)
to_vec b = if str_eq b.hostname "desk" then some [] else none

abbrev from_slice : List ℕ → Option DiscoveryBeacon
from_slice [] = some (beacon_of "desk" 9090)
from_slice (x ∷ xs) = none

abbrev traffic : List (ℕ × Received)
traffic =
    (0, datagram "192.168.1.7" [])
    ∷ (100000000, datagram "192.168.1.9" (1 ∷ []))
    ∷ (200000000, datagram "192.168.1.7" [])
    ∷ (700000000, timed_out)
    ∷ (3000000000, datagram "192.168.1.8" [])
    ∷ []

traffic_prints : printed_by from_slice 3 traffic ≡ "192.168.1.7:9090" ∷ []
unfolding search
traffic_prints = refl

silence : list_hosts from_slice 3 ((0, timed_out) ∷ (3000000000, timed_out) ∷ []) ≡ no_hosts ∷ []
unfolding list_hosts
silence = refl

search-announced_example :
    contains (printed_by from_slice 3 traffic) "192.168.1.8:9090"
    ≡ contains (announced from_slice 3 traffic) "192.168.1.8:9090"
search-announced_example = search-announced from_slice 3 traffic "192.168.1.8:9090"

-- Two datagrams in time.
abbrev desk_first : List (ℕ × Received)
desk_first = (0, datagram "192.168.1.7" []) ∷ (100000000, datagram "192.168.1.9" (1 ∷ [])) ∷ []

abbrev desk_last : List (ℕ × Received)
desk_last = (100000000, datagram "192.168.1.9" (1 ∷ [])) ∷ (0, datagram "192.168.1.7" []) ∷ []

printed_by-Perm_example :
    contains (printed_by from_slice 3 desk_first) "192.168.1.7:9090"
    ≡ contains (printed_by from_slice 3 desk_last) "192.168.1.7:9090"
printed_by-Perm_example =
    printed_by-Perm from_slice 3 desk_first desk_last "192.168.1.7:9090" ∣ Permᴰ.swap refl refl ∣₁
      (refl, (refl, tt)) (refl, (refl, tt))

-- A host that has sent two beacons.
abbrev host : List Event
host =
    start
    ∷ wake 0 (bound (some "desk"))
    ∷ wake 0 (sent true)
    ∷ wake 0 slept
    ∷ wake 0 (sent true)
    ∷ []

to_vec_read_back :
    (name : String) (bytes : List ℕ)
    → to_vec (beacon_of name 9090) ≡ some bytes
    → from_slice bytes ≡ some (beacon_of name 9090)
to_vec_read_back name bytes e = elim (Bool-cases (str_eq name "desk")) [
  | inl desk ↦
      let same : name ≡ "desk" = (eq_iff name "desk").0 desk in
      let empty : [] ≡ bytes = ground (arith, e, desk) in
      subst (λ bs. from_slice bs ≡ some (beacon_of name 9090)) empty
        (subst (λ s. some (beacon_of "desk" 9090) ≡ some (beacon_of s 9090)) (sym same) refl)
  | inr guest ↦ absurd (ground (arith, e, guest))
]

hosts-misses_example :
    printed_by from_slice 3 (
      arrivals "192.168.1.7"
        (discovery_run to_vec (made 9191 9090) host).datagrams
        ((0, 0) ∷ (900000000, 1) ∷ []))
    ≡ []
hosts-misses_example =
    hosts-misses to_vec from_slice 9090 host "192.168.1.7" 9191 3 ((0, 0) ∷ (900000000, 1) ∷ [])
      (λ e. absurd (omega (arith, e)))

-- The daemon of `ord start --port 9090` on a machine without a configuration file.
abbrev desk_events : List Event
desk_events =
    wake 0 (bound (some "desk")) ∷ wake 0 (sent true) ∷ wake 0 slept ∷ wake 0 (sent true) ∷ []

start-found_example :
    contains
      (printed_by from_slice 3 (
        arrivals "192.168.1.7"
          (broadcast_by 1 parse to_vec from_slice
            (main 1 parse (some (Cli.start 9090 "0.0.0.0" false "auto" 15000)) false none)
            desk_events)
          ((0, 5) ∷ (900000000, 1) ∷ [])))
      "192.168.1.7:9090"
    ≡ true
unfolding main broadcasts discovery_run made
start-found_example =
    start-found 1 parse to_vec from_slice false none 9090 "0.0.0.0" "auto" false 15000 desk_events
      "192.168.1.7" 3 900000000 1 (record { target_port = 9091; payload = [] }) ((0, 5) ∷ []) []
      refl refl to_vec_read_back refl (omega arith) (refl, tt) refl
