-- ===== src/Cli/Hosts.antt =====
-- host/src/main.rs, the command `hosts`: the loop that listens for beacons. What the socket answers, and
-- the time at the head of each turn, in nanoseconds, are arguments; serde_json is a parameter.
pub mod Found
pub mod Lan
pub mod Started
pub mod Order
use ord.Prelude.{
  ℕ, zero, suc, ◌*◌, ◌/◌, ◌%◌, List, [], ◌∷◌, ◌++◌, Bool, true, false, ◌||◌, ◌&&◌, not, Option,
  none, some, ltb, if◌then◌else◌, take, map,
}
use text.Mathlib.Text.{◌==◌ as str_eq}
use Prim.Native.String.{String, ◌++◌ as str_append}
use ord.Address.{address}
use ord.Transport.Discovery.{DiscoveryBeacon}

abbrev pub hosts_port : ℕ
hosts_port = 9091

-- What `recv_from` gives within 500 ms: the sender's address, as it is printed, and the payload.
pub data Received : Type 0 where
  datagram : String → List ℕ → Received
  receive_error timed_out : Received

-- `format!("{}:{}", addr.ip(), beacon.port)`
abbrev pub key : String → ℕ → String
key ip port = address ip port

abbrev pub contains : List String → String → Bool
contains [] x = false
contains (y ∷ ys) x = str_eq y x || contains ys x

pub record FoundHost : Type 0 where
  pub ip : String
  pub beacon : DiscoveryBeacon

abbrev pub key_of : FoundHost → String
key_of h = key h.ip h.beacon.port

-- The set `found_hosts`, as it grew, and the hosts that were printed.
pub record Listener : Type 0 where
  pub found_hosts : List String
  pub printed : List FoundHost

-- `HashSet::insert`, and the line that is printed where it is new
abbrev pub insert : FoundHost → Listener → Listener
insert h l =
    if contains l.found_hosts (key_of h)
    then l
    else record { found_hosts = l.found_hosts ++ key_of h ∷ []; printed = l.printed ++ h ∷ [] }

abbrev pub on_beacon : String → Option DiscoveryBeacon → Listener → Listener
on_beacon ip none l = l
on_beacon ip (some beacon) l =
    if str_eq beacon.magic "ORD_DISCOVERY"
    then insert (record { ip = ip; beacon = beacon }) l
    else l

-- The loop is over, or waits for the socket.
pub data Search : Type 0 where
  finished listening : Listener → Search

pub data Line : Type 0 where
  found_host : FoundHost → Line
  no_hosts : Line

module _ (from_slice : List ℕ → Option DiscoveryBeacon) where
  -- The buffer takes 4096 bytes of a datagram.
  unfoldable pub receive : Received → Listener → Listener
  receive (datagram ip payload) l = on_beacon ip (from_slice (take 4096 payload)) l
  receive receive_error l = l
  receive timed_out l = l

  unfoldable pub search : ℕ → List (ℕ × Received) → Listener → Search
  unfolding receive
  search timeout [] l = listening l
  search timeout ((elapsed, r) ∷ rs) l =
      if ltb elapsed (timeout * 1000000000) then search timeout rs (receive r l) else finished l

  abbrev pub report : List FoundHost → Bool → List Line
  report [] true = no_hosts ∷ []
  report hs _ = map found_host hs

  -- What is printed: a line for each host, and at the end one if there is none.
  abbrev pub lines_of : Search → List Line
  lines_of (finished l) = report l.printed true
  lines_of (listening l) = report l.printed false

  unfoldable pub list_hosts : ℕ → List (ℕ × Received) → List Line
  unfolding search
  list_hosts timeout rs = lines_of (search timeout rs (record { found_hosts = []; printed = [] }))
