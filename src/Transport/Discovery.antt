-- ===== src/Transport/Discovery.antt =====
-- host/src/transport/discovery.rs: the beacon and the tasks that broadcast it. The name of the host,
-- serde_json and the sockets are parameters: their answers are arguments. An event is a call on the
-- broadcaster, or the end of a wait of one of its tasks, which then runs to its next wait.
pub mod Broadcast
pub mod Stopping
mod Tests
use ord.Prelude.{
  ℕ, zero, suc, List, [], ◌∷◌, ◌++◌, Bool, true, false, Option, none, some, if◌then◌else◌,
}
use Prim.Native.String.{String}

pub record DiscoveryBeacon : Type 0 where
  pub magic : String
  pub version : ℕ  -- u32
  pub hostname : String
  pub port : ℕ  -- u16
  pub supported_codecs : List String
  pub auth_required : Bool

-- The beacon of one turn of the loop.
abbrev pub beacon_of : String → ℕ → DiscoveryBeacon
beacon_of host_name tcp_port = record {
  magic = "ORD_DISCOVERY";
  version = 1;
  hostname = host_name;
  port = tcp_port;
  supported_codecs = "h264" ∷ [];
  auth_required = false;
}

-- What the broadcaster keeps; its tasks share the flag.
pub record DiscoveryBroadcaster : Type 0 where
  pub port : ℕ  -- u16
  pub tcp_port : ℕ  -- u16
  pub is_running : Bool

unfoldable pub new_broadcaster : ℕ → ℕ → DiscoveryBroadcaster
new_broadcaster discovery_port tcp_port = record {
  port = discovery_port;
  tcp_port = tcp_port;
  is_running = false;
}

-- A task waits for its socket, for `send_to`, or for the end of its sleep, or has returned.
pub data Task : Type 0 where
  binding : Task
  -- the name of the host, and the payload on its way
  sending : String → List ℕ → Task
  sleeping : String → Task
  returned : Task

-- What a wait gives. `hostname::get` answers behind the socket; the flag of `sent` says whether the
-- datagram left.
pub data Wake : Type 0 where
  bound : Option String → Wake
  bind_failed : Wake
  sent : Bool → Wake
  slept : Wake

-- A datagram to the broadcast address, with its port.
pub record Datagram : Type 0 where
  pub target_port : ℕ  -- u16
  pub payload : List ℕ

pub record Discovery : Type 0 where
  pub broadcaster : DiscoveryBroadcaster
  pub tasks : List Task
  pub datagrams : List Datagram

pub data Event : Type 0 where
  start stop : Event
  wake : ℕ → Wake → Event

abbrev pub name_or_default : Option String → String
name_or_default (some name) = name
name_or_default none = "ORD-Host"

abbrev pub left : Bool → ℕ → List ℕ → List Datagram
left true port payload = record { target_port = port; payload = payload } ∷ []
left false port payload = []

module _ (to_vec : DiscoveryBeacon → Option (List ℕ)) where
  abbrev pub send_or_sleep : String → Option (List ℕ) → Task
  send_or_sleep host_name (some payload) = sending host_name payload
  send_or_sleep host_name none = sleeping host_name

  -- The head of the loop, to the next wait.
  unfoldable pub loop_head : DiscoveryBroadcaster → String → Task
  loop_head b host_name =
      if b.is_running
      then send_or_sleep host_name (to_vec (beacon_of host_name b.tcp_port))
      else returned

  -- One task goes on: where it waits next, and the datagrams that left. A wait that the task is not in
  -- changes nothing.
  unfoldable pub resume : DiscoveryBroadcaster → Task → Wake → Task × List Datagram
  unfolding loop_head
  resume b binding (bound name) = (loop_head b (name_or_default name), [])
  resume b binding bind_failed = (returned, [])
  resume b (sending host_name payload) (sent ok) = (sleeping host_name, left ok b.port payload)
  resume b (sleeping host_name) slept = (loop_head b host_name, [])
  resume b t _ = (t, [])

  unfoldable pub resume_at : DiscoveryBroadcaster → List Task → ℕ → Wake → List Task × List Datagram
  unfolding resume
  resume_at b [] i w = ([], [])
  resume_at b (t ∷ ts) zero w = let (t', out) = resume b t w in (t' ∷ ts, out)
  resume_at b (t ∷ ts) (suc i) w = let (ts', out) = resume_at b ts i w in (t ∷ ts', out)

  -- `start` spawns a task, whatever tasks there are; `stop`, which `drop` calls too, clears the flag.
  unfoldable pub discovery_step : Discovery → Event → Discovery
  unfolding resume_at
  discovery_step d start = record d {
    broadcaster = record d.broadcaster { is_running = true };
    tasks = d.tasks ++ binding ∷ [];
  }
  discovery_step d stop = record d { broadcaster = record d.broadcaster { is_running = false } }
  discovery_step d (wake i w) =
      let (tasks, out) = resume_at d.broadcaster d.tasks i w in
      record d { tasks = tasks; datagrams = d.datagrams ++ out }

  unfoldable pub discovery_run : Discovery → List Event → Discovery
  unfolding discovery_step
  discovery_run d [] = d
  discovery_run d (e ∷ es) = discovery_run (discovery_step d e) es

-- A broadcaster as it is made, before any call.
unfoldable pub made : ℕ → ℕ → Discovery
unfolding new_broadcaster
made discovery_port tcp_port = record {
  broadcaster = new_broadcaster discovery_port tcp_port;
  tasks = [];
  datagrams = [];
}
