-- ===== src/Transport/Usb.antt =====
-- host/src/transport/usb.rs: the accessory's stream, the switch of a device into accessory mode, and
-- the search for devices. libusb is a parameter: its answers are arguments.
pub mod Stream
pub mod Scan
mod Control
pub mod Accessory
mod Tests
use ord.Prelude.{
  ℕ, zero, suc, ◌+◌, ◌*◌, List, [], ◌∷◌, ◌++◌, Bool, true, false, ◌||◌, ◌&&◌, not, Option, none,
  some, Result, ok, err, ◌==◌, ltb, if◌then◌else◌, length, take, drop,
}
use ord.Bytes.{read_u16}
use Prim.Native.String.{String}

-- What `write_bulk` and `read_bulk` give within their time-out.
pub data BulkWrite : Type 0 where
  wrote : ℕ → BulkWrite
  timed_out broken : BulkWrite

pub data BulkRead : Type 0 where
  brought : List ℕ → BulkRead
  timed_out broken : BulkRead

pub data UsbError : Type 0 where
  connection_closed bulk_write bulk_read : UsbError

-- A call returns, with the flag `is_closed` as it leaves it and the bytes that it put on the bus; or it
-- is in its loop still.
pub data Written : Type 0 where
  returned : Result UsbError (Unit {0}) → Bool → List ℕ → Written
  writing : List ℕ → Written

abbrev pub after : List ℕ → Written → Written
after front (returned r is_closed bytes) = returned r is_closed (front ++ bytes)
after front (writing bytes) = writing (front ++ bytes)

-- The loop of `write_packet_sync` over what is left of `data`.
unfoldable pub write_rest : List ℕ → List BulkWrite → Written
write_rest [] answers = returned (ok tt) false []
write_rest (b ∷ bs) [] = writing []
write_rest (b ∷ bs) (wrote n ∷ answers) =
    after (take n (b ∷ bs)) (write_rest (drop n (b ∷ bs)) answers)
write_rest (b ∷ bs) (BulkWrite.timed_out ∷ answers) = write_rest (b ∷ bs) answers
write_rest (b ∷ bs) (BulkWrite.broken ∷ answers) = returned (err bulk_write) true []

-- `UsbAccessoryStream::write_packet_sync`; the flag is `is_closed`.
unfoldable pub write_packet_sync : Bool → List ℕ → List BulkWrite → Written
unfolding write_rest
write_packet_sync is_closed bytes answers =
    if is_closed then returned (err connection_closed) true [] else write_rest bytes answers

-- `UsbAccessoryStream::read_packet_sync`: the result, and `is_closed`; `none` while it waits. An
-- answer comes with the flag as it is at the head of that turn.
unfoldable pub read_packet_sync :
    Bool → List (Bool × BulkRead) → Option (Result UsbError (List ℕ) × Bool)
read_packet_sync true answers = some (err connection_closed, true)
read_packet_sync false [] = none
read_packet_sync false ((true, _) ∷ answers) = some (err connection_closed, true)
read_packet_sync false ((false, brought bytes) ∷ answers) = some (ok bytes, false)
read_packet_sync false ((false, BulkRead.timed_out) ∷ answers) = read_packet_sync false answers
read_packet_sync false ((false, BulkRead.broken) ∷ answers) = some (err bulk_read, true)

pub record DeviceDescriptor : Type 0 where
  pub vendor_id : ℕ  -- u16
  pub product_id : ℕ  -- u16

abbrev pub google_vid : ℕ
google_vid = 0x18d1

abbrev pub accessory_pids : List ℕ
accessory_pids = 0x2d00 ∷ 0x2d01 ∷ 0x2d02 ∷ 0x2d03 ∷ 0x2d04 ∷ 0x2d05 ∷ []

abbrev pub known_android_vids : List ℕ
known_android_vids =
    0x04e8 ∷ 0x18d1 ∷ 0x2717 ∷ 0x12d1 ∷ 0x05c6 ∷ 0x0fce ∷ 0x22d9 ∷ 0x1ebf ∷ 0x17ef ∷ 0x0bb4 ∷ 0x22b8
    ∷ []

abbrev pub contains : List ℕ → ℕ → Bool
contains [] x = false
contains (y ∷ ys) x = y == x || contains ys x

unfoldable pub is_accessory_device : DeviceDescriptor → Bool
is_accessory_device desc =
    if desc.vendor_id == google_vid then contains accessory_pids desc.product_id else false

unfoldable pub is_candidate_android_device : DeviceDescriptor → Bool
is_candidate_android_device desc = contains known_android_vids desc.vendor_id

-- The control transfers of `do_aoa_switch`.
pub data Request : Type 0 where
  get_protocol : Request
  send_string : ℕ → String → Request
  start_accessory : Request

abbrev pub identification : List (ℕ × String)
identification =
    (0, "ORD")
    ∷ (1, "OpenRemoteDisplay")
    ∷ (2, "OpenRemoteDisplay Virtual Monitor Host")
    ∷ (3, "1.0.0")
    ∷ (4, "https://github.com/debarkak/ord")
    ∷ (5, "ORD-VIRTUAL-001")
    ∷ []

-- `send_str` with `?`, one string after the other: how many the device takes is its answer. The result
-- is `none` for an error.
unfoldable pub send_strings : List (ℕ × String) → ℕ → List Request × Option Bool
send_strings [] accepts = (start_accessory ∷ [], some true)
send_strings ((index, text) ∷ rest) zero = (send_string index text ∷ [], none)
send_strings ((index, text) ∷ rest) (suc accepts) =
    let (requests, r) = send_strings rest accepts in (send_string index text ∷ requests, r)

-- `do_aoa_switch`: the answer to the protocol query, if there is one, and the strings taken.
unfoldable pub do_aoa_switch : Option (List ℕ) → ℕ → List Request × Option Bool
unfolding send_strings read_u16
do_aoa_switch none accepts = (get_protocol ∷ [], some false)
do_aoa_switch (some answer) accepts = elim (read_u16 answer) [
  | none ↦ (get_protocol ∷ [], some false)
  | some (protocol_version, _) ↦
      let (requests, r) = send_strings identification accepts in
      if ltb protocol_version 1
      then (get_protocol ∷ [], some false)
      else (get_protocol ∷ requests, r)
]

-- The commands that `switch_via_adb` runs, from the output of `adb devices`, if it can be run: a tab
-- stands in front of the state of each device. It gives up in any case.
abbrev pub switch_via_adb : Option (List ℕ) → List String × Option Bool
switch_via_adb none = ("adb devices" ∷ [], some false)
switch_via_adb (some out) = (
  if contains out 9 then "adb devices" ∷ "adb wait-for-device" ∷ [] else "adb devices" ∷ [],
  some false,
)

-- What a device answers: its descriptor, the opening of it for a switch, and whether
-- `open_accessory` succeeds. An opened device answers the protocol query and takes some strings;
-- where access is denied, `adb devices` may print something.
pub data Opening : Type 0 where
  opened : Option (List ℕ) → ℕ → Opening
  access_denied : Option (List ℕ) → Opening
  failed : Opening

pub record Device : Type 0 where
  pub descriptor : Option DeviceDescriptor
  pub opening : Opening
  pub opens_as_accessory : Bool

-- `device.open()` and what follows. Where access is denied, `switch_via_adb` is tried, which makes no
-- transfer.
abbrev pub switch_opened : Opening → List Request × Option Bool
switch_opened (opened answer accepts) = do_aoa_switch answer accepts
switch_opened (access_denied out) = ([], (switch_via_adb out).1)
switch_opened failed = ([], some false)

-- `switch_to_accessory`, for a device with this descriptor
unfoldable pub switch_to_accessory : DeviceDescriptor → Opening → List Request × Option Bool
unfolding is_accessory_device is_candidate_android_device do_aoa_switch
switch_to_accessory desc opening =
    if is_accessory_device desc
    then ([], some false)
    else if not (is_candidate_android_device desc)
    then ([], some false)
    else switch_opened opening

-- The transfers to each device that is tried, and the result.
abbrev pub or_go_on :
    DeviceDescriptor
    → List Request × Option Bool
    → List (DeviceDescriptor × List Request) × Bool
    → List (DeviceDescriptor × List Request) × Bool
or_go_on desc (requests, some true) rest = ((desc, requests) ∷ [], true)
or_go_on desc (requests, _) (tried, r) = ((desc, requests) ∷ tried, r)

-- One turn of the scan, with what the rest of it gives.
abbrev pub scan_device :
    Option DeviceDescriptor
    → Opening
    → List (DeviceDescriptor × List Request) × Bool
    → List (DeviceDescriptor × List Request) × Bool
scan_device none opening rest = rest
scan_device (some desc) opening rest =
    if is_accessory_device desc
    then ([], false)
    else if not (is_candidate_android_device desc)
    then rest
    else or_go_on desc (switch_to_accessory desc opening) rest

-- `scan_and_switch_any`, over the list of devices
unfoldable pub scan_and_switch_any : List Device → List (DeviceDescriptor × List Request) × Bool
unfolding switch_to_accessory
scan_and_switch_any [] = ([], false)
scan_and_switch_any (device ∷ devices) =
    scan_device device.descriptor device.opening (scan_and_switch_any devices)

-- One turn of the search; a descriptor that cannot be read ends it.
abbrev pub open_device :
    Option DeviceDescriptor → Bool → Option DeviceDescriptor → Option DeviceDescriptor
open_device none opens rest = none
open_device (some desc) opens rest = if is_accessory_device desc && opens then some desc else rest

-- `find_and_open_accessory`: the descriptor of the device that is opened.
unfoldable pub find_and_open_accessory : List Device → Option DeviceDescriptor
unfolding is_accessory_device
find_and_open_accessory [] = none
find_and_open_accessory (device ∷ devices) =
    open_device device.descriptor device.opens_as_accessory (find_and_open_accessory devices)
