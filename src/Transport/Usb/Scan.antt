-- ===== src/Transport/Usb/Scan.antt =====
-- The search for devices and their switch into accessory mode (host/src/transport/usb.rs).
use ord.Prelude.{
  ℕ, zero, suc, ◌+◌, ◌≡◌, refl, inl, inr, List, [], ◌∷◌, ◌++◌, Bool, true, false, ◌&&◌, Bool-cases,
  Option, none, some, All, arith,
}
use Prim.Native.String.{String}
use ord.Transport.Usb.{
  Request, get_protocol, send_string, start_accessory, DeviceDescriptor, Device, Opening, opened,
  access_denied, failed, is_accessory_device, is_candidate_android_device, send_strings,
  do_aoa_switch, identification, switch_opened, switch_to_accessory, or_go_on, scan_and_switch_any,
  find_and_open_accessory, scan_device, open_device,
}

-- How many requests start the accessory mode.
abbrev pub starts : List Request → ℕ
starts [] = 0
starts (start_accessory ∷ requests) = suc (starts requests)
starts (get_protocol ∷ requests) = starts requests
starts (send_string _ _ ∷ requests) = starts requests

abbrev pub all_starts : List (DeviceDescriptor × List Request) → ℕ
all_starts [] = 0
all_starts ((_, requests) ∷ tried) = starts requests + all_starts tried

abbrev pub one_if : Option Bool → ℕ
one_if (some true) = 1
one_if _ = 0

send_strings-starts :
    (texts : List (ℕ × String)) (accepts : ℕ)
    → starts (send_strings texts accepts).0 ≡ one_if (send_strings texts accepts).1
unfolding send_strings
send_strings-starts [] accepts = refl
send_strings-starts ((index, string) ∷ rest) zero = refl
send_strings-starts ((index, string) ∷ rest) (suc accepts) = send_strings-starts rest accepts

do_aoa_switch-starts :
    (answer : Option (List ℕ)) (accepts : ℕ)
    → starts (do_aoa_switch answer accepts).0 ≡ one_if (do_aoa_switch answer accepts).1
unfolding do_aoa_switch
do_aoa_switch-starts none accepts = refl
do_aoa_switch-starts (some answer) accepts =
    ground (arith, send_strings-starts identification accepts)

-- Only devices that may be Android devices and are not in accessory mode are sent requests.
abbrev pub IsTried : DeviceDescriptor × List Request → Type 0
IsTried (desc, _) = (is_accessory_device desc ≡ false) × (is_candidate_android_device desc ≡ true)

abbrev IsScanned : List (DeviceDescriptor × List Request) × Bool → Type 0
IsScanned (tried, r) = All IsTried tried × (all_starts tried ≡ one_if (some r))

switch_to_accessory-starts :
    (desc : DeviceDescriptor) (opening : Opening)
    → starts (switch_to_accessory desc opening).0 ≡ one_if (switch_to_accessory desc opening).1
unfolding switch_to_accessory
switch_to_accessory-starts desc opening = elim (Bool-cases (is_accessory_device desc)) [
  | inl yes_accessory ↦ rw yes_accessory refl
  | inr no_accessory ↦ elim (Bool-cases (is_candidate_android_device desc)) [
    | inl candidate ↦ rw (no_accessory, candidate) (opened_starts opening)
    | inr unknown ↦ rw (no_accessory, unknown) refl
  ]
]
  where
    opened_starts : (o : Opening) → starts (switch_opened o).0 ≡ one_if (switch_opened o).1
    opened_starts (opened answer accepts) = do_aoa_switch-starts answer accepts
    opened_starts (access_denied none) = refl
    opened_starts (access_denied (some out)) = refl
    opened_starts failed = refl

or_go_on-IsScanned :
    (desc : DeviceDescriptor) (o : List Request × Option Bool)
    (rest : List (DeviceDescriptor × List Request) × Bool)
    → IsTried (desc, [])
    → starts o.0 ≡ one_if o.1
    → IsScanned rest
    → IsScanned (or_go_on desc o rest)
or_go_on-IsScanned desc (requests, some true) (tried, r) t s h = ((t, tt), omega (arith, s))
or_go_on-IsScanned desc (requests, some false) (tried, r) t s h = ((t, h.0), omega (arith, s, h.1))
or_go_on-IsScanned desc (requests, none) (tried, r) t s h = ((t, h.0), omega (arith, s, h.1))

scan_device-IsScanned :
    (descriptor : Option DeviceDescriptor) (opening : Opening)
    (rest : List (DeviceDescriptor × List Request) × Bool)
    → IsScanned rest
    → IsScanned (scan_device descriptor opening rest)
scan_device-IsScanned none opening rest h = h
scan_device-IsScanned (some desc) opening rest h = elim (Bool-cases (is_accessory_device desc)) [
  | inl found ↦ rw found (tt, refl)
  | inr other ↦ elim (Bool-cases (is_candidate_android_device desc)) [
    | inl candidate ↦
        rw (other, candidate)
          (or_go_on-IsScanned desc (switch_to_accessory desc opening) rest (other, candidate)
            (switch_to_accessory-starts desc opening) h)
    | inr unknown ↦ rw (other, unknown) h
  ]
]

-- The scan tries only devices that may be Android devices and are not in accessory mode; it starts the
-- accessory mode of one device if it returns true, and of none otherwise.
pub scan_and_switch_any-IsTried :
    (devices : List Device)
    → All IsTried (scan_and_switch_any devices).0
      × (all_starts (scan_and_switch_any devices).0 ≡ one_if (some (scan_and_switch_any devices).1))
unfolding scan_and_switch_any
scan_and_switch_any-IsTried [] = (tt, refl)
scan_and_switch_any-IsTried (device ∷ devices) =
    scan_device-IsScanned device.descriptor device.opening (scan_and_switch_any devices)
      (scan_and_switch_any-IsTried devices)

-- A device that is not in accessory mode, or does not open.
abbrev pub IsPassed : Device → Type 0
IsPassed device =
    (desc : DeviceDescriptor) × (device.descriptor ≡ some desc)
    × ((is_accessory_device desc && device.opens_as_accessory) ≡ false)

-- Behind such devices the next one decides: it is found if it is in accessory mode and opens, and if its
-- descriptor cannot be read, nothing is found, whatever stands behind it.
pub find_and_open_accessory-append :
    (front : List Device) (device : Device) (back : List Device)
    → All IsPassed front
    → find_and_open_accessory (front ++ device ∷ back)
      ≡ open_device device.descriptor device.opens_as_accessory (find_and_open_accessory back)
unfolding find_and_open_accessory
find_and_open_accessory-append [] device back h = refl
find_and_open_accessory-append (d ∷ front) device back h =
    rw (h.0.1, h.0.2) (find_and_open_accessory-append front device back h.1)
