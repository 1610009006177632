-- ===== src/Transport/Usb/Accessory.antt =====
-- host/src/transport/usb.rs, `open_accessory`: the endpoints of the accessory, the interface that is
-- claimed, and the stream. libusb's answers are arguments.
pub mod Endpoints
mod Tests
use ord.Prelude.{
  ℕ, List, [], ◌∷◌, ◌++◌, Bool, true, false, ◌&&◌, not, Option, none, some, Result, ok, err,
  if◌then◌else◌,
}

pub record Endpoint : Type 0 where
  pub bulk : Bool
  pub direction_in : Bool
  pub address : ℕ  -- u8

pub record InterfaceDescriptor : Type 0 where
  pub interface_number : ℕ  -- u8
  pub endpoint_descriptors : List Endpoint

-- An interface with its settings; `kernel_driver_active` may fail.
pub record Interface : Type 0 where
  pub number : ℕ  -- u8
  pub kernel_driver_active : Option Bool
  pub descriptors : List InterfaceDescriptor

abbrev pub is_some {ℓ} : {A : Type ℓ} → Option A → Bool
is_some none = false
is_some (some a) = true

-- The variables of the search.
pub record Chosen : Type 0 where
  pub in_ep : Option ℕ
  pub out_ep : Option ℕ
  pub iface_to_claim : ℕ

unfoldable pub on_endpoint : ℕ → Endpoint → Chosen → Chosen
on_endpoint interface_number ep c =
    if ep.bulk
    then (if ep.direction_in && not (is_some c.in_ep)
        then record c { in_ep = some ep.address; iface_to_claim = interface_number }
        else if not ep.direction_in && not (is_some c.out_ep)
        then record c { out_ep = some ep.address }
        else c)
    else c

unfoldable pub on_endpoints : ℕ → List Endpoint → Chosen → Chosen
unfolding on_endpoint
on_endpoints interface_number [] c = c
on_endpoints interface_number (ep ∷ eps) c =
    on_endpoints interface_number eps (on_endpoint interface_number ep c)

abbrev pub both : Chosen → Bool
both c = is_some c.in_ep && is_some c.out_ep

-- The settings of an interface; the flag says that the outer loop is left.
unfoldable pub on_descriptors : List InterfaceDescriptor → Chosen → Bool × Chosen
unfolding on_endpoints
on_descriptors [] c = (false, c)
on_descriptors (d ∷ ds) c =
    let c' = on_endpoints d.interface_number d.endpoint_descriptors c in
    if both c' then (true, c') else on_descriptors ds c'

abbrev pub unless_left : Bool × Chosen → (Chosen → Chosen) → Chosen
unless_left (true, c) more = c
unless_left (false, c) more = more c

unfoldable pub on_interfaces : List Interface → Chosen → Chosen
unfolding on_descriptors
on_interfaces [] c = c
on_interfaces (i ∷ is) c = unless_left (on_descriptors i.descriptors c) (on_interfaces is)

abbrev pub nothing_chosen : Chosen
nothing_chosen = record { in_ep = none; out_ep = none; iface_to_claim = 0 }

-- `detach_kernel_driver` is called for these; what comes of it is ignored.
unfoldable pub detached : List Interface → List ℕ
detached [] = []
detached (i ∷ is) = elim (i.kernel_driver_active) [
  | some true ↦ i.number ∷ detached is
  | some false ↦ detached is
  | none ↦ detached is
]

pub data OpenError : Type 0 where
  cannot_open no_config no_bulk_in no_bulk_out : OpenError
  cannot_claim : ℕ → OpenError

-- `UsbAccessoryStream::new`, and the interface that the handle has claimed.
pub record AccessoryStream : Type 0 where
  pub claimed : ℕ
  pub in_endpoint : ℕ
  pub out_endpoint : ℕ
  pub is_closed : Bool

-- `UsbAccessoryStream::close`
abbrev pub close : AccessoryStream → AccessoryStream
close s = record s { is_closed = true }

abbrev pub claim : (ℕ → Bool) → ℕ → ℕ → ℕ → Result OpenError AccessoryStream
claim claims iface in_endpoint out_endpoint =
    if claims iface
    then ok (record {
      claimed = iface;
      in_endpoint = in_endpoint;
      out_endpoint = out_endpoint;
      is_closed = false;
    })
    else err (cannot_claim iface)

abbrev pub stream_on : (ℕ → Bool) → ℕ → Option ℕ → Option ℕ → Result OpenError AccessoryStream
stream_on claims iface none out_ep = err no_bulk_in
stream_on claims iface (some in_ep) none = err no_bulk_out
stream_on claims iface (some in_ep) (some out_ep) = claim claims iface in_ep out_ep

abbrev pub with_config :
    (ℕ → Bool) → Option (List Interface) → List ℕ × Result OpenError AccessoryStream
with_config claims none = ([], err no_config)
with_config claims (some interfaces) =
    let c = on_interfaces interfaces nothing_chosen in
    (detached interfaces, stream_on claims c.iface_to_claim c.in_ep c.out_ep)

-- `open_accessory`: whether the device opens, its active configuration, and which interfaces can be
-- claimed. The numbers are those whose driver is detached.
unfoldable pub open_accessory :
    Bool → Option (List Interface) → (ℕ → Bool) → List ℕ × Result OpenError AccessoryStream
unfolding on_interfaces detached
open_accessory opens config claims =
    if opens then with_config claims config else ([], err cannot_open)
