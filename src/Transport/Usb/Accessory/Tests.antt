-- ===== src/Transport/Usb/Accessory/Tests.antt =====
-- Accessories that `open_accessory` of host/src/transport/usb.rs opens.
use ord.Prelude.{◌≡◌, refl, List, [], ◌∷◌, true, false, none, some, ok}
use ord.Transport.Usb.Accessory.{Endpoint, Interface, stream_on, open_accessory}
use ord.Transport.Usb.Accessory.Endpoints.{
  bulk, first, address_of, interface_of, open_accessory-first,
}

abbrev bulk_in_1 : Endpoint
bulk_in_1 = record { bulk = true; direction_in = true; address = 0x81 }

abbrev interrupt_in : Endpoint
interrupt_in = record { bulk = false; direction_in = true; address = 0x83 }

abbrev bulk_out_2 : Endpoint
bulk_out_2 = record { bulk = true; direction_in = false; address = 0x02 }

-- The two ends of the accessory on one interface.
abbrev plain : List Interface
plain =
    record {
      number = 0;
      kernel_driver_active = some true;
      descriptors =
          record { interface_number = 0; endpoint_descriptors = bulk_in_1 ∷ bulk_out_2 ∷ [] } ∷ [];
    }
    ∷ []

-- The ends on two interfaces, the first of which has an interrupt endpoint too.
abbrev split : List Interface
split =
    record {
      number = 0;
      kernel_driver_active = none;
      descriptors =
          record { interface_number = 0; endpoint_descriptors = interrupt_in ∷ bulk_out_2 ∷ [] }
          ∷ [];
    }
    ∷ record {
      number = 1;
      kernel_driver_active = some false;
      descriptors = record { interface_number = 1; endpoint_descriptors = bulk_in_1 ∷ [] } ∷ [];
    }
    ∷ []

plain_opens : open_accessory true (some plain) (λ _. true) ≡ (
  0 ∷ [],
  ok (record { claimed = 0; in_endpoint = 0x81; out_endpoint = 0x02; is_closed = false }),
)
unfolding open_accessory
plain_opens = refl

-- Interface 0, whose OUT endpoint the stream uses, is not claimed.
split_claims_one :
    (open_accessory true (some split) (λ _. true)).1
    ≡ ok (record { claimed = 1; in_endpoint = 0x81; out_endpoint = 0x02; is_closed = false })
unfolding open_accessory
split_claims_one = refl

open_accessory-first_example :
    (open_accessory true (some split) (λ _. true)).1
    ≡ stream_on
        (λ _. true)
        (interface_of (first none (bulk true split)))
        (address_of (first none (bulk true split)))
        (address_of (first none (bulk false split)))
open_accessory-first_example = open_accessory-first split (λ _. true)
