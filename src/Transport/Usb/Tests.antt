-- ===== src/Transport/Usb/Tests.antt =====
-- Runs of host/src/transport/usb.rs on small inputs.
use ord.Prelude.{◌≡◌, refl, List, [], ◌∷◌, true, false, some, err}
use ord.Transport.Usb.{
  BulkWrite, wrote, bulk_write, returned, write_packet_sync, write_rest, Device, opened, failed,
  scan_and_switch_any,
}

-- A device that times out once, and takes the packet in two transfers.
abbrev slow : List BulkWrite
slow = wrote 2 ∷ BulkWrite.timed_out ∷ wrote 1 ∷ []

write_packet_sync_broken :
    write_packet_sync false (7 ∷ 8 ∷ []) (wrote 1 ∷ BulkWrite.broken ∷ [])
    ≡ returned (err bulk_write) true (7 ∷ [])
unfolding write_packet_sync write_rest
write_packet_sync_broken = refl

-- A mouse, a phone, and a phone in accessory mode.
abbrev mouse : Device
mouse = record {
  descriptor = some (record { vendor_id = 0x046d; product_id = 0xc077 });
  opening = failed;
  opens_as_accessory = false;
}

abbrev phone : Device
phone = record {
  descriptor = some (record { vendor_id = 0x04e8; product_id = 0x6860 });
  opening = opened (some (2 ∷ 0 ∷ [])) 6;
  opens_as_accessory = false;
}

abbrev switched : Device
switched = record {
  descriptor = some (record { vendor_id = 0x18d1; product_id = 0x2d01 });
  opening = failed;
  opens_as_accessory = true;
}

scan_run : (scan_and_switch_any (mouse ∷ phone ∷ phone ∷ [])).1 ≡ true
unfolding scan_and_switch_any
scan_run = refl
