-- ===== src/Transport/Usb/Control.antt =====
-- The control transfers of do_aoa_switch in host/src/transport/usb.rs, as they go to the device.
use ord.Prelude.{ℕ, ◌+◌, ◌*◌, ◌<◌, ◌≡◌, refl, zero, suc, List, [], ◌∷◌, ◌++◌, some, map, arith}
use ord.Bytes.{read_u16}
use ord.Diagnostics.Texts.{codes}
use ord.Transport.Usb.{
  Request, get_protocol, send_string, start_accessory, identification, send_strings, do_aoa_switch,
}

-- The arguments of `read_control` and `write_control`; a read has no data of its own.
record Control : Type 0 where
  request_type : ℕ
  request : ℕ
  value : ℕ
  index : ℕ
  bytes : List ℕ

abbrev aoa_get_protocol : ℕ
aoa_get_protocol = 51

abbrev aoa_send_string : ℕ
aoa_send_string = 52

abbrev aoa_start_accessory : ℕ
aoa_start_accessory = 53

-- `rusb::request_type` for a vendor's request to the device, in and out
abbrev req_in : ℕ
req_in = 0xC0

abbrev req_out : ℕ
req_out = 0x40

-- The texts are ASCII, so that a character is its byte; a null byte ends them.
abbrev control_of : Request → Control
control_of get_protocol = record {
  request_type = req_in;
  request = aoa_get_protocol;
  value = 0;
  index = 0;
  bytes = [];
}
control_of (send_string index text) = record {
  request_type = req_out;
  request = aoa_send_string;
  value = 0;
  index = index;
  bytes = codes text ++ 0 ∷ [];
}
control_of start_accessory = record {
  request_type = req_out;
  request = aoa_start_accessory;
  value = 0;
  index = 0;
  bytes = [];
}

-- What the device reads of a text: the bytes before the first null byte.
abbrev text_read : List ℕ → List ℕ
text_read [] = []
text_read (zero ∷ bs) = []
text_read (suc b ∷ bs) = suc b ∷ text_read bs

-- The device reads each text as it is meant.
identification-text_read :
    map (λ t. text_read (control_of (send_string t.0 t.1)).bytes) identification
    ≡ map (λ t. codes t.1) identification
identification-text_read = refl

-- A device of version 1 or above that takes the strings is asked for its version, told who the host
-- is, string by string, and then told to start.
do_aoa_switch-whole :
    (lo hi accepts : ℕ)
    → 0 < lo + 256 * hi
    → map (λ r. (control_of r).request) (do_aoa_switch (some (lo ∷ hi ∷ [])) (6 + accepts)).0
      ≡ 51 ∷ 52 ∷ 52 ∷ 52 ∷ 52 ∷ 52 ∷ 52 ∷ 53 ∷ []
unfolding do_aoa_switch send_strings read_u16
do_aoa_switch-whole lo hi accepts supported = ground arith
