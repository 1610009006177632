-- ===== src/Transport/Usb/Accessory/Endpoints.antt =====
-- Which endpoints `open_accessory` of host/src/transport/usb.rs takes.
use ord.Prelude.{
  ℕ, ◌≡◌, refl, sym, ap, ◌∙◌, List, [], ◌∷◌, ◌++◌, append_assoc, Bool, true, false, ◌&&◌, not,
  Bool-cases, inl, inr, Option, none, some, if◌then◌else◌,
}
use ord.Transport.Usb.Accessory.{
  Endpoint, InterfaceDescriptor, Interface, Chosen, on_endpoint, on_endpoints, both, on_descriptors,
  unless_left, on_interfaces, stream_on, open_accessory,
}

-- The bulk endpoints of one direction, in the order of the descriptors, with their interfaces.
pub record Place : Type 0 where
  pub address : ℕ
  pub interface : ℕ

abbrev pub bulk_of : Bool → ℕ → List Endpoint → List Place
bulk_of way n [] = []
bulk_of way n (ep ∷ eps) =
    let rest = bulk_of way n eps in
    if ep.bulk && (if way then ep.direction_in else not ep.direction_in)
    then record { address = ep.address; interface = n } ∷ rest
    else rest

abbrev pub bulk_in : Bool → List InterfaceDescriptor → List Place
bulk_in way [] = []
bulk_in way (d ∷ ds) = bulk_of way d.interface_number d.endpoint_descriptors ++ bulk_in way ds

abbrev pub bulk : Bool → List Interface → List Place
bulk way [] = []
bulk way (i ∷ is) = bulk_in way i.descriptors ++ bulk way is

-- What is chosen already stays; the first of these places comes in where nothing is.
abbrev pub first : Option Place → List Place → Option Place
first (some p) ps = some p
first none [] = none
first none (p ∷ ps) = some p

first-append : (o : Option Place) (xs ys : List Place) → first o (xs ++ ys) ≡ first (first o xs) ys
first-append (some p) xs ys = refl
first-append none [] ys = refl
first-append none (x ∷ xs) ys = refl

abbrev pub address_of : Option Place → Option ℕ
address_of none = none
address_of (some p) = some p.address

abbrev pub interface_of : Option Place → ℕ
interface_of none = 0
interface_of (some p) = p.interface

-- The variables of the search, where these places have been found.
abbrev pub state : Option Place → Option Place → Chosen
state i o = record { in_ep = address_of i; out_ep = address_of o; iface_to_claim = interface_of i }

endpoint-state :
    (n : ℕ) (is_bulk is_in : Bool) (address : ℕ) (i o : Option Place)
    → on_endpoint n (record { bulk = is_bulk; direction_in = is_in; address = address }) (state i o)
      ≡ state
          (first i (
            bulk_of true n
              (record { bulk = is_bulk; direction_in = is_in; address = address } ∷ [])))
          (first o (
            bulk_of false n
              (record { bulk = is_bulk; direction_in = is_in; address = address } ∷ [])))
unfolding on_endpoint
endpoint-state n false is_in address none none = refl
endpoint-state n false is_in address none (some q) = refl
endpoint-state n false is_in address (some p) none = refl
endpoint-state n false is_in address (some p) (some q) = refl
endpoint-state n true true address none none = refl
endpoint-state n true true address none (some q) = refl
endpoint-state n true true address (some p) none = refl
endpoint-state n true true address (some p) (some q) = refl
endpoint-state n true false address none none = refl
endpoint-state n true false address none (some q) = refl
endpoint-state n true false address (some p) none = refl
endpoint-state n true false address (some p) (some q) = refl

bulk_of-cons :
    (way : Bool) (n : ℕ) (ep : Endpoint) (eps : List Endpoint)
    → bulk_of way n (ep ∷ eps) ≡ bulk_of way n (ep ∷ []) ++ bulk_of way n eps
bulk_of-cons way n ep eps =
    elim (Bool-cases (ep.bulk && (if way then ep.direction_in else not ep.direction_in))) [
      | inl yes_it_is ↦ rw yes_it_is refl
      | inr other ↦ rw other refl
    ]

on_endpoints-state :
    (n : ℕ) (eps : List Endpoint) (i o : Option Place)
    → on_endpoints n eps (state i o)
      ≡ state (first i (bulk_of true n eps)) (first o (bulk_of false n eps))
unfolding on_endpoints
on_endpoints-state n [] none none = refl
on_endpoints-state n [] none (some q) = refl
on_endpoints-state n [] (some p) none = refl
on_endpoints-state n [] (some p) (some q) = refl
on_endpoints-state n (ep ∷ eps) i o =
    let i' = first i (bulk_of true n (ep ∷ [])) in
    let o' = first o (bulk_of false n (ep ∷ [])) in
    ap (on_endpoints n eps) (endpoint-state n ep.bulk ep.direction_in ep.address i o)
    ∙ on_endpoints-state n eps i' o'
    ∙ ap (λ t. state t (first o' (bulk_of false n eps)))
        (sym (first-append i (bulk_of true n (ep ∷ [])) (bulk_of true n eps))
          ∙ ap (first i) (sym (bulk_of-cons true n ep eps)))
    ∙ ap (state (first i (bulk_of true n (ep ∷ eps)))) (
        sym (first-append o (bulk_of false n (ep ∷ [])) (bulk_of false n eps))
        ∙ ap (first o) (sym (bulk_of-cons false n ep eps)))

-- Where both places are found, nothing changes any more.
first-both :
    (i o : Option Place) (xs ys : List Place)
    → both (state i o) ≡ true
    → state (first i xs) (first o ys) ≡ state i o
first-both (some p) (some q) xs ys h = refl
first-both (some p) none xs ys h = absurd cc
first-both none o xs ys h = absurd cc

on_descriptors-state :
    (ds : List InterfaceDescriptor) (i o : Option Place) (more : Chosen → Chosen)
    (rest_in rest_out : List Place)
    → ((i' o' : Option Place) → more (state i' o') ≡ state (first i' rest_in) (first o' rest_out))
    → unless_left (on_descriptors ds (state i o)) more
      ≡ state (first i (bulk_in true ds ++ rest_in)) (first o (bulk_in false ds ++ rest_out))
unfolding on_descriptors
on_descriptors-state [] i o more rest_in rest_out h = h i o
on_descriptors-state (d ∷ ds) i o more rest_in rest_out h =
    let ins = bulk_of true d.interface_number d.endpoint_descriptors in
    let outs = bulk_of false d.interface_number d.endpoint_descriptors in
    let i' = first i ins in
    let o' = first o outs in
    let later_in = bulk_in true ds ++ rest_in in
    let later_out = bulk_in false ds ++ rest_out in
    let whole : state (first i' later_in) (first o' later_out)
        ≡ state (first i (bulk_in true (d ∷ ds) ++ rest_in))
            (first o (bulk_in false (d ∷ ds) ++ rest_out)) =
      ap (λ t. state t (first o' later_out))
        (sym (first-append i ins later_in)
          ∙ ap (first i) (sym (append_assoc ins (bulk_in true ds) rest_in)))
      ∙ ap (state (first i (bulk_in true (d ∷ ds) ++ rest_in))) (
          sym (first-append o outs later_out)
          ∙ ap (first o) (sym (append_assoc outs (bulk_in false ds) rest_out))) in
    elim (Bool-cases (both (state i' o'))) [
      | inl found ↦
          rw (on_endpoints-state d.interface_number d.endpoint_descriptors i o, found)
            (sym (first-both i' o' later_in later_out found) ∙ whole)
      | inr open_still ↦
          rw (on_endpoints-state d.interface_number d.endpoint_descriptors i o, open_still)
            (on_descriptors-state ds i' o' more rest_in rest_out h ∙ whole)
    ]

on_interfaces-state :
    (is : List Interface) (i o : Option Place)
    → on_interfaces is (state i o) ≡ state (first i (bulk true is)) (first o (bulk false is))
unfolding on_interfaces
on_interfaces-state [] none none = refl
on_interfaces-state [] none (some q) = refl
on_interfaces-state [] (some p) none = refl
on_interfaces-state [] (some p) (some q) = refl
on_interfaces-state (x ∷ is) i o =
    on_descriptors-state x.descriptors i o (on_interfaces is) (bulk true is) (bulk false is)
      (on_interfaces-state is)

-- Whatever the interfaces: the nested loops with their breaks find the first bulk IN endpoint and the
-- first bulk OUT endpoint of the device, and `open_accessory` claims the interface of the IN endpoint
-- alone; it fails exactly where one of them is missing or the claim is refused.
pub open_accessory-first :
    (interfaces : List Interface) (claims : ℕ → Bool)
    → (open_accessory true (some interfaces) claims).1
      ≡ stream_on claims
          (interface_of (first none (bulk true interfaces)))
          (address_of (first none (bulk true interfaces)))
          (address_of (first none (bulk false interfaces)))
unfolding open_accessory
open_accessory-first interfaces claims =
    ap (λ (c : Chosen). stream_on claims c.iface_to_claim c.in_ep c.out_ep)
      (on_interfaces-state interfaces none none)
