-- ===== src/Cli/Hosts/Found.antt =====
-- What the command `hosts` of host/src/main.rs prints.
use ord.Prelude.{
  ℕ, ◌*◌, ◌≡◌, refl, sym, ap, subst, ◌∙◌, List, [], ◌∷◌, ◌++◌, false, ◌||◌, Bool-cases, inl, inr,
  Option, none, some, ltb, if◌then◌else◌, take, arith,
}
use Prim.Native.String.{String}
use text.Mathlib.Text.{◌==◌ as str_eq}
use text.Mathlib.TextEquality.{eq_iff}
use ord.Transport.Discovery.{DiscoveryBeacon}
use ord.Cli.Hosts.{
  Received, datagram, receive_error, timed_out, contains, FoundHost, key, key_of, Listener, insert,
  on_beacon, receive, Search, finished, listening, search,
}

abbrev pub Distinct : List String → Type 0
Distinct [] = Unit
Distinct (x ∷ xs) = (contains xs x ≡ false) × Distinct xs

abbrev pub keys : List FoundHost → List String
keys [] = []
keys (h ∷ hs) = key_of h ∷ keys hs

abbrev pub listener_of : Search → Listener
listener_of (finished l) = l
listener_of (listening l) = l

pub contains-append :
    (xs ys : List String) (x : String) → contains (xs ++ ys) x ≡ (contains xs x || contains ys x)
contains-append [] ys x = refl
contains-append (y ∷ xs) ys x = elim (Bool-cases (str_eq y x)) [
  | inl same ↦ rw same refl
  | inr other ↦ rw other (contains-append xs ys x)
]

Distinct-snoc :
    (xs : List String) (x : String) → Distinct xs → contains xs x ≡ false → Distinct (xs ++ x ∷ [])
Distinct-snoc [] x d new = (refl, tt)
Distinct-snoc (y ∷ xs) x d new = elim (Bool-cases (str_eq y x)) [
  | inl same ↦ absurd (ground (arith, same, new))
  | inr other ↦ (
    ground (arith, contains-append xs (x ∷ []) y, eq_iff x y, eq_iff y x, d, other),
    Distinct-snoc xs x d.1 (ground (arith, new, other)),
  )
]

-- The hosts that are printed are those of the set, each once.
abbrev IsConsistent : Listener → Type 0
IsConsistent l = (keys l.printed ≡ l.found_hosts) × Distinct l.found_hosts

keys-append : (hs : List FoundHost) (h : FoundHost) → keys (hs ++ h ∷ []) ≡ keys hs ++ key_of h ∷ []
keys-append [] h = refl
keys-append (g ∷ hs) h = ap (λ t. key_of g ∷ t) (keys-append hs h)

insert-IsConsistent : (h : FoundHost) (l : Listener) → IsConsistent l → IsConsistent (insert h l)
insert-IsConsistent h l c = elim (Bool-cases (contains l.found_hosts (key_of h))) [
  | inl known ↦ rw known c
  | inr new ↦ rw new (
    keys-append l.printed h ∙ ap (λ t. t ++ key_of h ∷ []) c.0,
    Distinct-snoc l.found_hosts (key_of h) c.1 new,
  )
]

contains-insert :
    (h : FoundHost) (l : Listener) (k : String)
    → contains (insert h l).found_hosts k ≡ (contains l.found_hosts k || contains (key_of h ∷ []) k)
contains-insert h l k = elim (Bool-cases (contains l.found_hosts (key_of h))) [
  | inl known ↦ rw known (ground (arith, eq_iff (key_of h) k, known))
  | inr new ↦ rw new (contains-append l.found_hosts (key_of h ∷ []) k)
]

on_beacon-IsConsistent :
    (ip : String) (b : Option DiscoveryBeacon) (l : Listener)
    → IsConsistent l
    → IsConsistent (on_beacon ip b l)
on_beacon-IsConsistent ip none l c = c
on_beacon-IsConsistent ip (some b) l c = elim (Bool-cases (str_eq b.magic "ORD_DISCOVERY")) [
  | inl magic ↦ rw magic (insert-IsConsistent (record { ip = ip; beacon = b }) l c)
  | inr other ↦ rw other c
]

-- The key of a beacon with the right magic.
abbrev pub accepted : String → Option DiscoveryBeacon → List String
accepted ip none = []
accepted ip (some b) = if str_eq b.magic "ORD_DISCOVERY" then key ip b.port ∷ [] else []

contains-on_beacon :
    (ip : String) (b : Option DiscoveryBeacon) (l : Listener) (k : String)
    → contains (on_beacon ip b l).found_hosts k
      ≡ (contains l.found_hosts k || contains (accepted ip b) k)
contains-on_beacon ip none l k = ground arith
contains-on_beacon ip (some b) l k = elim (Bool-cases (str_eq b.magic "ORD_DISCOVERY")) [
  | inl magic ↦ rw magic (contains-insert (record { ip = ip; beacon = b }) l k)
  | inr other ↦ rw other ground arith
]

module _ (from_slice : List ℕ → Option DiscoveryBeacon) where
  abbrev pub heard : Received → List String
  heard (datagram ip payload) = accepted ip (from_slice (take 4096 payload))
  heard _ = []

  -- The keys of the beacons that come before the time is over.
  abbrev pub announced : ℕ → List (ℕ × Received) → List String
  announced timeout [] = []
  announced timeout ((elapsed, r) ∷ rs) =
      if ltb elapsed (timeout * 1000000000) then heard r ++ announced timeout rs else []

  receive-IsConsistent :
      (r : Received) (l : Listener) → IsConsistent l → IsConsistent (receive from_slice r l)
  unfolding receive
  receive-IsConsistent (datagram ip payload) l c =
      on_beacon-IsConsistent ip (from_slice (take 4096 payload)) l c
  receive-IsConsistent receive_error l c = c
  receive-IsConsistent timed_out l c = c

  contains-receive :
      (r : Received) (l : Listener) (k : String)
      → contains (receive from_slice r l).found_hosts k
        ≡ (contains l.found_hosts k || contains (heard r) k)
  unfolding receive
  contains-receive (datagram ip payload) l k =
      contains-on_beacon ip (from_slice (take 4096 payload)) l k
  contains-receive receive_error l k = ground arith
  contains-receive timed_out l k = ground arith

  search-IsConsistent :
      (timeout : ℕ) (rs : List (ℕ × Received)) (l : Listener)
      → IsConsistent l
      → IsConsistent (listener_of (search from_slice timeout rs l))
  unfolding search
  search-IsConsistent timeout [] l c = c
  search-IsConsistent timeout ((elapsed, r) ∷ rs) l c =
      elim (Bool-cases (ltb elapsed (timeout * 1000000000))) [
        | inl early ↦
            rw early
              (search-IsConsistent timeout rs (receive from_slice r l) (receive-IsConsistent r l c))
        | inr late ↦ rw late c
      ]

  contains-search :
      (timeout : ℕ) (rs : List (ℕ × Received)) (l : Listener) (k : String)
      → contains (listener_of (search from_slice timeout rs l)).found_hosts k
        ≡ (contains l.found_hosts k || contains (announced timeout rs) k)
  unfolding search
  contains-search timeout [] l k = ground arith
  contains-search timeout ((elapsed, r) ∷ rs) l k =
      elim (Bool-cases (ltb elapsed (timeout * 1000000000))) [
        | inl early ↦ rw early (
            ground (
              arith,
              contains-search timeout rs (receive from_slice r l) k,
              contains-receive r l k,
              contains-append (heard r) (announced timeout rs) k,
            ))
        | inr late ↦ rw late ground arith
      ]

  abbrev pub printed_by : ℕ → List (ℕ × Received) → List String
  printed_by timeout rs =
      keys
        (listener_of
          (search from_slice timeout rs (record { found_hosts = []; printed = [] }))).printed

  -- No address and port is printed twice.
  pub search-Distinct : (timeout : ℕ) (rs : List (ℕ × Received)) → Distinct (printed_by timeout rs)
  search-Distinct timeout rs =
      let c =
        search-IsConsistent timeout rs (record { found_hosts = []; printed = [] }) (refl, tt) in
      subst Distinct (sym c.0) c.1

  -- An address and port is printed if and only if a beacon with the right magic has come from there
  -- before the time was over, in a datagram whose first 4096 bytes are read.
  pub search-announced :
      (timeout : ℕ) (rs : List (ℕ × Received)) (k : String)
      → contains (printed_by timeout rs) k ≡ contains (announced timeout rs) k
  search-announced timeout rs k =
      let start : Listener = record { found_hosts = []; printed = [] } in
      let c = search-IsConsistent timeout rs start (refl, tt) in
      ap (λ ks. contains ks k) c.0 ∙ contains-search timeout rs start k
