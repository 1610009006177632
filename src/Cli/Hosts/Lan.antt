-- ===== src/Cli/Hosts/Lan.antt =====
-- The broadcaster of host/src/transport/discovery.rs and the command `hosts` of host/src/main.rs on one
-- network: which hosts the command finds.
use ord.Prelude.{
  ℕ, zero, suc, ◌*◌, ◌≡◌, ◌≢◌, refl, ap, subst, ◌∙◌, List, [], ◌∷◌, ◌++◌, true, false, Bool-cases,
  inl, inr, Option, none, some, ltb, ◌==◌, if◌then◌else◌, take, length, All, ◌≤◌, arith,
}
use Prim.Native.String.{String}
use text.Mathlib.TextPositions.{eq_refl}
use ord.Transport.Discovery.{DiscoveryBeacon, Datagram, beacon_of, Event, discovery_run, made}
use ord.Transport.Discovery.Broadcast.{IsBeacon, discovery_run-IsBeacon}
use ord.Cli.Hosts.{Received, datagram, timed_out, contains, key, hosts_port}
use ord.Cli.Hosts.Found.{contains-append, heard, announced, printed_by, search-announced}

-- What the socket of `hosts` gets: a datagram to its port arrives, no other does.
abbrev pub arriving : String → Option Datagram → Received
arriving ip none = timed_out
arriving ip (some g) = if g.target_port == hosts_port then datagram ip g.payload else timed_out

abbrev pub nth : List Datagram → ℕ → Option Datagram
nth [] n = none
nth (g ∷ gs) zero = some g
nth (g ∷ gs) (suc n) = nth gs n

-- Turns of the loop of `hosts`: when, and which datagram of the host at `ip` arrives in it.
abbrev pub arrivals : String → List Datagram → List (ℕ × ℕ) → List (ℕ × Received)
arrivals ip gs [] = []
arrivals ip gs ((elapsed, n) ∷ ts) = (elapsed, arriving ip (nth gs n)) ∷ arrivals ip gs ts

nth-All :
    (P : Datagram → Type 0) (gs : List Datagram) (n : ℕ) (g : Datagram)
    → All P gs
    → nth gs n ≡ some g
    → P g
nth-All P [] n g h e = absurd cc
nth-All P (x ∷ gs) zero g h e = let same : x ≡ g = cc in subst P same h.0
nth-All P (x ∷ gs) (suc n) g h e = nth-All P gs n g h.1 e

take-short : (n : ℕ) (xs : List ℕ) → length xs ≤ n → take n xs ≡ xs
take-short zero [] h = refl
take-short zero (x ∷ xs) h = absurd (omega (arith, h))
take-short (suc n) [] h = refl
take-short (suc n) (x ∷ xs) h = ap (λ t. x ∷ t) (take-short n xs (omega (arith, h)))

contains-nil : (xs : List String) → ((k : String) → contains xs k ≡ false) → xs ≡ []
contains-nil [] h = refl
contains-nil (x ∷ xs) h =
    let here : contains (x ∷ xs) x ≡ true = rw (eq_refl) refl in absurd (ground (arith, here, h x))

IsTo : ℕ → Datagram → Type 0
IsTo port g = g.target_port ≡ port

IsBeacon-IsTo :
    (to_vec : DiscoveryBeacon → Option (List ℕ)) (tcp_port port : ℕ) (gs : List Datagram)
    → All (IsBeacon to_vec port tcp_port) gs
    → All (IsTo port) gs
unfolding IsTo
IsBeacon-IsTo to_vec tcp_port port [] h = tt
IsBeacon-IsTo to_vec tcp_port port (g ∷ gs) h =
    (h.0.to_port, IsBeacon-IsTo to_vec tcp_port port gs h.1)

module _ (from_slice : List ℕ → Option DiscoveryBeacon) (ip : String) where
  announced-in_time :
      (gs : List Datagram) (k : String) (timeout elapsed n : ℕ) (before after : List (ℕ × ℕ))
      → All (λ (t : ℕ × ℕ). ltb t.0 (timeout * 1000000000) ≡ true) before
      → ltb elapsed (timeout * 1000000000) ≡ true
      → contains (heard from_slice (arriving ip (nth gs n))) k ≡ true
      → contains (announced from_slice timeout (arrivals ip gs (before ++ (elapsed, n) ∷ after))) k
        ≡ true
  announced-in_time gs k timeout elapsed n [] after early now h = rw now (
      ground (
        arith,
        h,
        contains-append (heard from_slice (arriving ip (nth gs n)))
            (announced from_slice timeout (arrivals ip gs after)) k,
      ))
  announced-in_time gs k timeout elapsed n ((t, i) ∷ before) after early now h = rw (early.0) (
      ground (
        arith,
        announced-in_time gs k timeout elapsed n before after early.1 now h,
        contains-append (heard from_slice (arriving ip (nth gs i)))
            (announced from_slice timeout (arrivals ip gs (before ++ (elapsed, n) ∷ after))) k,
      ))

  heard-missed :
      (port : ℕ) (o : Option Datagram)
      → port ≢ hosts_port
      → ((g : Datagram) → o ≡ some g → IsTo port g)
      → heard from_slice (arriving ip o) ≡ []
  unfolding IsTo
  heard-missed port none other h = refl
  heard-missed port (some g) other h =
      let there = h g refl in
      let elsewhere : (g.target_port == hosts_port) ≡ false = ground (arith, other, there) in
      rw elsewhere refl

  announced-missed :
      (port : ℕ)
      → port ≢ hosts_port
      → (gs : List Datagram) (timeout : ℕ) (ts : List (ℕ × ℕ)) → All (IsTo port) gs
      → announced from_slice timeout (arrivals ip gs ts) ≡ []
  announced-missed port other gs timeout [] h = refl
  announced-missed port other gs timeout ((t, i) ∷ ts) h =
      elim (Bool-cases (ltb t (timeout * 1000000000))) [
        | inl early ↦
            rw (early, heard-missed port (nth gs i) other (λ g e. nth-All (IsTo port) gs i g h e))
              (announced-missed port other gs timeout ts h)
        | inr late ↦ rw late refl
      ]

module _ (to_vec : DiscoveryBeacon → Option (List ℕ)) (from_slice : List ℕ → Option DiscoveryBeacon)
    (tcp_port : ℕ) (es : List Event) (ip : String) where
  abbrev sent_to : ℕ → List Datagram
  sent_to port = (discovery_run to_vec (made port tcp_port) es).datagrams

  -- serde_json reads back the beacons that it prints, with this port.
  abbrev pub IsReadBack : Type 0
  IsReadBack =
      (name : String) (bytes : List ℕ)
      → to_vec (beacon_of name tcp_port) ≡ some bytes
      → from_slice bytes ≡ some (beacon_of name tcp_port)

  heard-beacon :
      IsReadBack
      → (n : ℕ) (g : Datagram) → nth (sent_to hosts_port) n ≡ some g
      → length g.payload ≤ 4096
      → heard from_slice (arriving ip (nth (sent_to hosts_port) n)) ≡ key ip tcp_port ∷ []
  heard-beacon law n g e short =
      let b : IsBeacon to_vec hosts_port tcp_port g =
        nth-All (IsBeacon to_vec hosts_port tcp_port) (sent_to hosts_port) n g
          (discovery_run-IsBeacon to_vec hosts_port tcp_port es) e in
      let to_port : (g.target_port == hosts_port) ≡ true = ground (arith, b.to_port) in
      let read : from_slice (take 4096 g.payload) ≡ some (beacon_of b.host_name tcp_port) =
        ap from_slice (take-short 4096 g.payload short) ∙ law b.host_name g.payload b.serialised in
      rw (e, to_port, read) refl

  -- Where serde_json reads back the beacons that it prints: a host with the discovery port 9091 is printed with its
  -- address and its TCP port once one of its datagrams, of at most 4096 bytes, arrives while the
  -- command listens.
  pub hosts-finds :
      IsReadBack
      → (timeout elapsed n : ℕ) (g : Datagram) (before after : List (ℕ × ℕ))
      → nth (sent_to hosts_port) n ≡ some g
      → length g.payload ≤ 4096
      → All (λ (t : ℕ × ℕ). ltb t.0 (timeout * 1000000000) ≡ true) before
      → ltb elapsed (timeout * 1000000000) ≡ true
      → contains
          (printed_by from_slice timeout
            (arrivals ip (sent_to hosts_port) (before ++ (elapsed, n) ∷ after)))
          (key ip tcp_port)
        ≡ true
  hosts-finds law timeout elapsed n g before after e short early now =
      search-announced from_slice timeout
        (arrivals ip (sent_to hosts_port) (before ++ (elapsed, n) ∷ after)) (key ip tcp_port)
      ∙ announced-in_time from_slice ip (sent_to hosts_port) (key ip tcp_port) timeout elapsed n
          before after early now (rw (heard-beacon law n g e short, eq_refl) refl)

  -- A host with another discovery port is never found.
  pub hosts-misses :
      (port timeout : ℕ) (ts : List (ℕ × ℕ))
      → port ≢ hosts_port
      → printed_by from_slice timeout (arrivals ip (sent_to port) ts) ≡ []
  hosts-misses port timeout ts other = contains-nil _ (λ k.
      search-announced from_slice timeout (arrivals ip (sent_to port) ts) k
      ∙ ap (λ xs. contains xs k)
          (announced-missed from_slice ip port other (sent_to port) timeout ts (
            IsBeacon-IsTo to_vec tcp_port port (sent_to port)
              (discovery_run-IsBeacon to_vec port tcp_port es))))
