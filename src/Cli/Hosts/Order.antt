-- ===== src/Cli/Hosts/Order.antt =====
-- The set of hosts that the command `hosts` of host/src/main.rs finds does not depend on the order in
-- which the beacons come.
use ord.Prelude.{
  ℕ, ◌*◌, ◌≡◌, refl, sym, ap, ◌∙◌, List, [], ◌∷◌, ◌++◌, Bool, true, false, ◌||◌, Option, ltb,
  if-true, All,
}
use Prim.Native.String.{String}
use mathlib.Core.Logic.{∥∥₁_elim}
use mathlib.Core.Bool.{Bool-set}
use mathlib.Core.List.{Perm, Permᴰ}
use ord.Transport.Discovery.{DiscoveryBeacon}
use ord.Cli.Hosts.{Received, contains}
use ord.Cli.Hosts.Found.{contains-append, heard, announced, printed_by, search-announced}

or_left_comm : (a b c : Bool) → (a || (b || c)) ≡ (b || (a || c))
or_left_comm true true c = refl
or_left_comm true false c = refl
or_left_comm false b c = refl

module _ (from_slice : List ℕ → Option DiscoveryBeacon) (timeout : ℕ) where
  -- Before the time is over.
  abbrev pub IsEarly : ℕ × Received → Type 0
  IsEarly (elapsed, r) = ltb elapsed (timeout * 1000000000) ≡ true

  abbrev all_heard : List (ℕ × Received) → List String
  all_heard [] = []
  all_heard (t ∷ ts) = heard from_slice t.1 ++ all_heard ts

  announced-early :
      (ts : List (ℕ × Received)) → All IsEarly ts → announced from_slice timeout ts ≡ all_heard ts
  announced-early [] early = refl
  announced-early ((elapsed, r) ∷ ts) early =
      if-true (ltb elapsed (timeout * 1000000000))
        (heard from_slice r ++ announced from_slice timeout ts) [] early.0
      ∙ ap (λ ks. heard from_slice r ++ ks) (announced-early ts early.1)

  module _ (k : String) where
    abbrev tells : ℕ × Received → Bool
    tells t = contains (heard from_slice t.1) k

    abbrev told : List (ℕ × Received) → Bool
    told ts = contains (all_heard ts) k

    told-cons : (t : ℕ × Received) (ts : List (ℕ × Received)) → told (t ∷ ts) ≡ (tells t || told ts)
    told-cons t ts = contains-append (heard from_slice t.1) (all_heard ts) k

    told-swap :
        (a b : ℕ × Received) (ts : List (ℕ × Received)) → told (a ∷ b ∷ ts) ≡ told (b ∷ a ∷ ts)
    told-swap a b ts =
        told-cons a (b ∷ ts)
        ∙ ap (λ x. tells a || x) (told-cons b ts)
        ∙ or_left_comm (tells a) (tells b) (told ts)
        ∙ ap (λ x. tells b || x) (sym (told-cons a ts))
        ∙ sym (told-cons b (a ∷ ts))

    Permᴰ-told : {ts us : List (ℕ × Received)} → Permᴰ ts us → told ts ≡ told us
    Permᴰ-told Permᴰ.nil = refl
    Permᴰ-told (Permᴰ.cons {a = a} {b = b} {l₁ = ts} {l₂ = us} e p) =
        ap (λ t. told (t ∷ ts)) e
        ∙ told-cons b ts
        ∙ ap (λ x. tells b || x) (Permᴰ-told p)
        ∙ sym (told-cons b us)
    Permᴰ-told (Permᴰ.swap {a = a} {b = b} {a' = a'} {b' = b'} {l = ts} e f) =
        told-swap a b ts ∙ ap (λ t. told (b ∷ t ∷ ts)) e ∙ ap (λ t. told (t ∷ b' ∷ ts)) f
    Permᴰ-told (Permᴰ.trans p q) = Permᴰ-told p ∙ Permᴰ-told q

  -- Which hosts are found does not depend on the order: what arrives in time may be permuted, and the
  -- command prints the same addresses and ports.
  pub printed_by-Perm :
      (ts us : List (ℕ × Received)) (k : String)
      → Perm ts us
      → All IsEarly ts
      → All IsEarly us
      → contains (printed_by from_slice timeout ts) k
        ≡ contains (printed_by from_slice timeout us) k
  printed_by-Perm ts us k p early early' =
      search-announced from_slice timeout ts k
      ∙ ap (λ ks. contains ks k) (announced-early ts early)
      ∙ ∥∥₁_elim p (Bool-set _ _) (Permᴰ-told k)
      ∙ sym (ap (λ ks. contains ks k) (announced-early us early'))
      ∙ sym (search-announced from_slice timeout us k)
