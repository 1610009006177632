-- ===== src/Diagnostics/Network.antt =====
-- The network interfaces that host/src/diagnostics.rs lists.
use ord.Prelude.{
  ◌≢◌, List, [], ◌∷◌, Bool-cases, inl, inr, Option, none, some, All, All-append, ◌==◌, arith,
}
use ord.Diagnostics.Texts.{Text, codes, before, same_text, words, lines}
use ord.Diagnostics.{interface_of, interfaces_of, get_network_ips}

-- No slash, so no length of a network prefix.
abbrev pub IsAddress : Text × Text → Type 0
IsAddress (iface, ip) = All (λ c. c ≢ 47) ip

before-IsAddress : (text : Text) → All (λ c. c ≢ 47) (before 47 text)
before-IsAddress [] = tt
before-IsAddress (c ∷ cs) = elim (Bool-cases (c == 47)) [
  | inl slash ↦ rw slash tt
  | inr other ↦ rw other ((λ e. absurd (ground (arith, other, e))), before-IsAddress cs)
]

interface_of-IsAddress : (ws : List Text) → All IsAddress (interface_of ws)
interface_of-IsAddress [] = tt
interface_of-IsAddress (a ∷ []) = tt
interface_of-IsAddress (a ∷ b ∷ []) = tt
interface_of-IsAddress (iface ∷ up ∷ addr ∷ more) = elim (Bool-cases (same_text up (codes "UP"))) [
  | inl yes_up ↦ rw yes_up (before-IsAddress addr, tt)
  | inr down ↦ rw down tt
]

interfaces_of-IsAddress : (ls : List Text) → All IsAddress (interfaces_of ls)
interfaces_of-IsAddress [] = tt
interfaces_of-IsAddress (l ∷ ls) =
    All-append IsAddress (interface_of (words l)) (interfaces_of ls)
      (interface_of-IsAddress (words l)) (interfaces_of-IsAddress ls)

-- Whatever `ip -br addr` prints, no address that is listed has a slash in it.
pub get_network_ips-IsAddress : (output : Option Text) → All IsAddress (get_network_ips output)
unfolding get_network_ips
get_network_ips-IsAddress none = tt
get_network_ips-IsAddress (some out) = interfaces_of-IsAddress (lines out)
