-- ===== src/Config/Tests.antt =====
-- A configuration of host/src/config.rs that is saved.
use ord.Prelude.{ℕ, [], ◌∷◌, ◌≡◌, refl, Option, some}
use Prim.Native.String.{String}
use ord.Config.{Config, default, config_path}

abbrev print : Config ℕ → Option String
print c = some "[server]"

abbrev parse : String → Option (Config ℕ)
parse text = some (default 1)

home_path :
    config_path (some ("/home/me/.config" ∷ [])) ≡ "/home/me/.config" ∷ "ord" ∷ "config.toml" ∷ []
unfolding config_path
home_path = refl
