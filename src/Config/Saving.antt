-- ===== src/Config/Saving.antt =====
-- The configuration of host/src/config.rs, saved and loaded again.
use ord.Prelude.{◌≡◌, refl, Bool, true, false, inl, inr, ◌⊎◌, Option, none, some, ok, err}
use Prim.Native.String.{String}
use ord.Config.{
  Config, FileWrite, wrote, write_failed, ConfigError, write, write_text, save, load_or_default,
}

abbrev pub exists : Option String → Bool
exists none = false
exists (some text) = true

module _ {F : Type 0} (one : F) (from_str : String → Option (Config F))
    (to_string_pretty : Config F → Option String) where
  -- What `load_or_default` makes of the file.
  abbrev pub loaded : Option String → Config F
  loaded file = load_or_default one (exists file) file from_str

  -- The parser reads back what the printer makes of `c`.
  abbrev pub IsReadBack : Config F → Type 0
  IsReadBack c = (t : String) → to_string_pretty c ≡ some t → from_str t ≡ some c

  write_text-loaded :
      (text : Option String) (config : Config F) (answer : FileWrite) (file : Option String)
      → ((t : String) → text ≡ some t → from_str t ≡ some config)
      → (write_text text answer file).0 ≡ ok tt
      → loaded (write_text text answer file).1 ≡ config
  unfolding load_or_default
  write_text-loaded none config answer file law done = absurd cc
  write_text-loaded (some t) config wrote file law done = rw (law t refl) refl
  write_text-loaded (some t) config (write_failed left) file law done = absurd cc

  -- A configuration that the parser reads back, and that was saved, is the one that is loaded, whatever
  -- the file was before.
  pub loaded-save :
      (dir_made : Bool) (answer : FileWrite) (config : Config F) (file : Option String)
      → IsReadBack config
      → (save to_string_pretty dir_made answer config file).0 ≡ ok tt
      → loaded (save to_string_pretty dir_made answer config file).1 ≡ config
  unfolding save
  loaded-save true answer config file law done =
      write_text-loaded (to_string_pretty config) config answer file law done
  loaded-save false answer config file law done = absurd cc

  write_text-kept :
      (text : Option String) (answer : FileWrite) (file : Option String) (e : ConfigError)
      → (write_text text answer file).0 ≡ err e
      → ((write_text text answer file).1 ≡ file) ⊎ (e ≡ write)
  write_text-kept none answer file e failed = inl refl
  write_text-kept (some t) wrote file e failed = absurd cc
  write_text-kept (some t) (write_failed left) file e failed = inr cc

  -- A `save` that fails leaves the file as it was, unless the write itself failed.
  pub save-kept :
      (dir_made : Bool) (answer : FileWrite) (config : Config F) (file : Option String)
      (e : ConfigError)
      → (save to_string_pretty dir_made answer config file).0 ≡ err e
      → ((save to_string_pretty dir_made answer config file).1 ≡ file) ⊎ (e ≡ write)
  unfolding save
  save-kept true answer config file e failed =
      write_text-kept (to_string_pretty config) answer file e failed
  save-kept false answer config file e failed = inl refl
