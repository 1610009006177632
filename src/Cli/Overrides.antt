-- ===== src/Cli/Overrides.antt =====
-- Which settings of the configuration file the commands of host/src/main.rs heed.
use ord.Prelude.{ℕ, ◌≡◌, refl, sym, ap, ◌∙◌, Bool, false, Option, none, some, ok}
use Prim.Native.String.{String}
use ord.Config.{Config, FileWrite, save, default}
use ord.Config.Saving.{exists, IsReadBack, loaded, loaded-save}
use ord.Cli.{
  Commands, start, init_config, or_start, Action, run_daemon, save_config, start_config, perform,
  main,
}

module _ {F : Type 0} (one : F) (from_str : String → Option (Config F))
    (to_string_pretty : Config F → Option String) where
  -- The file that a `save` leaves.
  abbrev pub saved : Bool → FileWrite → Config F → Option String → Option String
  saved dir_made answer c file = (save to_string_pretty dir_made answer c file).1

  -- What the program does with a command, or without one.
  abbrev pub started : Option Commands → Option String → Action F
  started command file = main one from_str command (exists file) file

  -- The options of a `start`, written or taken by default.
  module _ (command : Option Commands) (port : ℕ) (bind : String) (forced : Bool) (encoder : String)
      (bitrate : ℕ) (is_start : or_start command ≡ start port bind forced encoder bitrate) where
    started-loaded :
        (file : Option String)
        → started command file
          ≡ run_daemon
              (start_config port bind encoder bitrate (loaded one from_str to_string_pretty file))
              forced
    unfolding main
    started-loaded file = ap (λ c. perform one from_str c (exists file) file) is_start

    started-saved :
        (dir_made : Bool) (answer : FileWrite) (c : Config F) (file : Option String)
        → IsReadBack one from_str to_string_pretty c
        → (save to_string_pretty dir_made answer c file).0 ≡ ok tt
        → started command (saved dir_made answer c file)
          ≡ run_daemon (start_config port bind encoder bitrate c) forced
    started-saved dir_made answer c file law done =
        started-loaded (saved dir_made answer c file)
        ∙ ap (λ c'. run_daemon (start_config port bind encoder bitrate c') forced)
            (loaded-save one from_str to_string_pretty dir_made answer c file law done)

  -- A configuration with other values of these four settings.
  abbrev pub with_settings : ℕ → String → String → ℕ → Config F → Config F
  with_settings port bind encoder bitrate c = record c {
    server = record c.server { port = port; bind_address = bind };
    stream = record c.stream { encoder = encoder; bitrate_kbps = bitrate };
  }

  -- Two saved configurations that the parser reads back, and that differ in the port, the bind address,
  -- the encoder and the bitrate, give the same daemon, whatever options `start` is given, and also
  -- without a command, since `start` puts its options or their defaults in their place.
  pub start_forgets :
      (command : Option Commands) (port' : ℕ) (bind' : String) (forced : Bool) (encoder' : String)
      (bitrate' : ℕ) (port : ℕ) (bind encoder : String) (bitrate : ℕ) (c : Config F)
      (dir_made dir_made' : Bool) (answer answer' : FileWrite) (file file' : Option String)
      → or_start command ≡ start port' bind' forced encoder' bitrate'
      → IsReadBack one from_str to_string_pretty c
      → IsReadBack one from_str to_string_pretty (with_settings port bind encoder bitrate c)
      → (save to_string_pretty dir_made answer c file).0 ≡ ok tt
      → (save to_string_pretty dir_made' answer'
          (with_settings port bind encoder bitrate c)
          file').0
        ≡ ok tt
      → started command (saved dir_made answer c file)
        ≡ started command
            (saved dir_made' answer' (with_settings port bind encoder bitrate c) file')
  start_forgets command port' bind' forced encoder' bitrate' port bind encoder bitrate c dir_made
        dir_made' answer answer' file file' is_start law law' d d' =
      started-saved command port' bind' forced encoder' bitrate' is_start dir_made answer c file law
        d
      ∙ sym (
          started-saved command port' bind' forced encoder' bitrate' is_start dir_made' answer'
            (with_settings port bind encoder bitrate c) file' law' d')

  -- After a successful `init-config`, whose configuration the parser reads back, the program without a
  -- command runs the daemon with the default configuration, and without the test pattern forced.
  pub init_config-started :
      (c : Config F) (dir_made : Bool) (answer : FileWrite) (content file : Option String)
      → IsReadBack one from_str to_string_pretty c
      → main one from_str (some init_config) (exists content) content ≡ save_config c
      → (save to_string_pretty dir_made answer c file).0 ≡ ok tt
      → started none (saved dir_made answer c file) ≡ run_daemon (default one) false
  unfolding main
  init_config-started c dir_made answer content file law init done =
      let same : c ≡ default one = cc in
      started-saved none 9090 "0.0.0.0" false "auto" 15000 refl dir_made answer c file law done
      ∙ ap (λ c'. run_daemon (start_config 9090 "0.0.0.0" "auto" 15000 c') false) same
