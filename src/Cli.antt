-- ===== src/Cli.antt =====
-- host/src/main.rs: the commands, and what `main` does for each. The command line is parsed by clap
-- before; `F` is f64, and the file is as in Config.
pub mod Hosts
pub mod Overrides
mod Tests
use ord.Prelude.{ℕ, Bool, true, false, Option, none, some}
use Prim.Native.String.{String}
use ord.Config.{Config, load_or_default, default}

pub data Commands : Type 0 where
  -- port, bind, test_pattern, encoder, bitrate
  start : ℕ → String → Bool → String → ℕ → Commands
  diagnostics : Commands
  -- port, bitrate
  test_pattern : ℕ → ℕ → Commands
  -- timeout, in seconds
  hosts : ℕ → Commands
  init_config : Commands

-- Without a command.
abbrev pub or_start : Option Commands → Commands
or_start (some command) = command
or_start none = start 9090 "0.0.0.0" false "auto" 15000

-- What `main` goes on with: `HostDaemon::new(..)` and `run`, the report, the search for hosts, `save`.
pub data Action (F : Type 0) : Type 0 where
  run_daemon : Config F → Bool → Action F
  print_report : Action F
  listen : ℕ → Action F
  save_config : Config F → Action F

abbrev pub start_config : {F : Type 0} → ℕ → String → String → ℕ → Config F → Config F
start_config port bind encoder bitrate config = record config {
  server = record config.server { port = port; bind_address = bind };
  stream = record config.stream { encoder = encoder; bitrate_kbps = bitrate };
}

abbrev pub test_pattern_config : {F : Type 0} → ℕ → ℕ → Config F → Config F
test_pattern_config port bitrate config = record config {
  server = record config.server { port = port };
  stream = record config.stream { bitrate_kbps = bitrate };
}

module _ {F : Type 0} (one : F) (from_str : String → Option (Config F)) where
  abbrev pub perform : Commands → Bool → Option String → Action F
  perform (start port bind forced encoder bitrate) exists content =
      run_daemon
        (start_config port bind encoder bitrate (load_or_default one exists content from_str))
        forced
  perform diagnostics exists content = print_report
  perform (test_pattern port bitrate) exists content =
      run_daemon (test_pattern_config port bitrate (load_or_default one exists content from_str))
        true
  perform (hosts timeout) exists content = listen timeout
  perform init_config exists content = save_config (default one)

  unfoldable pub main : Option Commands → Bool → Option String → Action F
  unfolding load_or_default
  main command exists content = perform (or_start command) exists content
