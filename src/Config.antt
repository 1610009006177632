-- ===== src/Config.antt =====
-- host/src/config.rs: the configuration, its defaults, and where it comes from. `F` is f64; the file
-- and its TOML form are what the caller of `load_or_default` finds.
pub mod Saving
mod Tests
use ord.Prelude.{
  ℕ, List, [], ◌∷◌, ◌++◌, Bool, true, false, Option, none, some, Result, ok, err, if◌then◌else◌,
}
use Prim.Native.String.{String}

pub record ServerConfig : Type 0 where
  pub bind_address : String
  pub port : ℕ  -- u16
  pub enable_discovery : Bool
  pub discovery_port : ℕ  -- u16

pub record DisplaySettings (F : Type 0) : Type 0 where
  pub default_width : ℕ  -- u32
  pub default_height : ℕ  -- u32
  pub default_fps : ℕ  -- u32
  pub scale_factor : F  -- f64

pub record StreamSettings : Type 0 where
  pub codec : String
  pub bitrate_kbps : ℕ  -- u32
  pub encoder : String
  pub keyframe_interval_frames : ℕ  -- u32

pub record SecuritySettings : Type 0 where
  pub require_pairing : Bool
  pub pairing_pin : Option String

pub record Config (F : Type 0) : Type 0 where
  pub server : ServerConfig
  pub display : DisplaySettings F
  pub stream : StreamSettings
  pub security : SecuritySettings

-- `Config::default`; the argument is 1.0.
abbrev pub default : {F : Type 0} → F → Config F
default one = record {
  server = record {
    bind_address = "0.0.0.0";
    port = 9090;
    enable_discovery = true;
    discovery_port = 9091;
  };
  display = record {
    default_width = 1920;
    default_height = 1200;
    default_fps = 60;
    scale_factor = one;
  };
  stream = record {
    codec = "h264";
    bitrate_kbps = 15000;
    encoder = "auto";
    keyframe_interval_frames = 60;
  };
  security = record { require_pairing = false; pairing_pin = none };
}

-- `Config::load_or_default`: whether the file exists, what reading it gives, and what its text is
-- parsed to.
unfoldable pub load_or_default :
    {F : Type 0} → F → Bool → Option String → (String → Option (Config F)) → Config F
load_or_default one exists content from_str =
    if exists
    then (elim content [
      | none ↦ default one
      | some text ↦ elim (from_str text) [ none ↦ default one | some config ↦ config ]
    ])
    else default one

-- `config_path`, as the parts of the path: those of the system's directory, or of the current one.
unfoldable pub config_path : Option (List String) → List String
config_path (some dir) = dir ++ "ord" ∷ "config.toml" ∷ []
config_path none = "." ∷ "ord" ∷ "config.toml" ∷ []

pub data ConfigError : Type 0 where
  create_dir to_string write : ConfigError

-- What `fs::write` does: a failed one leaves the file as it may.
pub data FileWrite : Type 0 where
  wrote : FileWrite
  write_failed : Option String → FileWrite

abbrev pub write_file : String → FileWrite → Result ConfigError (Unit {0}) × Option String
write_file text wrote = (ok tt, some text)
write_file text (write_failed left) = (err write, left)

abbrev pub write_text :
    Option String → FileWrite → Option String → Result ConfigError (Unit {0}) × Option String
write_text none answer file = (err to_string, file)
write_text (some text) answer file = write_file text answer

-- `save`: whether the directory is there or can be made, the text of the configuration, and what the
-- write does to the file, which is `none` where there is none. The path always has a parent.
unfoldable pub save :
    {F : Type 0}
    → (Config F → Option String)
    → Bool
    → FileWrite
    → Config F
    → Option String
    → Result ConfigError (Unit {0}) × Option String
save to_string_pretty dir_made answer config file =
    if dir_made then write_text (to_string_pretty config) answer file else (err create_dir, file)
