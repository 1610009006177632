-- ===== src/Diagnostics.antt =====
-- host/src/diagnostics.rs: what `ord diagnostics` finds out about the system, and the report. What the
-- system's commands print, its files and GStreamer's answers are arguments.
pub mod Texts
pub mod Network
pub mod Encoders
mod Tests
use ord.Prelude.{
  ℕ, suc, List, [], ◌∷◌, ◌++◌, map, Bool, true, false, ◌||◌, not, Option, none, some, if◌then◌else◌,
  ◌==◌,
}
use Prim.Native.String.{String}
use ord.Diagnostics.Texts.{
  Text, codes, is_empty, same_text, strip_prefix, contains_text, trim, trim_start, trim_end, lines,
  words, before, join, pad,
}

pub record SystemDiagnostics : Type 0 where
  pub os_name : Text
  pub kernel_version : Text
  pub session_type : Text
  pub gnome_version : Option Text
  pub mutter_version : Option Text
  pub gpu_info : Text
  pub drm_render_node : Option Text
  pub vaapi_supported : Bool
  pub vaapi_encoder : Option Text
  pub pipewire_available : Bool
  pub pipewire_version : Option Text
  pub network_interfaces : List (Text × Text)
  pub gstreamer_version : Text

-- What the system answers; `none` where a command cannot be run, or a file or variable is not there.
-- A version is printed in decimal already.
pub record System : Type 0 where
  pub os_release : Option Text
  pub uname : Option Text
  pub xdg_session_type : Option Text
  pub gnome_shell : Option Text
  pub mutter : Option Text
  pub lspci : Option Text
  pub has_render_node : Bool
  pub find : String → Bool
  pub pipewire : Option Text
  pub ip_addr : Option Text
  pub gst_major : Text
  pub gst_minor : Text
  pub gst_micro : Text

abbrev pub or_else : Text → Option Text → Text
or_else d none = d
or_else d (some t) = t

abbrev pub is_quote : ℕ → Bool
is_quote c = c == 34

-- The first line that begins with PRETTY_NAME=.
abbrev pub value_or : Option Text → Option Text → Option Text
value_or (some value) later = some (trim_end is_quote (trim_start is_quote value))
value_or none later = later

abbrev pub pretty_name : List Text → Option Text
pretty_name [] = none
pretty_name (l ∷ ls) = value_or (strip_prefix (codes "PRETTY_NAME=") l) (pretty_name ls)

abbrev pub os_name_of : Option Text → Option Text
os_name_of none = none
os_name_of (some content) = pretty_name (lines content)

abbrev pub is_gpu : Text → Bool
is_gpu l =
    contains_text (codes "VGA") l
    || contains_text (codes "3D") l
    || contains_text (codes "Display") l

abbrev pub only : (Text → Bool) → List Text → List Text
only p [] = []
only p (l ∷ ls) = let rest = only p ls in if p l then l ∷ rest else rest

abbrev pub unless_empty : Text → Option Text
unless_empty [] = none
unless_empty (c ∷ cs) = some (c ∷ cs)

abbrev pub gpus_of : Option Text → Option Text
gpus_of none = none
gpus_of (some out) = unless_empty (join (codes "\n") (only is_gpu (lines out)))

abbrev pub first_line : List Text → Text
first_line [] = []
first_line (l ∷ ls) = l

abbrev pub on_output : (Text → Text) → Option Text → Option Text
on_output f none = none
on_output f (some out) = some (f out)

-- A line of `ip -br addr` with its words: interface, state, address, and perhaps more.
abbrev pub interface_of : List Text → List (Text × Text)
interface_of (iface ∷ up ∷ addr ∷ more) =
    if same_text up (codes "UP") then (iface, before 47 addr) ∷ [] else []
interface_of _ = []

abbrev pub interfaces_of : List Text → List (Text × Text)
interfaces_of [] = []
interfaces_of (l ∷ ls) = interface_of (words l) ++ interfaces_of ls

unfoldable pub get_network_ips : Option Text → List (Text × Text)
get_network_ips none = []
get_network_ips (some output) = interfaces_of (lines output)

abbrev pub hardware_encoder : (String → Bool) → Option Text
hardware_encoder find =
    if find "vah264enc"
    then some (codes "vah264enc (Hardware VA-API H.264)")
    else if find "vulkanh264enc"
    then some (codes "vulkanh264enc (Hardware Vulkan H.264)")
    else none

-- `SystemDiagnostics::inspect`; `check_gst_element` is `find`.
unfoldable pub inspect : System → SystemDiagnostics
unfolding get_network_ips
inspect s = record {
  os_name = or_else (codes "Linux (unknown)") (os_name_of s.os_release);
  kernel_version = or_else (codes "unknown") (on_output trim s.uname);
  session_type = or_else (codes "unknown") s.xdg_session_type;
  gnome_version = on_output trim s.gnome_shell;
  mutter_version = on_output trim s.mutter;
  gpu_info = or_else (codes "AMD / Intel GPU (auto-detected)") (gpus_of s.lspci);
  drm_render_node = if s.has_render_node then some (codes "/dev/dri/renderD128") else none;
  vaapi_supported = s.find "vah264enc";
  vaapi_encoder = hardware_encoder s.find;
  pipewire_available = s.find "pipewiresrc";
  pipewire_version = on_output (λ out. first_line (lines out)) s.pipewire;
  network_interfaces = get_network_ips s.ip_addr;
  gstreamer_version = s.gst_major ++ codes "." ++ s.gst_minor ++ codes "." ++ s.gst_micro;
}

-- A line that is printed only if there is something to say.
abbrev pub optional : String → Option Text → List Text
optional label none = []
optional label (some t) = (codes label ++ t) ∷ []

abbrev pub network_lines : List (Text × Text) → List Text
network_lines [] = []
network_lines ((iface, ip) ∷ rest) =
    (codes "    - " ++ pad 16 iface ++ codes " " ++ ip) ∷ network_lines rest

abbrev rule : Text
rule = codes "============================================================"

-- The lines of `print_report`
unfoldable pub print_report : SystemDiagnostics → List Text
print_report d =
    rule
      ∷ codes "              ORD Host System Diagnostics                   "
      ∷ rule
      ∷ (codes "  Operating System:    " ++ d.os_name)
      ∷ (codes "  Kernel Version:      " ++ d.kernel_version)
      ∷ (codes "  Session Type:        " ++ d.session_type)
      ∷ optional "  GNOME Shell:         " d.gnome_version
    ++ optional "  Mutter Compositor:   " d.mutter_version
    ++ (codes "  Graphics Device:     " ++ trim d.gpu_info)
      ∷ optional "  DRM Render Node:     " d.drm_render_node
    ++ (codes "  Hardware VA-API:     "
        ++ (if d.vaapi_supported
            then codes "Available (Accelerated)"
            else codes "Not available (Software fallback)"))
      ∷ optional "  Hardware Encoder:    " d.vaapi_encoder
    ++ (codes "  PipeWire Status:     "
        ++ (if d.pipewire_available then codes "Ready" else codes "Unavailable"))
      ∷ optional "  PipeWire Version:    " d.pipewire_version
    ++ (codes "  GStreamer Core:      " ++ d.gstreamer_version)
      ∷ codes "  Network Interfaces:"
      ∷ network_lines d.network_interfaces
    ++ rule ∷ codes "  Compatibility:       Full Wayland / GNOME 50+ Virtual Monitor" ∷ rule ∷ []
