-- ===== src/Diagnostics/Tests.antt =====
-- Runs of host/src/diagnostics.rs.
use ord.Prelude.{◌≡◌, refl, [], ◌∷◌, true, none, some, length}
use text.Mathlib.Text.{◌==◌ as str_eq}
use ord.Diagnostics.Texts.{Text, codes}
use ord.Diagnostics.{System, get_network_ips, inspect, print_report}

abbrev ip_output : Text
ip_output =
    codes
      "lo               UNKNOWN        127.0.0.1/8 ::1/128\nwlp2s0           UP             192.168.1.7/24 fe80::1/64\nenp3s0           DOWN\n"

one_interface : get_network_ips (some ip_output) ≡ (codes "wlp2s0", codes "192.168.1.7") ∷ []
unfolding get_network_ips
one_interface = refl

-- Vulkan's encoder, and no other.
abbrev vulkan_only : System
vulkan_only = record {
  os_release = some (codes "NAME=Fedora\nPRETTY_NAME=\"Fedora Linux 43\"\n");
  uname = some (codes "6.17.1\n");
  xdg_session_type = some (codes "wayland");
  gnome_shell = some (codes "GNOME Shell 50.0\n");
  mutter = none;
  lspci = some (codes "00:00.0 Host bridge\n01:00.0 VGA compatible controller\n");
  has_render_node = true;
  find = λ name. str_eq name "vulkanh264enc";
  pipewire = some (codes "pipewire\nCompiled with 1.4\n");
  ip_addr = some ip_output;
  gst_major = codes "1";
  gst_minor = codes "26";
  gst_micro = codes "2";
}

os_found : (inspect vulkan_only).os_name ≡ codes "Fedora Linux 43"
unfolding inspect
os_found = refl

gpu_found : (inspect vulkan_only).gpu_info ≡ codes "01:00.0 VGA compatible controller"
unfolding inspect
gpu_found = refl

report_length : length (print_report (inspect vulkan_only)) ≡ 19
unfolding inspect print_report
report_length = refl
