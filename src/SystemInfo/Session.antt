-- ===== src/SystemInfo/Session.antt =====
-- The display session, from the environment's variables.
use smooth_demon.Prelude.{Option, none, some}
use smooth_demon.Text.{Text, codes}

-- `std::getenv`
abbrev pub Environment : Type 0
Environment = Text → Option Text

unfoldable pub display_protocol_of : Environment → Text
display_protocol_of getenv = elim (getenv (codes "XDG_SESSION_TYPE")) [
  | some st ↦ st
  | none ↦ elim (getenv (codes "WAYLAND_DISPLAY")) [
    | some w ↦ codes "wayland"
    | none ↦ elim (getenv (codes "DISPLAY")) [ some x ↦ codes "x11" | none ↦ codes "unknown" ]
  ]
]

unfoldable pub compositor_of : Environment → Text
compositor_of getenv = elim (getenv (codes "HYPRLAND_INSTANCE_SIGNATURE")) [
  | some h ↦ codes "Hyprland"
  | none ↦ elim (getenv (codes "XDG_CURRENT_DESKTOP")) [
    | some d ↦ d
    | none ↦ elim (getenv (codes "DESKTOP_SESSION")) [ some d ↦ d | none ↦ codes "Unknown" ]
  ]
]
