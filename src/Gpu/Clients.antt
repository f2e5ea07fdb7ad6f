-- ===== src/Gpu/Clients.antt =====
-- The clients of the graphics device that the descriptors of a process belong to.
use smooth_demon.Prelude.{
  ℕ, Bool, true, false, ◌&&◌, ◌||◌, List, [], ◌∷◌, Option, none, some, ltb, ◌==◌, if◌then◌else◌,
}
use smooth_demon.Prelude.Words.{add64}
use smooth_demon.Text.{Text, File, codes, lines, starts_with, contains, after_first, is_digit}
use smooth_demon.Text.Number.{scan_u64}

-- The variables of the loop over the lines of one descriptor.
pub record FdInfo : Type 0 where
  pub client_id : ℕ
  pub render_ns : ℕ
  pub copy_ns : ℕ
  pub has_client : Bool
  pub is_i915 : Bool

abbrev pub no_info : FdInfo
no_info = record { client_id = 0; render_ns = 0; copy_ns = 0; has_client = false; is_i915 = false }

number_of : Text → Option ℕ
number_of line = elim (after_first b':' line) [ none ↦ none | some t ↦ scan_u64 t ]

or_old : ℕ → Option ℕ → ℕ
or_old old none = old
or_old old (some v) = v

fd_line : Text → FdInfo → FdInfo
unfolding number_of or_old
fd_line line i =
    if starts_with (codes "drm-driver:") line
    then record i {
      is_i915 = contains (codes "i915") line || contains (codes "xe") line || i.is_i915;
    }
    else if starts_with (codes "drm-client-id:") line
    then (elim (number_of line) [
      | none ↦ i
      | some v ↦ record i { client_id = v; has_client = true }
    ])
    else if starts_with (codes "drm-engine-render:") line
    then record i { render_ns = or_old i.render_ns (number_of line) }
    else if starts_with (codes "drm-engine-copy:") line
    then record i { copy_ns = or_old i.copy_ns (number_of line) }
    else i

unfoldable pub fd_lines : List Text → FdInfo → FdInfo
unfolding fd_line
fd_lines [] i = i
fd_lines (line ∷ ls) i = fd_lines ls (fd_line line i)

pub record ClientEntry : Type 0 where
  pub render_ns : ℕ
  pub copy_ns : ℕ

-- `std::unordered_map`, as a list.
abbrev pub ClientMap : Type 0
ClientMap = List (ℕ × ClientEntry)

-- `if (v > slot) slot = v`
unfoldable pub larger : ℕ → ℕ → ℕ
larger slot v = if ltb slot v then v else slot

-- The larger values, and the entry of a new client starts with 0.
unfoldable pub raise : ClientEntry → FdInfo → ClientEntry
unfolding larger
raise e i = record {
  render_ns = larger e.render_ns i.render_ns;
  copy_ns = larger e.copy_ns i.copy_ns;
}

unfoldable pub merge : FdInfo → ClientMap → ClientMap
unfolding raise
merge i [] = (i.client_id, raise (record { render_ns = 0; copy_ns = 0 }) i) ∷ []
merge i (c ∷ cs) =
    let rest = merge i cs in if c.0 == i.client_id then (c.0, raise c.1 i) ∷ cs else c ∷ rest

-- One entry of the directory.
unfoldable pub merge_fd : Text × File → ClientMap → ClientMap
unfolding fd_lines merge
merge_fd ([], file) cs = cs
merge_fd (c ∷ name, none) cs = cs
merge_fd (c ∷ name, some text) cs =
    let i = fd_lines (lines text) no_info in
    if is_digit c && (i.is_i915 && i.has_client) then merge i cs else cs

unfoldable pub collect_clients : List (Text × File) → ClientMap → ClientMap
unfolding merge_fd
collect_clients [] cs = cs
collect_clients (fd ∷ fds) cs = collect_clients fds (merge_fd fd cs)

unfoldable pub total_render : ClientMap → ℕ
total_render [] = 0
total_render (c ∷ cs) = add64 c.1.render_ns (total_render cs)

unfoldable pub total_copy : ClientMap → ℕ
total_copy [] = 0
total_copy (c ∷ cs) = add64 c.1.copy_ns (total_copy cs)
