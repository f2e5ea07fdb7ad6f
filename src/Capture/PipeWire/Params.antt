-- ===== src/Capture/PipeWire/Params.antt =====
-- The parameters that `Start` offers for the stream.
use smooth_demon.Prelude.{ℕ, Bool, true, false, List, [], ◌∷◌, if◌then◌else◌}
use smooth_demon.Capture.Frames.{SpaVideoFormat, spa_bgra, spa_rgba, spa_bgrx, spa_rgbx, spa_nv12}

-- The modifiers of drm_fourcc.h that the program names.
pub data Modifier : Type 0 where
  linear x_tiled y_tiled invalid : Modifier

-- A default, a least and a greatest value.
pub record Choice (A : Type 0) : Type 0 where
  pub default : A
  pub least : A
  pub greatest : A

pub record StreamParams : Type 0 where
  pub formats : List SpaVideoFormat
  pub size : Choice (ℕ × ℕ)
  pub rate : Choice (ℕ × ℕ)
  pub modifiers : List Modifier

unfoldable pub build_stream_params : Bool → StreamParams
build_stream_params with_dmabuf = record {
  formats = spa_bgrx ∷ spa_bgra ∷ spa_rgbx ∷ spa_rgba ∷ spa_nv12 ∷ [];
  size = record { default = (1280, 720); least = (1, 1); greatest = (4096, 4096) };
  rate = record { default = (60, 1); least = (0, 1); greatest = (240, 1) };
  modifiers = if with_dmabuf then linear ∷ x_tiled ∷ y_tiled ∷ invalid ∷ [] else [];
}

-- `params[0]` and `params[1]`
pub offered_params : List StreamParams
unfolding build_stream_params
offered_params = build_stream_params true ∷ build_stream_params false ∷ []
