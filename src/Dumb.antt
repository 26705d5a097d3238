-- ===== src/Dumb.antt =====
-- drv_helpers.c: buffers of the kernel's generic "dumb" interface.
mod Tests
mod Asked
mod Inside
pub mod Fits
use external_minigbm.Base.{
  ℕ, ◌*◌, Bool, ◌||◌, Option, none, some, ◌⊎◌, inl, inr, ◌==◌, if◌then◌else◌, ◌>>=◌, get_or, wrap32,
  align, div_round_up, has_flag,
}
use external_minigbm.Drm.{
  drm_format_r16, drm_format_yvu420_android, drm_format_yvu420, drm_format_nv12, drm_format_nv21,
  drm_format_p010,
}
use external_minigbm.Flags.{bo_quirk_none, bo_quirk_dumb32bpp}
use external_minigbm.Layout.{layout_from_format}
use external_minigbm.Bo.{Bo}
use external_minigbm.Planes.{drv_bo_from_format}

-- The arguments of DRM_IOCTL_MODE_CREATE_DUMB, and what the kernel writes.
pub record DumbRequest : Type 0 where
  pub width : ℕ
  pub height : ℕ
  pub bpp : ℕ

pub record DumbAnswer : Type 0 where
  pub handle : ℕ
  pub pitch : ℕ
  pub size : ℕ

abbrev pub mesa_llvmpipe_tile_size : ℕ
mesa_llvmpipe_tile_size = 64

-- The height that the planes are laid out for: that of the buffer for Android's YV12.
unfoldable pub plane_height : Bo → ℕ → ℕ → ℕ
plane_height bo height format =
    if format == drm_format_yvu420_android then bo.metadata.height else height

-- The width and the height in pixels that the `switch` asks for.
unfoldable pub asked_width : ℕ → ℕ → ℕ
unfolding align
asked_width width format =
    if format == drm_format_r16
    then align width 16
    else if format == drm_format_yvu420_android
    then align width 32
    else width

unfoldable pub asked_height : ℕ → ℕ → ℕ
unfolding div_round_up
asked_height height format =
    if format == drm_format_yvu420_android
      || format == drm_format_yvu420
      || format == drm_format_nv12
      || format == drm_format_nv21
      || format == drm_format_p010
    then wrap32 (3 * div_round_up height 2)
    else height

unfoldable pub dumb_request : Bo → ℕ → ℕ → ℕ → ℕ → Option DumbRequest
unfolding plane_height asked_width asked_height align div_round_up
dumb_request bo width height format quirks = do
  layout ← layout_from_format format
  let bytes = get_or layout.bytes_per_pixel 0 0
  let w = asked_width width format
  let h = asked_height (plane_height bo height format) format
  some (
      if has_flag quirks bo_quirk_dumb32bpp
      then record { width = div_round_up (wrap32 (w * bytes)) 4; height = h; bpp = 32 }
      else record {
        width = align w mesa_llvmpipe_tile_size;
        height = align h mesa_llvmpipe_tile_size;
        bpp = bytes * 8;
      })

-- `drv_dumb_bo_create_ex`: an error number of the kernel, or the buffer. `none` is a null layout or a
-- failed assertion of `drv_bo_from_format`.
unfoldable pub drv_dumb_bo_create_ex :
    (DumbRequest → ℕ ⊎ DumbAnswer) → Bo → ℕ → ℕ → ℕ → ℕ → Option (ℕ ⊎ Bo)
unfolding dumb_request plane_height drv_bo_from_format
drv_dumb_bo_create_ex kernel bo width height format quirks = do
  request ← dumb_request bo width height format quirks
  elim (kernel request) [
    | inl errno ↦ some (inl errno)
    | inr answer ↦ do
      metadata ←
          drv_bo_from_format bo.metadata answer.pitch 1 (plane_height bo height format) format
      some (
          inr (record bo {
            metadata = record metadata { total_size = answer.size };
            handle = answer.handle;
          }))
  ]

unfoldable pub drv_dumb_bo_create :
    (DumbRequest → ℕ ⊎ DumbAnswer) → Bo → ℕ → ℕ → ℕ → Option (ℕ ⊎ Bo)
unfolding drv_dumb_bo_create_ex
drv_dumb_bo_create kernel bo width height format =
    drv_dumb_bo_create_ex kernel bo width height format bo_quirk_none
