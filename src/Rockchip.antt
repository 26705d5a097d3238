-- ===== src/Rockchip.antt =====
-- rockchip.c: the table of combinations, and buffers that are linear or compressed (AFBC).
mod Tests
pub mod Afbc
pub mod Mapped
pub mod Modifier
pub mod Shadow
use external_minigbm.Base.{
  ℕ, ◌+◌, ◌*◌, Bool, true, false, not, ◌&&◌, ◌||◌, Option, none, some, ◌⊎◌, inl, inr, List, [], ◌∷◌,
  bit_or, leb, ◌==◌, if◌then◌else◌, ◌>>=◌, set, wrap32, align, div_round_up,
}
use external_minigbm.Drm.{
  drm_format_abgr8888, drm_format_argb8888, drm_format_bgr888, drm_format_rgb565,
  drm_format_xbgr8888, drm_format_xrgb8888, drm_format_nv12, drm_format_yvu420,
  drm_format_yvu420_android, drm_format_r8, drm_format_mod_linear, drm_format_mod_rockchip_afbc,
}
use external_minigbm.Flags.{
  any_of, bo_use_render_mask, bo_use_texture_mask, bo_use_scanout, bo_use_linear,
  bo_use_camera_read, bo_use_camera_write, bo_use_hw_video_decoder, bo_use_hw_video_encoder,
  bo_use_sw_mask, bo_use_gpu_data_buffer, bo_use_sensor_direct_data,
}
use external_minigbm.Errors.{einval}
use external_minigbm.Layout.{drv_stride_from_format}
use external_minigbm.Bo.{BoMetadata, Bo}
use external_minigbm.Planes.{drv_bo_from_format}
use external_minigbm.Modifiers.{drv_has_modifier}
use external_minigbm.Combinations.{
  Combinations, linear_metadata, drv_add_combination, drv_add_combinations, drv_modify_combination,
  drv_modify_linear_combinations,
}

abbrev pub scanout_render_formats : List ℕ
scanout_render_formats =
    drm_format_abgr8888 ∷ drm_format_argb8888 ∷ drm_format_bgr888 ∷ drm_format_rgb565
    ∷ drm_format_xbgr8888 ∷ drm_format_xrgb8888 ∷ []

abbrev pub texture_only_formats : List ℕ
texture_only_formats = drm_format_nv12 ∷ drm_format_yvu420 ∷ drm_format_yvu420_android ∷ []

-- The blocks of `afbc_bo_from_format` are 16 by 16 pixels of four bytes.
abbrev pub header_block_size : ℕ
header_block_size = 16

abbrev pub body_block_size : ℕ
body_block_size = 16 * 16 * 4

abbrev pub body_plane_alignment : ℕ
body_plane_alignment = 1024

unfoldable pub total_blocks : ℕ → ℕ → ℕ
unfolding div_round_up
total_blocks width height = wrap32 (div_round_up width 16 * div_round_up height 16)

unfoldable pub body_plane_offset : ℕ → ℕ → ℕ
unfolding total_blocks align
body_plane_offset width height =
    align (wrap32 (total_blocks width height * header_block_size)) body_plane_alignment

unfoldable pub afbc_bo_from_format : BoMetadata → ℕ → ℕ → ℕ → BoMetadata
unfolding total_blocks body_plane_offset div_round_up
afbc_bo_from_format metadata width height modifier =
    let body_plane_size = wrap32 (total_blocks width height * body_block_size) in
    let total_size = wrap32 (body_plane_offset width height + body_plane_size) in
    record metadata {
      strides = set metadata.strides 0 (wrap32 (div_round_up width 16 * 16 * 4));
      sizes = set metadata.sizes 0 total_size;
      offsets = set metadata.offsets 0 0;
      total_size = total_size;
      format_modifier = modifier;
    }

unfoldable pub rockchip_init : Combinations → Combinations
unfolding drv_add_combinations drv_add_combination drv_modify_combination
    drv_modify_linear_combinations
rockchip_init combos =
    let video = any_of (bo_use_hw_video_decoder ∷ bo_use_hw_video_encoder ∷ []) in
    let camera = any_of (bo_use_camera_read ∷ bo_use_camera_write ∷ []) in
    let added =
      drv_add_combinations
        (drv_add_combinations combos scanout_render_formats linear_metadata
          (bit_or bo_use_render_mask bo_use_scanout))
        texture_only_formats linear_metadata bo_use_texture_mask in
    let nv12 =
      drv_modify_combination added drm_format_nv12 linear_metadata
        (any_of (camera ∷ bo_use_scanout ∷ video ∷ [])) in
    drv_add_combination (drv_modify_linear_combinations nv12) drm_format_r8 linear_metadata (
      any_of (
        camera ∷ bo_use_sw_mask ∷ bo_use_linear ∷ video ∷ bo_use_gpu_data_buffer
        ∷ bo_use_sensor_direct_data ∷ []))

-- NV12, with room for the video driver's motion vectors.
unfoldable pub nv12_from_format : BoMetadata → ℕ → ℕ → Option BoMetadata
unfolding drv_bo_from_format div_round_up
nv12_from_format metadata width height = do
  let w_mbs = div_round_up width 16
  let h_mbs = div_round_up height 16
  laid ← drv_bo_from_format metadata (wrap32 (w_mbs * 16)) 1 (wrap32 (h_mbs * 16)) drm_format_nv12
  some (record laid { total_size = laid.total_size + wrap32 (w_mbs * h_mbs * 128) })

unfoldable pub linear_from_format : BoMetadata → ℕ → ℕ → ℕ → Option BoMetadata
unfolding drv_stride_from_format drv_bo_from_format align
linear_from_format metadata width height format = do
  stride ← drv_stride_from_format format width 0
  let planar = format == drm_format_yvu420 || format == drm_format_yvu420_android
  drv_bo_from_format metadata (align stride (if planar then 128 else 64)) 1 height format

-- The kernel's object for the layout: an error number, or the buffer.
abbrev pub gem_create : (ℕ → ℕ ⊎ ℕ) → Bo → BoMetadata → ℕ ⊎ Bo
gem_create kernel bo metadata = elim (kernel metadata.total_size) [
  | inl errno ↦ inl errno
  | inr handle ↦ inr (record bo { metadata = metadata; handle = handle })
]

-- `chromeos_afbc` is DRM_FORMAT_MOD_CHROMEOS_ROCKCHIP_AFBC, and `kernel` answers for a size with an
-- error number or a handle.
module _ (chromeos_afbc : ℕ) (compression : Bool) (kernel : ℕ → ℕ ⊎ ℕ) where
  unfoldable pub choose_afbc : List ℕ → ℕ
  unfolding drv_has_modifier
  choose_afbc modifiers =
      if drv_has_modifier modifiers drm_format_mod_rockchip_afbc
      then drm_format_mod_rockchip_afbc
      else if drv_has_modifier modifiers chromeos_afbc
      then chromeos_afbc
      else 0

  unfoldable pub rockchip_bo_create_with_modifiers : Bo → ℕ → ℕ → ℕ → List ℕ → Option (ℕ ⊎ Bo)
  unfolding choose_afbc nv12_from_format afbc_bo_from_format linear_from_format drv_has_modifier
  rockchip_bo_create_with_modifiers bo width height format modifiers =
      let afbc_modifier = choose_afbc modifiers in
      if format == drm_format_nv12
      then (do laid ← nv12_from_format bo.metadata width height; some (gem_create kernel bo laid))
      else if leb width 2560 && not (afbc_modifier == 0) && compression
      then some (gem_create kernel bo (afbc_bo_from_format bo.metadata width height afbc_modifier))
      else if not (drv_has_modifier modifiers drm_format_mod_linear)
      then some (inl einval)
      else (do
        laid ← linear_from_format bo.metadata width height format
        some (gem_create kernel bo laid))

  unfoldable pub rockchip_bo_create : Bo → ℕ → ℕ → ℕ → Option (ℕ ⊎ Bo)
  unfolding rockchip_bo_create_with_modifiers
  rockchip_bo_create bo width height format =
      rockchip_bo_create_with_modifiers bo width height format (drm_format_mod_linear ∷ [])
