-- ===== src/DumbDriver.antt =====
-- dumb_driver.c: the backend of drivers that offer only the kernel's dumb buffers.
use external_minigbm.Base.{ℕ, Option, some, ◌⊎◌, inl, List, [], ◌∷◌, ◌==◌, if◌then◌else◌, bit_or}
use external_minigbm.Drm.{
  drm_format_argb8888, drm_format_xrgb8888, drm_format_abgr8888, drm_format_xbgr8888,
  drm_format_bgr888, drm_format_rgb565, drm_format_r8, drm_format_nv12, drm_format_nv21,
  drm_format_yvu420, drm_format_yvu420_android, drm_format_mod_linear,
}
use external_minigbm.Flags.{
  any_of, bo_use_render_mask, bo_use_texture_mask, bo_use_scanout, bo_use_camera_read,
  bo_use_camera_write, bo_use_hw_video_decoder, bo_use_hw_video_encoder, bo_use_gpu_data_buffer,
  bo_use_sensor_direct_data,
}
use external_minigbm.Errors.{einval}
use external_minigbm.Bo.{Bo}
use external_minigbm.Combinations.{
  Combinations, linear_metadata, drv_add_combinations, drv_modify_combination,
  drv_modify_linear_combinations,
}
use external_minigbm.Dumb.{DumbRequest, DumbAnswer, drv_dumb_bo_create}

abbrev pub scanout_render_formats : List ℕ
scanout_render_formats =
    drm_format_argb8888 ∷ drm_format_xrgb8888 ∷ drm_format_abgr8888 ∷ drm_format_xbgr8888
    ∷ drm_format_bgr888 ∷ drm_format_rgb565 ∷ []

abbrev pub texture_only_formats : List ℕ
texture_only_formats =
    drm_format_r8 ∷ drm_format_nv12 ∷ drm_format_nv21 ∷ drm_format_yvu420
    ∷ drm_format_yvu420_android ∷ []

unfoldable pub dumb_driver_init : Combinations → Combinations
unfolding drv_add_combinations drv_modify_combination drv_modify_linear_combinations
dumb_driver_init combos =
    let camera = any_of (
      bo_use_hw_video_encoder ∷ bo_use_hw_video_decoder ∷ bo_use_camera_read ∷ bo_use_camera_write
      ∷ []) in
    let added =
      drv_add_combinations
        (drv_add_combinations combos scanout_render_formats linear_metadata
          (bit_or bo_use_render_mask bo_use_scanout))
        texture_only_formats linear_metadata bo_use_texture_mask in
    let r8 =
      drv_modify_combination added drm_format_r8 linear_metadata
        (any_of (camera ∷ bo_use_gpu_data_buffer ∷ bo_use_sensor_direct_data ∷ [])) in
    let nv12 = drv_modify_combination r8 drm_format_nv12 linear_metadata camera in
    drv_modify_linear_combinations
      (drv_modify_combination nv12 drm_format_nv21 linear_metadata bo_use_hw_video_encoder)

unfoldable pub dumb_bo_create_with_modifiers :
    (DumbRequest → ℕ ⊎ DumbAnswer) → Bo → ℕ → ℕ → ℕ → List ℕ → Option (ℕ ⊎ Bo)
unfolding drv_dumb_bo_create
dumb_bo_create_with_modifiers kernel bo width height format [] = some (inl einval)
dumb_bo_create_with_modifiers kernel bo width height format (m ∷ modifiers) =
    let rest = dumb_bo_create_with_modifiers kernel bo width height format modifiers in
    if m == drm_format_mod_linear then drv_dumb_bo_create kernel bo width height format else rest
