-- ===== src/Msm/Tables.antt =====
-- msm.c: `msm_init`, for the build without SC_7280 and QCOM_DISABLE_COMPRESSED_NV12.
use external_minigbm.Base.{ℕ, Bool, not, ◌||◌, List, [], ◌∷◌, bit_or, ◌==◌, if◌then◌else◌}
use external_minigbm.Drm.{
  drm_format_abgr8888, drm_format_argb8888, drm_format_rgb565, drm_format_xbgr8888,
  drm_format_xrgb8888, drm_format_abgr2101010, drm_format_abgr16161616f, drm_format_nv12,
  drm_format_r8, drm_format_yvu420, drm_format_yvu420_android, drm_format_p010, drm_format_bgr888,
  drm_format_mod_qcom_compressed,
}
use external_minigbm.Flags.{
  any_of, bo_use_render_mask, bo_use_texture_mask, bo_use_scanout, bo_use_renderscript,
  bo_use_linear, bo_use_front_rendering, bo_use_camera_read, bo_use_camera_write,
  bo_use_hw_video_decoder, bo_use_hw_video_encoder, bo_use_sw_mask, bo_use_gpu_data_buffer,
  bo_use_sensor_direct_data,
}
use external_minigbm.Resolve.{clear_flags}
use external_minigbm.Combinations.{
  FormatMetadata, Combinations, linear_metadata, drv_add_combination, drv_add_combinations,
  drv_modify_combination, drv_modify_linear_combinations,
}

abbrev pub render_target_formats : List ℕ
render_target_formats =
    drm_format_abgr8888 ∷ drm_format_argb8888 ∷ drm_format_rgb565 ∷ drm_format_xbgr8888
    ∷ drm_format_xrgb8888 ∷ drm_format_abgr2101010 ∷ drm_format_abgr16161616f ∷ []

abbrev pub texture_source_formats : List ℕ
texture_source_formats =
    drm_format_nv12 ∷ drm_format_r8 ∷ drm_format_yvu420 ∷ drm_format_yvu420_android
    ∷ drm_format_p010 ∷ []

unfoldable pub is_ubwc_fmt : ℕ → Bool
is_ubwc_fmt format =
    format == drm_format_xbgr8888
    || format == drm_format_abgr8888
    || format == drm_format_xrgb8888
    || format == drm_format_argb8888
    || format == drm_format_nv12

unfoldable pub msm_add_ubwc_combinations : Combinations → List ℕ → FormatMetadata → ℕ → Combinations
unfolding is_ubwc_fmt drv_add_combination
msm_add_ubwc_combinations combos [] metadata use_flags = combos
msm_add_ubwc_combinations combos (format ∷ formats) metadata use_flags =
    msm_add_ubwc_combinations
      (if is_ubwc_fmt format then drv_add_combination combos format metadata use_flags else combos)
      formats metadata use_flags

abbrev pub ubwc_metadata : FormatMetadata
ubwc_metadata = record { priority = 2; tiling = 1; modifier = drm_format_mod_qcom_compressed }

abbrev pub render_use_flags : ℕ
render_use_flags = bit_or bo_use_render_mask bo_use_scanout

abbrev pub texture_use_flags : ℕ
texture_use_flags = bit_or bo_use_texture_mask bo_use_hw_video_decoder

-- The uses for which nothing is compressed.
abbrev pub sw_flags : ℕ
sw_flags =
    any_of (bo_use_renderscript ∷ bo_use_sw_mask ∷ bo_use_linear ∷ bo_use_front_rendering ∷ [])

abbrev pub camera_uses : ℕ
camera_uses = bit_or bo_use_camera_read bo_use_camera_write

abbrev pub msm_blob_uses : ℕ
msm_blob_uses = any_of (
    camera_uses ∷ bo_use_hw_video_decoder ∷ bo_use_hw_video_encoder ∷ bo_use_gpu_data_buffer
    ∷ bo_use_sensor_direct_data ∷ [])

-- The linear combinations.
unfoldable pub add_linear_combinations : Combinations → Combinations
unfolding drv_add_combinations drv_add_combination drv_modify_combination
    drv_modify_linear_combinations
add_linear_combinations combos =
    let added =
      drv_add_combinations
        (drv_add_combinations combos render_target_formats linear_metadata render_use_flags)
        texture_source_formats linear_metadata texture_use_flags in
    let nv12 =
      drv_modify_combination added drm_format_nv12 linear_metadata
        (any_of (camera_uses ∷ bo_use_scanout ∷ bo_use_hw_video_encoder ∷ [])) in
    let r8 = drv_modify_combination nv12 drm_format_r8 linear_metadata msm_blob_uses in
    let yv12 = drv_modify_combination r8 drm_format_yvu420_android linear_metadata camera_uses in
    let yvu = drv_modify_combination yv12 drm_format_yvu420 linear_metadata camera_uses in
    drv_modify_linear_combinations
      (drv_add_combination yvu drm_format_bgr888 linear_metadata bo_use_sw_mask)

-- The compressed ones.
unfoldable pub add_ubwc_combinations : Combinations → Combinations
unfolding msm_add_ubwc_combinations drv_modify_combination
add_ubwc_combinations combos =
    drv_modify_combination
      (msm_add_ubwc_combinations
        (msm_add_ubwc_combinations combos render_target_formats ubwc_metadata
          (clear_flags render_use_flags sw_flags))
        texture_source_formats ubwc_metadata (clear_flags texture_use_flags sw_flags))
      drm_format_nv12 ubwc_metadata (bit_or bo_use_scanout bo_use_hw_video_encoder)

-- `msm_init`. `avoid_ubwc` is whether waffle is loaded, for `should_avoid_ubwc`.
unfoldable pub msm_init : Bool → Bool → Combinations → Combinations
unfolding add_linear_combinations add_ubwc_combinations
msm_init avoid_ubwc compression combos =
    if avoid_ubwc || not compression
    then add_linear_combinations combos
    else add_ubwc_combinations (add_linear_combinations combos)
