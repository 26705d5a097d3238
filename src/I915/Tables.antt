-- ===== src/I915/Tables.antt =====
-- i915.c: `i915_add_combinations`.
use external_minigbm.Base.{ℕ, List, [], ◌∷◌, bit_or, if◌then◌else◌, leb}
use external_minigbm.Drm.{
  drm_format_abgr2101010, drm_format_abgr8888, drm_format_argb2101010, drm_format_argb8888,
  drm_format_rgb565, drm_format_xbgr2101010, drm_format_xbgr8888, drm_format_xrgb2101010,
  drm_format_xrgb8888, drm_format_abgr16161616f, drm_format_r8, drm_format_nv12, drm_format_p010,
  drm_format_yvu420, drm_format_yvu420_android, drm_format_bgr888, drm_format_mod_linear,
  i915_format_mod_x_tiled, i915_format_mod_y_tiled, i915_format_mod_4_tiled,
}
use external_minigbm.Flags.{
  any_of, bo_use_render_mask, bo_use_texture_mask, bo_use_scanout, bo_use_protected,
  bo_use_renderscript, bo_use_linear, bo_use_sw_read_often, bo_use_sw_write_often,
  bo_use_sw_read_rarely, bo_use_sw_write_rarely, bo_use_camera_read, bo_use_camera_write,
  bo_use_hw_video_decoder, bo_use_hw_video_encoder, bo_use_sw_mask, bo_use_gpu_data_buffer,
  bo_use_sensor_direct_data, bo_use_texture,
}
use external_minigbm.Resolve.{clear_flags}
use external_minigbm.Combinations.{
  FormatMetadata, Combinations, drv_add_combination, drv_add_combinations, drv_modify_combination,
  drv_modify_linear_combinations,
}
use external_minigbm.I915.{I915Device}

abbrev pub i915_tiling_none : ℕ
i915_tiling_none = 0

abbrev pub i915_tiling_x : ℕ
i915_tiling_x = 1

abbrev pub i915_tiling_y : ℕ
i915_tiling_y = 2

abbrev pub i915_tiling_4 : ℕ
i915_tiling_4 = 9

abbrev pub scanout_render_formats : List ℕ
scanout_render_formats =
    drm_format_abgr2101010 ∷ drm_format_abgr8888 ∷ drm_format_argb2101010 ∷ drm_format_argb8888
    ∷ drm_format_rgb565 ∷ drm_format_xbgr2101010 ∷ drm_format_xbgr8888 ∷ drm_format_xrgb2101010
    ∷ drm_format_xrgb8888 ∷ []

abbrev pub render_formats : List ℕ
render_formats = drm_format_abgr16161616f ∷ []

abbrev pub texture_only_formats : List ℕ
texture_only_formats =
    drm_format_r8 ∷ drm_format_nv12 ∷ drm_format_p010 ∷ drm_format_yvu420
    ∷ drm_format_yvu420_android ∷ []

unfoldable pub unset_flags : ℕ → ℕ → ℕ
unfolding clear_flags
unset_flags current_flags mask = clear_flags current_flags mask

abbrev pub hw_protected : I915Device → ℕ
hw_protected i915 = if i915.has_hw_protection then bit_or bo_use_protected bo_use_scanout else 0

abbrev pub linear_mask : ℕ
linear_mask = any_of (
    bo_use_renderscript ∷ bo_use_linear ∷ bo_use_sw_read_often ∷ bo_use_sw_write_often
    ∷ bo_use_sw_read_rarely ∷ bo_use_sw_write_rarely ∷ [])

-- The uses of a format for camera, display, decoding and encoding.
abbrev pub video_uses : I915Device → ℕ
video_uses i915 = any_of (
    bo_use_camera_read
    ∷ bo_use_camera_write
    ∷ bo_use_scanout
    ∷ bo_use_hw_video_decoder
    ∷ bo_use_hw_video_encoder
    ∷ hw_protected i915
    ∷ [])

abbrev pub blob_uses : ℕ
blob_uses = any_of (
    bo_use_camera_read ∷ bo_use_camera_write ∷ bo_use_hw_video_decoder ∷ bo_use_hw_video_encoder
    ∷ bo_use_gpu_data_buffer ∷ bo_use_sensor_direct_data ∷ [])

abbrev pub metadata_linear : FormatMetadata
metadata_linear = record {
  priority = 1;
  tiling = i915_tiling_none;
  modifier = drm_format_mod_linear;
}

abbrev pub metadata_x_tiled : FormatMetadata
metadata_x_tiled = record {
  priority = 2;
  tiling = i915_tiling_x;
  modifier = i915_format_mod_x_tiled;
}

abbrev pub metadata_y_tiled : FormatMetadata
metadata_y_tiled = record {
  priority = 3;
  tiling = i915_tiling_y;
  modifier = i915_format_mod_y_tiled;
}

abbrev pub metadata_4_tiled : FormatMetadata
metadata_4_tiled = record {
  priority = 3;
  tiling = i915_tiling_4;
  modifier = i915_format_mod_4_tiled;
}

abbrev pub render_not_linear : ℕ
render_not_linear = unset_flags bo_use_render_mask linear_mask

-- The linear combinations.
unfoldable pub add_linear : I915Device → Combinations → Combinations
unfolding drv_add_combinations drv_modify_linear_combinations drv_modify_combination
    drv_add_combination
add_linear i915 combos =
    let added =
      drv_add_combinations
        (drv_add_combinations
          (drv_add_combinations combos scanout_render_formats metadata_linear
            (bit_or bo_use_render_mask bo_use_scanout))
          render_formats metadata_linear bo_use_render_mask)
        texture_only_formats metadata_linear bo_use_texture_mask in
    let nv12 =
      drv_modify_combination (drv_modify_linear_combinations added) drm_format_nv12 metadata_linear
        (video_uses i915) in
    let p010 = drv_modify_combination nv12 drm_format_p010 metadata_linear bo_use_scanout in
    let yv12 =
      drv_modify_combination p010 drm_format_yvu420_android metadata_linear (video_uses i915) in
    let bgr = drv_add_combination yv12 drm_format_bgr888 metadata_linear bo_use_sw_mask in
    drv_modify_combination bgr drm_format_r8 metadata_linear blob_uses

unfoldable pub add_x_tiled : Combinations → Combinations
unfolding drv_add_combinations
add_x_tiled combos =
    drv_add_combinations
      (drv_add_combinations combos render_formats metadata_x_tiled render_not_linear)
      scanout_render_formats metadata_x_tiled (bit_or render_not_linear bo_use_scanout)

-- The branch of `is_mtl`, where `I915_SCANOUT_4_TILED` is not defined.
unfoldable pub add_4_tiled : Combinations → Combinations
unfolding drv_add_combinations drv_add_combination
add_4_tiled combos =
    let usage = bit_or bo_use_texture bo_use_hw_video_decoder in
    drv_add_combinations
      (drv_add_combinations
        (drv_add_combination (drv_add_combination combos drm_format_nv12 metadata_4_tiled usage)
          drm_format_p010 metadata_4_tiled usage)
        render_formats metadata_4_tiled render_not_linear)
      scanout_render_formats metadata_4_tiled (bit_or render_not_linear bo_use_scanout)

-- The other branch, where `I915_SCANOUT_Y_TILED` is defined.
unfoldable pub add_y_tiled : I915Device → Combinations → Combinations
unfolding drv_add_combinations drv_add_combination
add_y_tiled i915 combos =
    let decoded = bit_or bo_use_texture bo_use_hw_video_decoder in
    let nv12_usage = bit_or (bit_or decoded bo_use_scanout) (hw_protected i915) in
    let p010_usage =
      bit_or (bit_or decoded (hw_protected i915))
        (if leb 11 i915.graphics_version then bo_use_scanout else 0) in
    drv_add_combination
      (drv_add_combination
        (drv_add_combinations
          (drv_add_combinations combos render_formats metadata_y_tiled render_not_linear)
          scanout_render_formats metadata_y_tiled render_not_linear)
        drm_format_nv12 metadata_y_tiled nv12_usage)
      drm_format_p010 metadata_y_tiled p010_usage

unfoldable pub i915_add_combinations : I915Device → Combinations → Combinations
unfolding add_linear add_x_tiled add_4_tiled add_y_tiled
i915_add_combinations i915 combos =
    let untiled = add_x_tiled (add_linear i915 combos) in
    if i915.is_mtl then add_4_tiled untiled else add_y_tiled i915 untiled
