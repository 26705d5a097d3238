-- ===== src/Mediatek.antt =====
-- mediatek.c: the platforms that the build tells apart, the table of combinations, and what a
-- client's format and use flags stand for.
pub mod Copies
pub mod Create
pub mod Held
pub mod Offered
pub mod Allocated
pub mod Outcome
pub mod Padding
pub mod Planned
pub mod Shadow
pub mod Shaped
mod Tests
use external_minigbm.Base.{
  ℕ, Bool, true, false, not, ◌&&◌, ◌||◌, List, [], ◌∷◌, ◌++◌, bit_or, ◌==◌, if◌then◌else◌, has_flag,
}
use external_minigbm.Drm.{
  drm_format_abgr8888, drm_format_argb8888, drm_format_rgb565, drm_format_xbgr8888,
  drm_format_xrgb8888, drm_format_nv21, drm_format_yuyv, drm_format_p010, drm_format_abgr2101010,
  drm_format_abgr16161616f, drm_format_nv12, drm_format_yvu420, drm_format_yvu420_android,
  drm_format_r8, drm_format_argb2101010, drm_format_bgr888, drm_format_mtisp_sxyzw10,
  drm_format_flex_implementation_defined, drm_format_flex_ycbcr_420_888,
}
use external_minigbm.Flags.{
  any_of, bo_use_render_mask, bo_use_scanout, bo_use_protected, bo_use_texture_mask, bo_use_sw_mask,
  bo_use_linear, bo_use_texture, bo_use_hw_video_decoder, bo_use_hw_video_encoder,
  bo_use_camera_read, bo_use_camera_write, bo_use_gpu_data_buffer, bo_use_sensor_direct_data,
}
use external_minigbm.Layout.{one_of}
use external_minigbm.Resolve.{clear_flags}
use external_minigbm.Combinations.{
  Combinations, linear_metadata, drv_add_combination, drv_add_combinations, drv_modify_combination,
  drv_modify_linear_combinations,
}

-- The macro MTK_* that the build defines; `unnamed` where it defines none.
pub data Platform : Type 0 where
  mt8173 : Platform
  mt8183 : Platform
  mt8186 : Platform
  mt8188g : Platform
  mt8192 : Platform
  mt8195 : Platform
  mt8196 : Platform
  unnamed : Platform

-- `defined(MTK_MT8173)` and `defined(MTK_MT8183)`
unfoldable pub is_mt8173 : Platform → Bool
is_mt8173 mt8173 = true
is_mt8173 p = false

unfoldable pub is_mt8183 : Platform → Bool
is_mt8183 mt8183 = true
is_mt8183 p = false

unfoldable pub support_yuv422 : Platform → Bool
support_yuv422 mt8183 = true
support_yuv422 mt8186 = true
support_yuv422 p = false

-- `USE_NV12_FOR_HW_VIDEO_DECODING`, which comes with SUPPORT_FP16_AND_10BIT_ABGR and without
-- DONT_USE_64_ALIGNMENT_FOR_VIDEO_BUFFERS.
unfoldable pub use_nv12_for_hw_video_decoding : Platform → Bool
use_nv12_for_hw_video_decoding mt8173 = false
use_nv12_for_hw_video_decoding unnamed = false
use_nv12_for_hw_video_decoding p = true

-- `SUPPORT_P010`, which comes with SUPPORT_AR30_OVERLAYS.
unfoldable pub support_p010 : Platform → Bool
support_p010 mt8173 = false
support_p010 mt8183 = false
support_p010 mt8186 = false
support_p010 mt8192 = false
support_p010 p = true

unfoldable pub use_extra_padding_for_yvu420 : Platform → Bool
use_extra_padding_for_yvu420 mt8186 = true
use_extra_padding_for_yvu420 p = false

abbrev pub render_target_formats : List ℕ
render_target_formats =
    drm_format_abgr8888 ∷ drm_format_argb8888 ∷ drm_format_rgb565 ∷ drm_format_xbgr8888
    ∷ drm_format_xrgb8888 ∷ []

unfoldable pub texture_source_formats : Platform → List ℕ
unfolding support_yuv422 support_p010 use_nv12_for_hw_video_decoding
texture_source_formats p =
    (if support_yuv422 p then drm_format_nv21 ∷ drm_format_yuyv ∷ [] else [])
    ++ ((if support_p010 p then drm_format_p010 ∷ [] else [])
        ++ ((if use_nv12_for_hw_video_decoding p
              then drm_format_abgr2101010 ∷ drm_format_abgr16161616f ∷ []
              else [])
            ++ (drm_format_nv12 ∷ drm_format_yvu420 ∷ drm_format_yvu420_android ∷ [])))

unfoldable pub video_yuv_formats : Platform → List ℕ
unfolding support_p010
video_yuv_formats p =
    (drm_format_nv21 ∷ drm_format_nv12 ∷ [])
    ++ ((if support_p010 p then drm_format_p010 ∷ [] else [])
        ++ (drm_format_yuyv ∷ drm_format_yvu420 ∷ drm_format_yvu420_android ∷ []))

unfoldable pub is_video_yuv_format : Platform → ℕ → Bool
unfolding video_yuv_formats one_of
is_video_yuv_format p format = one_of format (video_yuv_formats p)

abbrev camera : ℕ
camera = bit_or bo_use_camera_read bo_use_camera_write

-- The combinations that `mediatek_init` adds.
unfoldable pub added : Platform → Combinations → Combinations
unfolding drv_add_combinations drv_add_combination texture_source_formats support_p010
added p combos =
    let targets =
      drv_add_combinations combos render_target_formats linear_metadata
        (any_of (bo_use_render_mask ∷ bo_use_scanout ∷ bo_use_protected ∷ [])) in
    let sources =
      drv_add_combinations targets (texture_source_formats p) linear_metadata
        (bit_or bo_use_texture_mask bo_use_protected) in
    let r8 =
      drv_add_combination sources drm_format_r8 linear_metadata
        (any_of (bo_use_sw_mask ∷ bo_use_linear ∷ bo_use_protected ∷ [])) in
    let ar30 =
      if support_p010 p
      then drv_add_combination r8 drm_format_argb2101010 linear_metadata
          (any_of (bo_use_texture ∷ bo_use_scanout ∷ bo_use_protected ∷ bo_use_linear ∷ []))
      else r8 in
    let yuyv = drv_add_combination ar30 drm_format_yuyv linear_metadata (
      any_of (
        bo_use_hw_video_decoder ∷ bo_use_scanout ∷ bo_use_linear ∷ bo_use_texture ∷ bo_use_protected
        ∷ [])) in
    drv_add_combination yuyv drm_format_bgr888 linear_metadata bo_use_sw_mask

-- The formats of MT8183's camera.
unfoldable pub camera_combinations : Platform → Combinations → Combinations
unfolding drv_modify_combination drv_add_combination is_mt8183
camera_combinations p combos =
    if not (is_mt8183 p)
    then combos
    else (let nv21 = drv_modify_combination combos drm_format_nv21 linear_metadata camera in
        let yuyv = drv_modify_combination nv21 drm_format_yuyv linear_metadata camera in
        let yvu = drv_modify_combination yuyv drm_format_yvu420 linear_metadata camera in
        drv_add_combination yvu drm_format_mtisp_sxyzw10 linear_metadata
          (bit_or camera bo_use_sw_mask))

unfoldable pub mediatek_init : Platform → Combinations → Combinations
unfolding added drv_modify_combination camera_combinations drv_modify_linear_combinations is_mt8173
    use_nv12_for_hw_video_decoding
mediatek_init p combos =
    let decoder = bit_or bo_use_hw_video_decoder bo_use_protected in
    let yvu = drv_modify_combination (added p combos) drm_format_yvu420 linear_metadata decoder in
    let encoded =
      if is_mt8173 p
      then drv_modify_combination yvu drm_format_yvu420 linear_metadata bo_use_hw_video_encoder
      else yvu in
    let android =
      drv_modify_combination encoded drm_format_yvu420_android linear_metadata decoder in
    let nv12 =
      if use_nv12_for_hw_video_decoding p
      then drv_modify_combination android drm_format_nv12 linear_metadata decoder
      else android in
    let p010 = drv_modify_combination nv12 drm_format_p010 linear_metadata decoder in
    let r8 = drv_modify_combination p010 drm_format_r8 linear_metadata (
      any_of (
        bo_use_hw_video_decoder ∷ bo_use_hw_video_encoder ∷ camera ∷ bo_use_gpu_data_buffer
        ∷ bo_use_sensor_direct_data ∷ [])) in
    let display =
      drv_modify_combination r8 drm_format_nv12 linear_metadata
        (any_of (bo_use_scanout ∷ bo_use_hw_video_encoder ∷ camera ∷ [])) in
    drv_modify_linear_combinations (camera_combinations p display)

-- The `switch` of `mediatek_resolve_format_and_use_flags`, for the two flexible formats.
unfoldable pub resolve_implementation_defined : Platform → ℕ → ℕ × ℕ
unfolding is_mt8183 clear_flags
resolve_implementation_defined p use_flags =
    if is_mt8183 p && has_flag use_flags bo_use_camera_read
    then (drm_format_mtisp_sxyzw10, use_flags)
    else if has_flag use_flags bo_use_camera_write
    then (drm_format_nv12, use_flags)
    else (drm_format_xbgr8888, clear_flags use_flags bo_use_hw_video_encoder)

unfoldable pub resolve_ycbcr_420_888 : Platform → ℕ → ℕ × ℕ
unfolding is_mt8173 use_nv12_for_hw_video_decoding clear_flags
resolve_ycbcr_420_888 p use_flags =
    let decodes = has_flag use_flags bo_use_hw_video_decoder in
    if use_nv12_for_hw_video_decoding p && decodes
    then (drm_format_nv12, use_flags)
    else if has_flag use_flags (bit_or camera bo_use_hw_video_encoder)
        && not (is_mt8173 p && decodes)
    then (drm_format_nv12, use_flags)
    else (drm_format_yvu420, clear_flags use_flags bo_use_scanout)

-- The format and the use flags that `mediatek_resolve_format_and_use_flags` writes.
unfoldable pub mediatek_resolve_format_and_use_flags : Platform → ℕ → ℕ → ℕ × ℕ
unfolding resolve_implementation_defined resolve_ycbcr_420_888 is_video_yuv_format clear_flags
mediatek_resolve_format_and_use_flags p format use_flags =
    let (out_format, out_use_flags) =
      (if format == drm_format_flex_implementation_defined
        then resolve_implementation_defined p use_flags
        else if format == drm_format_flex_ycbcr_420_888
        then resolve_ycbcr_420_888 p use_flags
        else (format, use_flags)) in
    (
      out_format,
      if is_video_yuv_format p format
          then clear_flags out_use_flags bo_use_scanout
          else out_use_flags,
    )
