-- ===== src/Resolve.antt =====
-- drv_helpers.c and drv.c: what a client's format and use flags stand for.
mod Tests
pub mod Laws
use external_minigbm.Base.{
  ℕ, ◌-◌, ◌/◌, ◌^◌, Bool, Option, some, ◌>>=◌, bit_and, bit_or, ◌==◌, if◌then◌else◌, has_flag,
}
use external_minigbm.Drm.{
  drm_format_flex_implementation_defined, drm_format_flex_ycbcr_420_888, drm_format_nv12,
  drm_format_xbgr8888, drm_format_yvu420, drm_format_yvu420_android,
}
use external_minigbm.Flags.{
  bo_use_camera_read, bo_use_camera_write, bo_use_hw_video_encoder, bo_use_scanout,
}

-- `flags & ~mask` on 64 bits.
unfoldable pub clear_flags : ℕ → ℕ → ℕ
clear_flags flags mask = bit_and flags (2 ^ 64 - 1 - mask)

-- `drv_resolve_format_and_use_flags_helper`: the format and the use flags that it writes.
unfoldable pub drv_resolve_format_and_use_flags_helper : ℕ → ℕ → ℕ × ℕ
unfolding clear_flags
drv_resolve_format_and_use_flags_helper format use_flags =
    if format == drm_format_flex_implementation_defined
    then (if has_flag use_flags (bit_or bo_use_camera_read bo_use_camera_write)
        then (drm_format_nv12, use_flags)
        else (drm_format_xbgr8888, clear_flags use_flags bo_use_hw_video_encoder))
    else (if format == drm_format_flex_ycbcr_420_888
        then (drm_format_nv12, use_flags)
        else (if format == drm_format_yvu420_android
            then (format, clear_flags use_flags bo_use_scanout)
            else (format, use_flags)))

-- `drv_get_standard_fourcc`
unfoldable pub drv_get_standard_fourcc : ℕ → ℕ
drv_get_standard_fourcc fourcc_internal =
    if fourcc_internal == drm_format_yvu420_android then drm_format_yvu420 else fourcc_internal
