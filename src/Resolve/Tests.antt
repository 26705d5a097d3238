-- ===== src/Resolve/Tests.antt =====
-- Runs of the resolution of formats.
use external_minigbm.Base.{◌≡◌, refl}
use external_minigbm.Drm.{
  drm_format_nv12, drm_format_flex_implementation_defined, drm_format_yvu420,
  drm_format_yvu420_android,
}
use external_minigbm.Flags.{bo_use_camera_read}
use external_minigbm.Resolve.{drv_resolve_format_and_use_flags_helper, drv_get_standard_fourcc}

camera_nv12 :
    drv_resolve_format_and_use_flags_helper drm_format_flex_implementation_defined
      bo_use_camera_read
    ≡ (drm_format_nv12, bo_use_camera_read)
unfolding drv_resolve_format_and_use_flags_helper
camera_nv12 = refl

android_standard : drv_get_standard_fourcc drm_format_yvu420_android ≡ drm_format_yvu420
unfolding drv_get_standard_fourcc
android_standard = refl
