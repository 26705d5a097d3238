-- ===== src/Resolve/Laws.antt =====
-- A resolved request names a real format, and resolving it again changes nothing.
use external_minigbm.Base.{ℕ, ◌-◌, ◌^◌, ◌≡◌, ◌≢◌, arith, bit_and_twice}
use external_minigbm.Drm.{drm_format_flex_implementation_defined, drm_format_flex_ycbcr_420_888}
use external_minigbm.Flags.{bo_use_scanout, bo_use_hw_video_encoder}
use external_minigbm.Resolve.{clear_flags, drv_resolve_format_and_use_flags_helper}

-- `drv_resolve_format_and_use_flags_helper` never returns one of the two flexible formats.
pub resolve_concrete :
    (format use_flags : ℕ)
    → ((drv_resolve_format_and_use_flags_helper format use_flags).0
        ≢ drm_format_flex_implementation_defined)
      × ((drv_resolve_format_and_use_flags_helper format use_flags).0
          ≢ drm_format_flex_ycbcr_420_888)
unfolding drv_resolve_format_and_use_flags_helper
resolve_concrete format use_flags = ground arith

clear_flags_twice :
    (flags mask : ℕ) → clear_flags (clear_flags flags mask) mask ≡ clear_flags flags mask
unfolding clear_flags
clear_flags_twice flags mask = bit_and_twice flags (2 ^ 64 - 1 - mask)

-- Resolving what `drv_resolve_format_and_use_flags_helper` returned changes nothing more.
pub resolve_twice :
    (format use_flags : ℕ)
    → let r = drv_resolve_format_and_use_flags_helper format use_flags in
      drv_resolve_format_and_use_flags_helper r.0 r.1 ≡ r
unfolding drv_resolve_format_and_use_flags_helper
resolve_twice format use_flags = ground (
  arith,
  clear_flags_twice use_flags bo_use_scanout,
  clear_flags_twice use_flags bo_use_hw_video_encoder,
)
