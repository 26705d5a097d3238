-- ===== src/Drm.antt =====
-- The fourcc codes of drm_fourcc.h that the sources name. gbm.h repeats the codes under its own
-- prefix ("identical ports from drm_fourcc"), drv.h adds the private ones; R16 and RG88 stand in
-- drm_fourcc.h alone.
use external_minigbm.Base.{ℕ, ◌+◌, ◌-◌, ◌*◌, ◌^◌}

-- `__gbm_fourcc_code(a, b, c, d)`: the four bytes, the first one lowest.
abbrev pub fourcc_code : ℕ → ℕ → ℕ → ℕ → ℕ
fourcc_code a b c d = a + b * 2 ^ 8 + c * 2 ^ 16 + d * 2 ^ 24

abbrev pub drm_format_bgr233 : ℕ
drm_format_bgr233 = fourcc_code b'B' b'G' b'R' b'8'

abbrev pub drm_format_c8 : ℕ
drm_format_c8 = fourcc_code b'C' b'8' b' ' b' '

abbrev pub drm_format_r8 : ℕ
drm_format_r8 = fourcc_code b'R' b'8' b' ' b' '

abbrev pub drm_format_rgb332 : ℕ
drm_format_rgb332 = fourcc_code b'R' b'G' b'B' b'8'

abbrev pub drm_format_r16 : ℕ
drm_format_r16 = fourcc_code b'R' b'1' b'6' b' '

abbrev pub drm_format_depth16 : ℕ
drm_format_depth16 = fourcc_code b'D' b'1' b'6' b' '

abbrev pub drm_format_yvu420 : ℕ
drm_format_yvu420 = fourcc_code b'Y' b'V' b'1' b'2'

abbrev pub drm_format_yvu420_android : ℕ
drm_format_yvu420_android = fourcc_code b'9' b'9' b'9' b'7'

abbrev pub drm_format_nv12 : ℕ
drm_format_nv12 = fourcc_code b'N' b'V' b'1' b'2'

abbrev pub drm_format_nv21 : ℕ
drm_format_nv21 = fourcc_code b'N' b'V' b'2' b'1'

abbrev pub drm_format_p010 : ℕ
drm_format_p010 = fourcc_code b'P' b'0' b'1' b'0'

abbrev pub drm_format_abgr1555 : ℕ
drm_format_abgr1555 = fourcc_code b'A' b'B' b'1' b'5'

abbrev pub drm_format_abgr4444 : ℕ
drm_format_abgr4444 = fourcc_code b'A' b'B' b'1' b'2'

abbrev pub drm_format_argb1555 : ℕ
drm_format_argb1555 = fourcc_code b'A' b'R' b'1' b'5'

abbrev pub drm_format_argb4444 : ℕ
drm_format_argb4444 = fourcc_code b'A' b'R' b'1' b'2'

abbrev pub drm_format_bgr565 : ℕ
drm_format_bgr565 = fourcc_code b'B' b'G' b'1' b'6'

abbrev pub drm_format_bgra4444 : ℕ
drm_format_bgra4444 = fourcc_code b'B' b'A' b'1' b'2'

abbrev pub drm_format_bgra5551 : ℕ
drm_format_bgra5551 = fourcc_code b'B' b'A' b'1' b'5'

abbrev pub drm_format_bgrx4444 : ℕ
drm_format_bgrx4444 = fourcc_code b'B' b'X' b'1' b'2'

abbrev pub drm_format_bgrx5551 : ℕ
drm_format_bgrx5551 = fourcc_code b'B' b'X' b'1' b'5'

abbrev pub drm_format_gr88 : ℕ
drm_format_gr88 = fourcc_code b'G' b'R' b'8' b'8'

abbrev pub drm_format_rg88 : ℕ
drm_format_rg88 = fourcc_code b'R' b'G' b'8' b'8'

abbrev pub drm_format_rgb565 : ℕ
drm_format_rgb565 = fourcc_code b'R' b'G' b'1' b'6'

abbrev pub drm_format_rgba4444 : ℕ
drm_format_rgba4444 = fourcc_code b'R' b'A' b'1' b'2'

abbrev pub drm_format_rgba5551 : ℕ
drm_format_rgba5551 = fourcc_code b'R' b'A' b'1' b'5'

abbrev pub drm_format_rgbx4444 : ℕ
drm_format_rgbx4444 = fourcc_code b'R' b'X' b'1' b'2'

abbrev pub drm_format_rgbx5551 : ℕ
drm_format_rgbx5551 = fourcc_code b'R' b'X' b'1' b'5'

abbrev pub drm_format_uyvy : ℕ
drm_format_uyvy = fourcc_code b'U' b'Y' b'V' b'Y'

abbrev pub drm_format_vyuy : ℕ
drm_format_vyuy = fourcc_code b'V' b'Y' b'U' b'Y'

abbrev pub drm_format_xbgr1555 : ℕ
drm_format_xbgr1555 = fourcc_code b'X' b'B' b'1' b'5'

abbrev pub drm_format_xbgr4444 : ℕ
drm_format_xbgr4444 = fourcc_code b'X' b'B' b'1' b'2'

abbrev pub drm_format_xrgb1555 : ℕ
drm_format_xrgb1555 = fourcc_code b'X' b'R' b'1' b'5'

abbrev pub drm_format_xrgb4444 : ℕ
drm_format_xrgb4444 = fourcc_code b'X' b'R' b'1' b'2'

abbrev pub drm_format_yuyv : ℕ
drm_format_yuyv = fourcc_code b'Y' b'U' b'Y' b'V'

abbrev pub drm_format_yvyu : ℕ
drm_format_yvyu = fourcc_code b'Y' b'V' b'Y' b'U'

abbrev pub drm_format_mtisp_sxyzw10 : ℕ
drm_format_mtisp_sxyzw10 = fourcc_code b'M' b'B' b'1' b'0'

abbrev pub drm_format_bgr888 : ℕ
drm_format_bgr888 = fourcc_code b'B' b'G' b'2' b'4'

abbrev pub drm_format_rgb888 : ℕ
drm_format_rgb888 = fourcc_code b'R' b'G' b'2' b'4'

abbrev pub drm_format_depth24 : ℕ
drm_format_depth24 = fourcc_code b'D' b'2' b'4' b'X'

abbrev pub drm_format_depth24_stencil8 : ℕ
drm_format_depth24_stencil8 = fourcc_code b'D' b'2' b'4' b'S'

abbrev pub drm_format_depth32 : ℕ
drm_format_depth32 = fourcc_code b'D' b'3' b'2' b'F'

abbrev pub drm_format_abgr2101010 : ℕ
drm_format_abgr2101010 = fourcc_code b'A' b'B' b'3' b'0'

abbrev pub drm_format_abgr8888 : ℕ
drm_format_abgr8888 = fourcc_code b'A' b'B' b'2' b'4'

abbrev pub drm_format_argb2101010 : ℕ
drm_format_argb2101010 = fourcc_code b'A' b'R' b'3' b'0'

abbrev pub drm_format_argb8888 : ℕ
drm_format_argb8888 = fourcc_code b'A' b'R' b'2' b'4'

abbrev pub drm_format_ayuv : ℕ
drm_format_ayuv = fourcc_code b'A' b'Y' b'U' b'V'

abbrev pub drm_format_bgra1010102 : ℕ
drm_format_bgra1010102 = fourcc_code b'B' b'A' b'3' b'0'

abbrev pub drm_format_bgra8888 : ℕ
drm_format_bgra8888 = fourcc_code b'B' b'A' b'2' b'4'

abbrev pub drm_format_bgrx1010102 : ℕ
drm_format_bgrx1010102 = fourcc_code b'B' b'X' b'3' b'0'

abbrev pub drm_format_bgrx8888 : ℕ
drm_format_bgrx8888 = fourcc_code b'B' b'X' b'2' b'4'

abbrev pub drm_format_rgba1010102 : ℕ
drm_format_rgba1010102 = fourcc_code b'R' b'A' b'3' b'0'

abbrev pub drm_format_rgba8888 : ℕ
drm_format_rgba8888 = fourcc_code b'R' b'A' b'2' b'4'

abbrev pub drm_format_rgbx1010102 : ℕ
drm_format_rgbx1010102 = fourcc_code b'R' b'X' b'3' b'0'

abbrev pub drm_format_rgbx8888 : ℕ
drm_format_rgbx8888 = fourcc_code b'R' b'X' b'2' b'4'

abbrev pub drm_format_xbgr2101010 : ℕ
drm_format_xbgr2101010 = fourcc_code b'X' b'B' b'3' b'0'

abbrev pub drm_format_xbgr8888 : ℕ
drm_format_xbgr8888 = fourcc_code b'X' b'B' b'2' b'4'

abbrev pub drm_format_xrgb2101010 : ℕ
drm_format_xrgb2101010 = fourcc_code b'X' b'R' b'3' b'0'

abbrev pub drm_format_xrgb8888 : ℕ
drm_format_xrgb8888 = fourcc_code b'X' b'R' b'2' b'4'

abbrev pub drm_format_depth32_stencil8 : ℕ
drm_format_depth32_stencil8 = fourcc_code b'D' b'F' b'S' b'8'

abbrev pub drm_format_abgr16161616f : ℕ
drm_format_abgr16161616f = fourcc_code b'A' b'B' b'4' b'H'

abbrev pub drm_format_flex_implementation_defined : ℕ
drm_format_flex_implementation_defined = fourcc_code b'9' b'9' b'9' b'8'

abbrev pub drm_format_flex_ycbcr_420_888 : ℕ
drm_format_flex_ycbcr_420_888 = fourcc_code b'9' b'9' b'9' b'9'

abbrev pub drm_format_none : ℕ
drm_format_none = fourcc_code b'0' b'0' b'0' b'0'

-- The modifiers of drm_fourcc.h that the shared code compares with: no tiling, and no modifier.
abbrev pub drm_format_mod_linear : ℕ
drm_format_mod_linear = 0

abbrev pub drm_format_mod_invalid : ℕ
drm_format_mod_invalid = 2 ^ 56 - 1

abbrev pub drm_format_p016 : ℕ
drm_format_p016 = fourcc_code b'P' b'0' b'1' b'6'

-- `fourcc_mod_code(INTEL, n)`
abbrev pub intel_mod : ℕ → ℕ
intel_mod n = 2 ^ 56 + n

abbrev pub i915_format_mod_x_tiled : ℕ
i915_format_mod_x_tiled = intel_mod 1

abbrev pub i915_format_mod_y_tiled : ℕ
i915_format_mod_y_tiled = intel_mod 2

abbrev pub i915_format_mod_y_tiled_ccs : ℕ
i915_format_mod_y_tiled_ccs = intel_mod 4

abbrev pub i915_format_mod_y_tiled_gen12_rc_ccs : ℕ
i915_format_mod_y_tiled_gen12_rc_ccs = intel_mod 6

abbrev pub i915_format_mod_y_tiled_gen12_mc_ccs : ℕ
i915_format_mod_y_tiled_gen12_mc_ccs = intel_mod 7

abbrev pub i915_format_mod_4_tiled : ℕ
i915_format_mod_4_tiled = intel_mod 9

abbrev pub i915_format_mod_4_tiled_mtl_rc_ccs : ℕ
i915_format_mod_4_tiled_mtl_rc_ccs = intel_mod 13

abbrev pub i915_format_mod_4_tiled_mtl_mc_ccs : ℕ
i915_format_mod_4_tiled_mtl_mc_ccs = intel_mod 14

-- `fourcc_mod_code(QCOM, 1)`
abbrev pub drm_format_mod_qcom_compressed : ℕ
drm_format_mod_qcom_compressed = 5 * 2 ^ 56 + 1

-- `fourcc_mod_code(BROADCOM, 1)`
abbrev pub drm_format_mod_broadcom_vc4_t_tiled : ℕ
drm_format_mod_broadcom_vc4_t_tiled = 7 * 2 ^ 56 + 1

-- `DRM_FORMAT_MOD_ARM_AFBC` with the bits for blocks of 16x16 (1), YTR (16) and sparse (64).
abbrev pub drm_format_mod_rockchip_afbc : ℕ
drm_format_mod_rockchip_afbc = 8 * 2 ^ 56 + 81
