-- ===== src/I915/Align.antt =====
-- i915.c: `i915_align_dimensions`.
pub mod Fits
use external_minigbm.Base.{
  ℕ, zero, suc, ◌+◌, ◌*◌, Bool, ◌&&◌, ◌||◌, Option, none, some, ltb, leb, ◌==◌, if◌then◌else◌,
  ◌>>=◌, wrap32, align, has_flag,
}
use external_minigbm.Drm.{drm_format_r8}
use external_minigbm.Flags.{bo_use_hw_video_encoder}
use external_minigbm.I915.{I915Device}
use external_minigbm.I915.Tables.{i915_tiling_x, i915_tiling_y, i915_tiling_4}

-- `rejected` is `-EINVAL`; `aligned` has the stride and the height that are written back.
pub data Aligned : Type 0 where
  rejected : Aligned
  aligned : ℕ → ℕ → Aligned

-- The horizontal alignment that the `switch` chooses, where `LINEAR_ALIGN_256` is not defined.
unfoldable pub horizontal_alignment : I915Device → ℕ → ℕ
horizontal_alignment i915 tiling =
    if tiling == i915_tiling_x
    then 512
    else if tiling == i915_tiling_y || tiling == i915_tiling_4
    then (if i915.graphics_version == 3 then 512 else 128)
    else 64

-- The vertical one, for a buffer of these use flags and a plane of this height.
unfoldable pub vertical_alignment : I915Device → ℕ → ℕ → ℕ → ℕ → ℕ
vertical_alignment i915 use_flags format tiling height =
    if tiling == i915_tiling_x
    then 8
    else if tiling == i915_tiling_y || tiling == i915_tiling_4
    then (if i915.graphics_version == 3 then 8 else 32)
    else if has_flag use_flags bo_use_hw_video_encoder
    then 8
    else if format == drm_format_r8 && height == 1
    then 1
    else 4

-- while (*stride > horizontal_alignment) horizontal_alignment <<= 1, with the rounds left; `none`
-- where they do not suffice. A stride above 2 ^ 31 keeps the loop going for ever: the alignment
-- becomes 0.
unfoldable pub fit_stride : ℕ → ℕ → ℕ → Option ℕ
fit_stride zero stride h = if ltb h stride then none else some h
fit_stride (suc n) stride h =
    let rest = fit_stride n stride (wrap32 (h * 2)) in if ltb h stride then rest else some h

unfoldable pub i915_align_dimensions : I915Device → ℕ → ℕ → ℕ → ℕ → ℕ → Option Aligned
unfolding horizontal_alignment vertical_alignment fit_stride align
i915_align_dimensions i915 use_flags format tiling stride height = do
  let rows = align height (vertical_alignment i915 use_flags format tiling height)
  let h = horizontal_alignment i915 tiling
  pitch ← if ltb 3 i915.graphics_version then some (align stride h) else fit_stride 32 stride h
  some (if leb i915.graphics_version 3 && ltb 8192 pitch then rejected else aligned pitch rows)
