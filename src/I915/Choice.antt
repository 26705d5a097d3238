-- ===== src/I915/Choice.antt =====
-- i915.c: the modifier and the tiling that `i915_bo_compute_metadata` settles on.
pub mod Limits
use external_minigbm.Base.{
  ℕ, Bool, true, false, ◌&&◌, ◌||◌, not, Option, none, some, List, ◌⊎◌, inl, inr, ltb, leb, ◌==◌,
  if◌then◌else◌, ◌>>=◌, ◌>>◌, assert,
}
use external_minigbm.Drm.{
  drm_format_nv12, drm_format_p010, drm_format_argb8888, drm_format_mod_linear,
  i915_format_mod_x_tiled, i915_format_mod_y_tiled, i915_format_mod_y_tiled_ccs,
  i915_format_mod_y_tiled_gen12_rc_ccs, i915_format_mod_y_tiled_gen12_mc_ccs,
  i915_format_mod_4_tiled, i915_format_mod_4_tiled_mtl_rc_ccs, i915_format_mod_4_tiled_mtl_mc_ccs,
}
use external_minigbm.Modifiers.{drv_has_modifier, drv_pick_modifier}
use external_minigbm.Combinations.{Combinations, drv_get_combination}
use external_minigbm.Errors.{einval}
use external_minigbm.I915.{I915Device}
use external_minigbm.I915.Tables.{i915_tiling_none, i915_tiling_x, i915_tiling_y, i915_tiling_4}

-- One of the two media compressions.
unfoldable pub is_media : ℕ → Bool
is_media modifier =
    modifier == i915_format_mod_y_tiled_gen12_mc_ccs
    || modifier == i915_format_mod_4_tiled_mtl_mc_ccs

-- `format == DRM_FORMAT_NV12 || format == DRM_FORMAT_P010`
unfoldable pub is_video : ℕ → Bool
is_video format = format == drm_format_nv12 || format == drm_format_p010

-- The loops that look for `wanted` among the client's modifiers, and what follows them. `none` is a
-- null pointer with a count of 0.
unfoldable pub listed_or_linear : Option (List ℕ) → ℕ → ℕ
unfolding drv_has_modifier
listed_or_linear none wanted = drm_format_mod_linear
listed_or_linear (some modifiers) wanted =
    if drv_has_modifier modifiers wanted then wanted else drm_format_mod_linear

-- The client's modifiers, or the table, name the modifier: an error number, or the modifier.
unfoldable pub first_modifier : I915Device → Combinations → ℕ → ℕ → Option (List ℕ) → Option (ℕ ⊎ ℕ)
unfolding drv_pick_modifier drv_get_combination is_media
first_modifier i915 combos format use_flags modifiers = elim modifiers [
  | some list ↦ some (inr (drv_pick_modifier list i915.modifier_order))
  | none ↦ elim (drv_get_combination combos format use_flags) [
    | none ↦ some (inl einval)
    | some combo ↦ do
      assert (not (is_media combo.metadata.modifier))
      some (inr combo.metadata.modifier)
  ]
]

-- Above 4096 pixels, what is tiled otherwise becomes X-tiled or linear before version 11.
unfoldable pub shrink_huge : I915Device → ℕ → ℕ → Option (List ℕ) → ℕ → ℕ
unfolding is_video listed_or_linear
shrink_huge i915 width format modifiers modifier =
    if ltb i915.graphics_version 11
      && ltb 4096 width
      && not (is_video format)
      && not (modifier == i915_format_mod_x_tiled)
      && not (modifier == drm_format_mod_linear)
    then listed_or_linear modifiers i915_format_mod_x_tiled
    else modifier

unfoldable pub without_compression : Bool → Option (List ℕ) → ℕ → ℕ
unfolding listed_or_linear
without_compression compression modifiers modifier =
    if not compression && modifier == i915_format_mod_y_tiled_ccs
    then listed_or_linear modifiers i915_format_mod_y_tiled
    else modifier

unfoldable pub old_is_linear : I915Device → ℕ → ℕ → ℕ
old_is_linear i915 format modifier =
    if leb i915.graphics_version 8 && format == drm_format_argb8888
    then drm_format_mod_linear
    else modifier

-- The modifier after all of the adjustments.
unfoldable pub adjust : I915Device → Bool → ℕ → ℕ → Option (List ℕ) → ℕ → ℕ
unfolding shrink_huge without_compression old_is_linear
adjust i915 compression width format modifiers modifier =
    old_is_linear i915 format
      (without_compression compression modifiers (shrink_huge i915 width format modifiers modifier))

-- The part of `i915_bo_compute_metadata` that chooses the modifier: `none` is the failed assertion,
-- `inl` an error number.
unfoldable pub choose_modifier :
    I915Device → Bool → Combinations → ℕ → ℕ → ℕ → Option (List ℕ) → Option (ℕ ⊎ ℕ)
unfolding first_modifier is_media is_video adjust
choose_modifier i915 compression combos width format use_flags modifiers = do
  first ← first_modifier i915 combos format use_flags modifiers
  elim first [
    | inl error ↦ some (inl error)
    | inr modifier ↦
        if is_media modifier && not (is_video format)
        then some (inl einval)
        else some (inr (adjust i915 compression width format modifiers modifier))
  ]

-- The `switch` over the modifier; a modifier that it does not name leaves the tiling.
unfoldable pub tiling_of : ℕ → ℕ → ℕ
tiling_of modifier tiling =
    if modifier == drm_format_mod_linear
    then i915_tiling_none
    else if modifier == i915_format_mod_x_tiled
    then i915_tiling_x
    else if modifier == i915_format_mod_y_tiled
        || modifier == i915_format_mod_y_tiled_ccs
        || modifier == i915_format_mod_y_tiled_gen12_rc_ccs
        || modifier == i915_format_mod_y_tiled_gen12_mc_ccs
    then i915_tiling_y
    else if modifier == i915_format_mod_4_tiled
        || modifier == i915_format_mod_4_tiled_mtl_rc_ccs
        || modifier == i915_format_mod_4_tiled_mtl_mc_ccs
    then i915_tiling_4
    else tiling
