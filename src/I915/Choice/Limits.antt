-- ===== src/I915/Choice/Limits.antt =====
-- Which modifiers `i915_bo_compute_metadata` can settle on.
use external_minigbm.Base.{
  ℕ, ◌<◌, ◌≡◌, ◌≢◌, refl, Bool, false, ◌&&◌, not, Option, none, some, List, [], ◌⊎◌, inl, inr,
  arith, Total, Bool-cases, Option-cases,
}
use external_minigbm.Drm.{
  drm_format_mod_linear, i915_format_mod_x_tiled, i915_format_mod_y_tiled,
  i915_format_mod_y_tiled_ccs,
}
use external_minigbm.Modifiers.{drv_has_modifier}
use external_minigbm.Combinations.{Combination, FormatMetadata, drv_get_combination}
use external_minigbm.Combinations.Every.{Found}
use external_minigbm.I915.{I915Device}
use external_minigbm.I915.Tables.{i915_add_combinations}
use external_minigbm.I915.Native.{IsNative, linear, x_tiled, y_tiled, four_tiled, table-IsNative}
use external_minigbm.I915.Choice.{
  is_media, is_video, listed_or_linear, first_modifier, shrink_huge, without_compression,
  old_is_linear, adjust, choose_modifier,
}

native_not_media :
    {is_mtl : Bool} {metadata : FormatMetadata}
    → IsNative is_mtl metadata
    → is_media metadata.modifier ≡ false
unfolding is_media
native_not_media linear = refl
native_not_media x_tiled = refl
native_not_media (y_tiled e) = refl
native_not_media (four_tiled e) = refl

not_media-Found :
    {is_mtl : Bool} (combo : Combination)
    → Found (IsNative is_mtl) (some combo)
    → is_media combo.metadata.modifier ≡ false
not_media-Found combo found = native_not_media found

-- Without modifiers of the client, the choice from the table of `i915_add_combinations` fails no
-- assertion, whatever the device, the size, the format and the use flags are.
pub choose_modifier-Total :
    (i915 : I915Device) (compression : Bool) (width format use_flags : ℕ)
    → Total (
        choose_modifier i915 compression
          (i915_add_combinations i915 [])
          width
          format
          use_flags
          none)
unfolding choose_modifier first_modifier
choose_modifier-Total i915 compression width format use_flags =
    let found = table-IsNative i915 format use_flags in
    elim (Option-cases (drv_get_combination (i915_add_combinations i915 []) format use_flags)) [
      | inl e ↦ (inl 22, rw (e, first_modifier, choose_modifier))
      | inr (combo, e) ↦
          let plain : is_media combo.metadata.modifier ≡ false =
            not_media-Found combo (rw e at found) in
          let guard : (is_media combo.metadata.modifier && not (is_video format)) ≡ false =
            rw plain in
          (
            inr (adjust i915 compression width format none combo.metadata.modifier),
            rw (e, first_modifier, choose_modifier, plain, guard),
          )
    ]

listed_lem :
    (modifiers : Option (List ℕ)) (wanted : ℕ)
    → (listed_or_linear modifiers wanted ≡ wanted)
      ⊎ (listed_or_linear modifiers wanted ≡ drm_format_mod_linear)
unfolding listed_or_linear
listed_lem none wanted = inr refl
listed_lem (some list) wanted = elim (Bool-cases (drv_has_modifier list wanted)) [
  | inl on ↦ inl (rw on)
  | inr off ↦ inr (rw off)
]

-- On a device before version 11, a buffer of more than 4096 pixels across that is neither NV12 nor
-- P010 ends up X-tiled or linear, whatever modifier it started with.
pub adjust_huge :
    (i915 : I915Device) (compression : Bool) (width format : ℕ) (modifiers : Option (List ℕ))
    (modifier : ℕ)
    → i915.graphics_version < 11
    → 4096 < width
    → is_video format ≡ false
    → let m = adjust i915 compression width format modifiers modifier in
      (m ≡ i915_format_mod_x_tiled) ⊎ (m ≡ drm_format_mod_linear)
unfolding adjust shrink_huge without_compression old_is_linear
adjust_huge i915 compression width format modifiers modifier old wide plain = ground (
  arith,
  listed_lem modifiers i915_format_mod_x_tiled,
  listed_lem modifiers i915_format_mod_y_tiled,
)

-- Where compression is off, no buffer ends up with the compressed Y tiling.
pub adjust_uncompressed :
    (i915 : I915Device) (width format : ℕ) (modifiers : Option (List ℕ)) (modifier : ℕ)
    → adjust i915 false width format modifiers modifier ≢ i915_format_mod_y_tiled_ccs
unfolding adjust shrink_huge without_compression old_is_linear
adjust_uncompressed i915 width format modifiers modifier = ground (
  arith,
  listed_lem modifiers i915_format_mod_x_tiled,
  listed_lem modifiers i915_format_mod_y_tiled,
)
