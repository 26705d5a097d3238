-- ===== src/Vc4.antt =====
-- vc4.c: the table of combinations, and the creation of linear buffers.
mod Tests
pub mod Linear
use external_minigbm.Base.{
  ℕ, Option, none, some, ◌⊎◌, inl, inr, List, [], ◌∷◌, ◌==◌, ◌||◌, if◌then◌else◌, ◌>>=◌, align,
}
use external_minigbm.Drm.{
  drm_format_argb8888, drm_format_rgb565, drm_format_xrgb8888, drm_format_nv12, drm_format_yvu420,
  drm_format_mod_linear,
}
use external_minigbm.Flags.{
  any_of, bo_use_render_mask, bo_use_texture_mask, bo_use_scanout, bo_use_hw_video_decoder,
  bo_use_hw_video_encoder,
}
use external_minigbm.Errors.{einval}
use external_minigbm.Layout.{drv_stride_from_format}
use external_minigbm.Bo.{BoMetadata, Bo}
use external_minigbm.Planes.{drv_bo_from_format}
use external_minigbm.Modifiers.{drv_pick_modifier}
use external_minigbm.Combinations.{
  Combinations, linear_metadata, drv_add_combinations, drv_modify_combination,
  drv_modify_linear_combinations, drv_get_combination,
}

abbrev pub render_target_formats : List ℕ
render_target_formats = drm_format_argb8888 ∷ drm_format_rgb565 ∷ drm_format_xrgb8888 ∷ []

abbrev pub texture_only_formats : List ℕ
texture_only_formats = drm_format_nv12 ∷ drm_format_yvu420 ∷ []

unfoldable pub vc4_init : Combinations → Combinations
unfolding drv_add_combinations drv_modify_combination drv_modify_linear_combinations
vc4_init combos =
    let added =
      drv_add_combinations
        (drv_add_combinations combos render_target_formats linear_metadata bo_use_render_mask)
        texture_only_formats linear_metadata bo_use_texture_mask in
    let yvu =
      drv_modify_combination added drm_format_yvu420 linear_metadata bo_use_hw_video_encoder in
    drv_modify_linear_combinations (
      drv_modify_combination yvu drm_format_nv12 linear_metadata
        (any_of (bo_use_hw_video_decoder ∷ bo_use_scanout ∷ bo_use_hw_video_encoder ∷ [])))

-- The kernel's object for a layout. `kernel` answers for a size with an error number or a handle.
abbrev pub create_object : (ℕ → ℕ ⊎ ℕ) → Bo → BoMetadata → ℕ ⊎ Bo
create_object kernel bo metadata = elim (kernel metadata.total_size) [
  | inl errno ↦ inl errno
  | inr handle ↦ inr (record bo { metadata = metadata; handle = handle })
]

unfoldable pub vc4_bo_create_for_modifier : (ℕ → ℕ ⊎ ℕ) → Bo → ℕ → ℕ → ℕ → ℕ → Option (ℕ ⊎ Bo)
unfolding drv_stride_from_format drv_bo_from_format align
vc4_bo_create_for_modifier kernel bo width height format modifier =
    if modifier == drm_format_mod_linear
    then (do
      stride ← drv_stride_from_format format width 0
      laid ← drv_bo_from_format bo.metadata (align stride 64) 1 height format
      some (create_object kernel bo laid))
    else some (inl einval)

unfoldable pub vc4_bo_create : Combinations → (ℕ → ℕ ⊎ ℕ) → Bo → ℕ → ℕ → ℕ → ℕ → Option (ℕ ⊎ Bo)
unfolding vc4_bo_create_for_modifier drv_get_combination
vc4_bo_create combos kernel bo width height format use_flags =
    elim (drv_get_combination combos format use_flags) [
      | none ↦ some (inl einval)
      | some combo ↦
          vc4_bo_create_for_modifier kernel bo width height format combo.metadata.modifier
    ]

unfoldable pub vc4_bo_create_with_modifiers :
    (ℕ → ℕ ⊎ ℕ) → Bo → ℕ → ℕ → ℕ → List ℕ → Option (ℕ ⊎ Bo)
unfolding vc4_bo_create_for_modifier drv_pick_modifier
vc4_bo_create_with_modifiers kernel bo width height format modifiers =
    vc4_bo_create_for_modifier kernel bo width height format
      (drv_pick_modifier modifiers (drm_format_mod_linear ∷ []))
