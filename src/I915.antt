-- ===== src/I915.antt =====
-- i915.c: the device, as the chipset's identifier and the kernel's answers describe it.
mod Ids
mod Tests
pub mod Device
pub mod Align
pub mod Choice
pub mod Metadata
pub mod Native
pub mod Tables
use external_minigbm.Base.{
  ℕ, Bool, true, false, Option, none, some, List, [], ◌∷◌, ◌⊎◌, inl, inr, leb, ◌==◌, if◌then◌else◌,
}
use external_minigbm.Drm.{
  drm_format_mod_linear, i915_format_mod_x_tiled, i915_format_mod_y_tiled,
  i915_format_mod_y_tiled_ccs, i915_format_mod_y_tiled_gen12_rc_ccs,
  i915_format_mod_y_tiled_gen12_mc_ccs, i915_format_mod_4_tiled, i915_format_mod_4_tiled_mtl_rc_ccs,
  i915_format_mod_4_tiled_mtl_mc_ccs,
}
use external_minigbm.Errors.{einval, enomem}
use external_minigbm.Layout.{one_of}
use Ids.{
  gen3_ids, gen4_ids, gen5_ids, gen6_ids, gen7_ids, gen8_ids, gen9_ids, gen11_ids, gen12_ids,
  adlp_ids, rplp_ids, mtl_ids,
}

-- `struct i915_device`; `modifier_order` is the pointer and the count of its `modifier`.
pub record I915Device : Type 0 where
  pub graphics_version : ℕ
  pub has_llc : ℕ
  pub has_hw_protection : Bool
  pub modifier_order : List ℕ
  pub device_id : ℕ
  pub is_xelpd : Bool
  pub is_mtl : Bool
  pub num_fences_avail : ℕ
  pub has_mmap_offset : Bool

-- The device after `calloc`.
abbrev pub zeroed_device : I915Device
zeroed_device = record {
  graphics_version = 0;
  has_llc = 0;
  has_hw_protection = false;
  modifier_order = [];
  device_id = 0;
  is_xelpd = false;
  is_mtl = false;
  num_fences_avail = 0;
  has_mmap_offset = false;
}

-- One of the loops of `i915_info_from_device_id`: what it sets where the identifier is listed.
unfoldable pub mark : List ℕ → (I915Device → I915Device) → I915Device → I915Device
mark ids update i915 = if one_of i915.device_id ids then update i915 else i915

abbrev pub set_version : ℕ → I915Device → I915Device
set_version version i915 = record i915 { graphics_version = version }

abbrev pub set_xelpd : I915Device → I915Device
set_xelpd i915 = record i915 { is_xelpd = true; graphics_version = 12 }

abbrev pub set_mtl : I915Device → I915Device
set_mtl i915 = record i915 { graphics_version = 12; is_mtl = true }

-- The loops over the generations 3 to 12, in the order of the source.
unfoldable pub mark_generations : I915Device → I915Device
unfolding mark
mark_generations i915 = mark gen12_ids (set_version 12) (
    mark gen11_ids (set_version 11) (
      mark gen9_ids (set_version 9) (
        mark gen8_ids (set_version 8) (
          mark gen7_ids (set_version 7) (
            mark gen6_ids (set_version 6) (
              mark gen5_ids (set_version 5)
                (mark gen4_ids (set_version 4) (mark gen3_ids (set_version 3) i915))))))))

unfoldable pub i915_info_from_device_id : I915Device → I915Device
unfolding mark_generations mark
i915_info_from_device_id i915 = mark mtl_ids set_mtl (
    mark rplp_ids set_xelpd (
      mark adlp_ids set_xelpd (
        mark_generations (record i915 { graphics_version = 4; is_xelpd = false; is_mtl = false }))))

abbrev pub gen_modifier_order : List ℕ
gen_modifier_order =
    i915_format_mod_y_tiled_ccs ∷ i915_format_mod_y_tiled ∷ i915_format_mod_x_tiled
    ∷ drm_format_mod_linear ∷ []

abbrev pub gen12_modifier_order : List ℕ
gen12_modifier_order =
    i915_format_mod_y_tiled_gen12_rc_ccs ∷ i915_format_mod_y_tiled_gen12_mc_ccs
    ∷ i915_format_mod_y_tiled ∷ i915_format_mod_x_tiled ∷ drm_format_mod_linear ∷ []

abbrev pub gen11_modifier_order : List ℕ
gen11_modifier_order =
    i915_format_mod_y_tiled ∷ i915_format_mod_x_tiled ∷ drm_format_mod_linear ∷ []

abbrev pub xe_lpdp_modifier_order : List ℕ
xe_lpdp_modifier_order =
    i915_format_mod_4_tiled_mtl_rc_ccs ∷ i915_format_mod_4_tiled_mtl_mc_ccs
    ∷ i915_format_mod_4_tiled ∷ i915_format_mod_x_tiled ∷ drm_format_mod_linear ∷ []

unfoldable pub i915_get_modifier_order : I915Device → I915Device
i915_get_modifier_order i915 =
    if i915.is_mtl
    then record i915 { modifier_order = xe_lpdp_modifier_order }
    else if i915.graphics_version == 12
    then record i915 { modifier_order = gen12_modifier_order }
    else if i915.graphics_version == 11
    then record i915 { modifier_order = gen11_modifier_order }
    else record i915 { modifier_order = gen_modifier_order }

-- The kernel's answers to `DRM_IOCTL_I915_GETPARAM`, `none` for a failed call.
pub record Params : Type 0 where
  pub chipset_id : Option ℕ
  pub has_llc : Option ℕ
  pub num_fences_avail : Option ℕ
  pub mmap_gtt_version : Option ℕ

-- `i915_init` up to its call of `i915_add_combinations`: an error number or the device. `memory`
-- answers `calloc`.
unfoldable pub i915_init_device : Bool → Params → ℕ ⊎ I915Device
unfolding i915_info_from_device_id i915_get_modifier_order
i915_init_device memory params =
    if memory
    then elim params.chipset_id [
      | none ↦ inl einval
      | some id ↦
          let i915 =
            i915_get_modifier_order
              (i915_info_from_device_id (record zeroed_device { device_id = id })) in
          elim params.has_llc [
            | none ↦ inl einval
            | some llc ↦ elim params.num_fences_avail [
              | none ↦ inl einval
              | some fences ↦ elim params.mmap_gtt_version [
                | none ↦ inl einval
                | some val ↦ inr (record i915 {
                  has_llc = llc;
                  num_fences_avail = fences;
                  has_mmap_offset = leb 4 val;
                  has_hw_protection = leb 12 i915.graphics_version;
                })
              ]
            ]
          ]
    ]
    else inl enomem
