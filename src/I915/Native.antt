-- ===== src/I915/Native.antt =====
-- The layouts that i915.c offers for use flags: never a media compression.
use external_minigbm.Base.{ℕ, ◌≡◌, refl, Bool, true, false, [], if◌then◌else◌}
use external_minigbm.Combinations.{FormatMetadata, Combinations, drv_get_combination}
use external_minigbm.Combinations.Every.{
  Every, nil, Found, add_combination-Every, add_combinations-Every, modify_combination-Every,
  modify_linear-Every, get_combination-Found,
}
use external_minigbm.I915.{I915Device}
use external_minigbm.I915.Tables.{
  metadata_linear, metadata_x_tiled, metadata_y_tiled, metadata_4_tiled, add_linear, add_x_tiled,
  add_4_tiled, add_y_tiled, i915_add_combinations,
}

-- One of the four plain layouts, with the tiling that goes with the modifier; the third one depends
-- on the platform.
pub data IsNative (is_mtl : Bool) : FormatMetadata → Type 0 where
  linear : IsNative is_mtl metadata_linear
  x_tiled : IsNative is_mtl metadata_x_tiled
  y_tiled : is_mtl ≡ false → IsNative is_mtl metadata_y_tiled
  four_tiled : is_mtl ≡ true → IsNative is_mtl metadata_4_tiled

add_linear-Every :
    (i915 : I915Device) (combos : Combinations)
    → Every (IsNative i915.is_mtl) combos
    → Every (IsNative i915.is_mtl) (add_linear i915 combos)
unfolding add_linear
add_linear-Every i915 combos all =
    search
      (
        modify_combination-Every, modify_linear-Every, add_combinations-Every,
        add_combination-Every, linear,
      )
      depth 14

add_x_tiled-Every :
    (is_mtl : Bool) (combos : Combinations)
    → Every (IsNative is_mtl) combos
    → Every (IsNative is_mtl) (add_x_tiled combos)
unfolding add_x_tiled
add_x_tiled-Every is_mtl combos all =
    search (add_combinations-Every, add_combination-Every, x_tiled) depth 8

add_4_tiled-Every :
    (is_mtl : Bool) (combos : Combinations)
    → is_mtl ≡ true
    → Every (IsNative is_mtl) combos
    → Every (IsNative is_mtl) (add_4_tiled combos)
unfolding add_4_tiled
add_4_tiled-Every is_mtl combos on all =
    search (add_combinations-Every, add_combination-Every, four_tiled) depth 8

add_y_tiled-Every :
    (i915 : I915Device) (combos : Combinations)
    → i915.is_mtl ≡ false
    → Every (IsNative i915.is_mtl) combos
    → Every (IsNative i915.is_mtl) (add_y_tiled i915 combos)
unfolding add_y_tiled
add_y_tiled-Every i915 combos off all =
    search (add_combinations-Every, add_combination-Every, y_tiled) depth 8

pub table-Every : (i915 : I915Device) → Every (IsNative i915.is_mtl) (i915_add_combinations i915 [])
unfolding i915_add_combinations
table-Every i915 =
    let untiled = add_x_tiled (add_linear i915 []) in
    let all = add_x_tiled-Every i915.is_mtl (add_linear i915 []) (add_linear-Every i915 [] nil) in
    choose i915.is_mtl refl untiled all
  where
    choose :
        (is_mtl : Bool)
        → i915.is_mtl ≡ is_mtl
        → (untiled : Combinations) → Every (IsNative i915.is_mtl) untiled
        → Every
            (IsNative i915.is_mtl)
            (if is_mtl then add_4_tiled untiled else add_y_tiled i915 untiled)
    choose true on untiled all = add_4_tiled-Every i915.is_mtl untiled on all
    choose false off untiled all = add_y_tiled-Every i915 untiled off all

-- Whatever format and use flags are asked for, the combination that is found in the table of
-- `i915_add_combinations` is linear, X-tiled, Y-tiled (not on Meteor Lake) or 4-tiled (there alone),
-- with the tiling that belongs to the modifier.
pub table-IsNative :
    (i915 : I915Device) (format use_flags : ℕ)
    → Found
        (IsNative i915.is_mtl)
        (drv_get_combination (i915_add_combinations i915 []) format use_flags)
table-IsNative i915 format use_flags =
    get_combination-Found (IsNative i915.is_mtl) (i915_add_combinations i915 []) format use_flags
      (table-Every i915)
