-- ===== src/I915/Tests.antt =====
-- Runs on a Tiger Lake device and on an older one.
use external_minigbm.Base.{◌≡◌, refl, ◌⊎◌, true, false, none, some, [], arith, Returns, Total}
use external_minigbm.Bo.{BoMetadata, no_planes}
use external_minigbm.Drm.{
  drm_format_nv12, drm_format_xrgb8888, drm_format_mod_linear, i915_format_mod_x_tiled,
  i915_format_mod_y_tiled, i915_format_mod_y_tiled_ccs,
}
use external_minigbm.Flags.{bo_use_scanout, bo_use_texture}
use external_minigbm.Layout.{drv_num_planes_from_format, drv_stride_from_format, one_of}
use external_minigbm.Planes.Contiguous.{HasArrays}
use external_minigbm.Combinations.{drv_get_combination}
use external_minigbm.Combinations.Every.{Found}
use external_minigbm.I915.{
  I915Device, i915_init_device, gen12_modifier_order, gen_modifier_order, zeroed_device,
}
use external_minigbm.I915.Device.{IsReady, init_device-IsReady}
use external_minigbm.I915.Tables.{i915_add_combinations, i915_tiling_y}
use external_minigbm.I915.Native.{IsNative, table-IsNative}
use external_minigbm.I915.Align.{i915_align_dimensions}
use external_minigbm.I915.Align.Fits.{
  Fitting, Fenced, align_dimensions-Fitting, align_dimensions-Fenced,
}
use external_minigbm.I915.Choice.{choose_modifier, adjust, is_video}
use external_minigbm.I915.Choice.Limits.{choose_modifier-Total, adjust_huge}
use external_minigbm.I915.Metadata.{ccs_planes}
use external_minigbm.I915.Metadata.Compressed.{ColourControl, ccs_planes-ColourControl}

abbrev tiger_lake : I915Device
tiger_lake = record zeroed_device {
  graphics_version = 12;
  has_hw_protection = true;
  modifier_order = gen12_modifier_order;
  device_id = 39497;
}

abbrev kaby_lake : I915Device
kaby_lake = record zeroed_device {
  graphics_version = 9;
  modifier_order = gen_modifier_order;
  device_id = 22806;
}

abbrev pineview : I915Device
pineview = record zeroed_device { graphics_version = 3; device_id = 40961 }

init_device-IsReady_example : IsReady (
    i915_init_device true (record {
      chipset_id = some 39497;
      has_llc = some 1;
      num_fences_avail = some 32;
      mmap_gtt_version = some 4;
    }))
init_device-IsReady_example = init_device-IsReady 39497 1 32 4

table-IsNative_example :
    Found
      (IsNative false)
      (drv_get_combination (i915_add_combinations tiger_lake []) drm_format_nv12 bo_use_scanout)
table-IsNative_example = table-IsNative tiger_lake drm_format_nv12 bo_use_scanout

align_dimensions-Fitting_example :
    Returns
      (Fitting tiger_lake bo_use_scanout drm_format_nv12 i915_tiling_y 1921 1081)
      (i915_align_dimensions tiger_lake bo_use_scanout drm_format_nv12 i915_tiling_y 1921 1081)
align_dimensions-Fitting_example =
    align_dimensions-Fitting tiger_lake bo_use_scanout drm_format_nv12 i915_tiling_y 1921 1081
      (omega arith) (omega arith) (omega arith)

align_dimensions-Fenced_example :
    Returns
      (Fenced pineview i915_tiling_y 7680)
      (i915_align_dimensions pineview bo_use_scanout drm_format_xrgb8888 i915_tiling_y 7680 1080)
align_dimensions-Fenced_example =
    align_dimensions-Fenced pineview bo_use_scanout drm_format_xrgb8888 i915_tiling_y 7680 1080 refl
      (omega arith)

choose_modifier-Total_example : Total (
    choose_modifier kaby_lake true
      (i915_add_combinations kaby_lake [])
      1920
      drm_format_nv12
      bo_use_texture
      none)
choose_modifier-Total_example =
    choose_modifier-Total kaby_lake true 1920 drm_format_nv12 bo_use_texture

not_video : is_video drm_format_xrgb8888 ≡ false
unfolding is_video
not_video = refl

adjust_huge_example :
    let m =
      adjust kaby_lake true 5120 drm_format_xrgb8888
        (some gen_modifier_order)
        i915_format_mod_y_tiled in
    (m ≡ i915_format_mod_x_tiled) ⊎ (m ≡ drm_format_mod_linear)
adjust_huge_example =
    adjust_huge kaby_lake true 5120 drm_format_xrgb8888 (some gen_modifier_order)
      i915_format_mod_y_tiled (omega arith) (omega arith) not_video

abbrev one_plane : BoMetadata
one_plane = record {
  width = 1920;
  height = 1080;
  format = drm_format_xrgb8888;
  tiling = 0;
  num_planes = 1;
  offsets = no_planes;
  sizes = no_planes;
  strides = no_planes;
  format_modifier = 0;
  use_flags = 0;
  total_size = 0;
  cached = false;
}

one_plane-HasArrays : HasArrays one_plane
one_plane-HasArrays = record { offsets_room = refl; sizes_room = refl; strides_room = refl }

one_known : drv_num_planes_from_format drm_format_xrgb8888 ≡ 1
unfolding drv_num_planes_from_format one_of
one_known = refl

row_known : drv_stride_from_format drm_format_xrgb8888 1920 0 ≡ some 7680
unfolding drv_stride_from_format one_of
row_known = refl

ccs_planes-ColourControl_example :
    Returns
      (ColourControl 7680)
      (ccs_planes one_plane 1920 1080 drm_format_xrgb8888 i915_format_mod_y_tiled_ccs)
ccs_planes-ColourControl_example =
    ccs_planes-ColourControl one_plane 1920 1080 drm_format_xrgb8888 one_plane-HasArrays one_known
      row_known (omega arith)
