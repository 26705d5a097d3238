-- ===== src/Msm/Tests.antt =====
-- Runs of the layout and of the table: NV12 of 640 by 480 pixels, compressed.
use external_minigbm.Base.{◌≡◌, refl, inl, arith, true, false, Returns, bit_or}
use external_minigbm.Drm.{drm_format_nv12, drm_format_argb8888, drm_format_mod_linear}
use external_minigbm.Flags.{bo_use_sw_read_often, bo_use_cursor}
use external_minigbm.Bo.{BoMetadata, no_planes}
use external_minigbm.Resolve.{clear_flags}
use external_minigbm.Combinations.{Combination, linear_metadata, drv_get_combination}
use external_minigbm.Msm.{msm_calculate_layout, venus_layout}
use external_minigbm.Msm.Tables.{render_use_flags, msm_init}
use external_minigbm.Msm.Choice.{get_combination-linear}
use external_minigbm.Msm.Venus.{IsVenus, calculate_layout-IsVenus}

abbrev nv12_metadata : BoMetadata
nv12_metadata = record {
  width = 640;
  height = 480;
  format = drm_format_nv12;
  tiling = 1;
  num_planes = 2;
  offsets = no_planes;
  sizes = no_planes;
  strides = no_planes;
  format_modifier = 0;
  use_flags = 1;
  total_size = 0;
  cached = false;
}

calculate_layout-IsVenus_example :
    Returns (IsVenus nv12_metadata) (msm_calculate_layout nv12_metadata)
calculate_layout-IsVenus_example =
    calculate_layout-IsVenus nv12_metadata
      (record { offsets_room = refl; sizes_room = refl; strides_room = refl }) (inl refl)
      (omega arith) (omega arith)

nv12_total : (venus_layout nv12_metadata).total_size ≡ 512000
unfolding venus_layout
nv12_total = refl

abbrev argb_linear : Combination
argb_linear = record {
  format = drm_format_argb8888;
  metadata = linear_metadata;
  use_flags = bit_or render_use_flags bo_use_cursor;
}

get_combination-linear_example : argb_linear.metadata.modifier ≡ drm_format_mod_linear
unfolding drv_get_combination msm_init clear_flags
get_combination-linear_example =
    get_combination-linear false true drm_format_argb8888 bo_use_sw_read_often argb_linear refl refl
