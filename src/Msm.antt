-- ===== src/Msm.antt =====
-- msm.c: the layout of buffers for Qualcomm's GPU and its video unit ("Venus"). UBWC is its
-- compression: blocks of metadata stand before or behind the pixels.
mod Tests
pub mod Choice
mod Sizes
pub mod Tables
pub mod Venus
use external_minigbm.Base.{
  ℕ, ◌+◌, ◌*◌, ◌/◌, Bool, not, ◌&&◌, ◌||◌, Option, none, some, ◌⊎◌, inl, inr, [], ◌∷◌, List, ltb,
  ◌==◌, if◌then◌else◌, ◌>>=◌, ◌>>◌, assert, get_or, set, wrap32, sub32, align, is_aligned,
  div_round_up,
}
use external_minigbm.Drm.{
  drm_format_nv12, drm_format_p010, drm_format_yvu420, drm_format_yvu420_android, drm_format_r8,
  drm_format_mod_linear, drm_format_mod_qcom_compressed,
}
use external_minigbm.Errors.{einval}
use external_minigbm.Layout.{drv_stride_from_format, drv_size_from_format}
use external_minigbm.Bo.{BoMetadata, Bo}
use external_minigbm.Planes.{drv_bo_from_format}
use external_minigbm.Modifiers.{drv_pick_modifier}
use external_minigbm.Combinations.{Combinations, drv_get_combination}

abbrev pub default_alignment : ℕ
default_alignment = 64

abbrev pub buffer_size_align : ℕ
buffer_size_align = 4096

abbrev pub venus_stride_align : ℕ
venus_stride_align = 128

abbrev pub venus_scanline_align : ℕ
venus_scanline_align = 16

abbrev pub nv12_linear_padding : ℕ
nv12_linear_padding = 12 * 1024

abbrev pub max : ℕ → ℕ → ℕ
max a b = if ltb b a then a else b

abbrev pub nv12_ubwc_padding : ℕ → ℕ
nv12_ubwc_padding y_stride = max (16 * 1024) (wrap32 (y_stride * 48))

abbrev pub macrotile_width_align : ℕ
macrotile_width_align = 64

abbrev pub macrotile_height_align : ℕ
macrotile_height_align = 16

abbrev pub plane_size_align : ℕ
plane_size_align = 4096

abbrev pub msm_ubwc_tiling : ℕ
msm_ubwc_tiling = 1

unfoldable pub get_ubwc_meta_size : ℕ → ℕ → ℕ → ℕ → ℕ
unfolding align div_round_up
get_ubwc_meta_size width height tile_width tile_height =
    let macrotile_width = align (div_round_up width tile_width) macrotile_width_align in
    let macrotile_height = align (div_round_up height tile_height) macrotile_height_align in
    align (wrap32 (macrotile_width * macrotile_height)) plane_size_align

unfoldable pub get_pitch_alignment : ℕ → ℕ
get_pitch_alignment format =
    if format == drm_format_nv12
    then venus_stride_align
    else if format == drm_format_p010
    then venus_stride_align * 2
    else if format == drm_format_yvu420 || format == drm_format_yvu420_android
    then 2 * default_alignment
    else default_alignment

-- The sizes of the two planes of NV12 and P010 and the padding, for the width in bytes.
pub record VenusSizes : Type 0 where
  pub y_plane : ℕ
  pub uv_plane : ℕ
  pub extra_padding : ℕ

unfoldable pub venus_sizes : ℕ → ℕ → ℕ → ℕ → VenusSizes
unfolding align div_round_up get_ubwc_meta_size
venus_sizes tiling width height stride =
    let y_scanline = align height (venus_scanline_align * 2) in
    let uv_scanline =
      align (div_round_up height 2) (venus_scanline_align * (if tiling == 0 then 1 else 2)) in
    let y_plane = wrap32 (stride * y_scanline) in
    let uv_plane = wrap32 (stride * uv_scanline) in
    if tiling == msm_ubwc_tiling
    then record {
      y_plane = wrap32 (align y_plane plane_size_align + get_ubwc_meta_size width height 32 8);
      uv_plane =
          wrap32
            (align uv_plane plane_size_align + get_ubwc_meta_size (width / 2) (height / 2) 16 8);
      extra_padding = nv12_ubwc_padding stride;
    }
    else record { y_plane = y_plane; uv_plane = uv_plane; extra_padding = nv12_linear_padding }

-- The branch of `msm_calculate_layout` for NV12 and P010.
unfoldable pub venus_layout : BoMetadata → BoMetadata
unfolding venus_sizes get_pitch_alignment align
venus_layout metadata =
    let width =
      if metadata.format == drm_format_p010 then wrap32 (metadata.width * 2) else metadata.width in
    let stride = align width (get_pitch_alignment metadata.format) in
    let sizes = venus_sizes metadata.tiling width metadata.height stride in
    let size = wrap32 (sizes.y_plane + sizes.uv_plane + sizes.extra_padding) in
    let total_size = align size buffer_size_align in
    record metadata {
      strides = set (set metadata.strides 0 stride) 1 stride;
      offsets = set metadata.offsets 1 sizes.y_plane;
      sizes = set (set metadata.sizes 0 sizes.y_plane) 1 (sub32 total_size sizes.y_plane);
      total_size = total_size;
    }

-- The height of the other branch. `none` is the failed assertion.
unfoldable pub other_height : BoMetadata → Option ℕ
unfolding align
other_height metadata =
    if metadata.format == drm_format_yvu420_android
      || metadata.format == drm_format_yvu420
      || metadata.format == drm_format_r8 && metadata.height == 1
    then (assert (not (metadata.tiling == msm_ubwc_tiling)) >> some metadata.height)
    else some (align metadata.height default_alignment)

-- The padding after the last plane of YVU420.
unfoldable pub pad_planar : BoMetadata → ℕ → Option BoMetadata
unfolding align drv_size_from_format
pad_planar metadata alignh =
    if metadata.format == drm_format_yvu420_android || metadata.format == drm_format_yvu420
    then (do
      u_size ← drv_size_from_format metadata.format (get_or metadata.strides 2 0) alignh 2
      let padding = sub32 (align u_size plane_size_align) u_size
      some (record metadata { total_size = metadata.total_size + padding }))
    else some metadata

-- The metadata behind the pixels of RGB formats.
unfoldable pub add_ubwc : BoMetadata → Option BoMetadata
unfolding is_aligned get_ubwc_meta_size
add_ubwc metadata =
    if metadata.tiling == msm_ubwc_tiling
    then (do
      let size =
          wrap32
            (get_or metadata.sizes 0 0 + get_ubwc_meta_size metadata.width metadata.height 16 4)
      assert (is_aligned size buffer_size_align)
      some (record metadata { sizes = set metadata.sizes 0 size; total_size = size }))
    else some metadata

unfoldable pub other_layout : BoMetadata → Option BoMetadata
unfolding other_height drv_stride_from_format drv_bo_from_format pad_planar add_ubwc
    get_pitch_alignment align
other_layout metadata = do
  alignh ← other_height metadata
  stride ←
      drv_stride_from_format metadata.format
        (align metadata.width (get_pitch_alignment metadata.format)) 0
  laid ← drv_bo_from_format metadata stride 1 alignh metadata.format
  padded ← pad_planar laid alignh
  add_ubwc padded

unfoldable pub msm_calculate_layout : BoMetadata → Option BoMetadata
unfolding venus_layout other_layout
msm_calculate_layout metadata =
    if metadata.format == drm_format_nv12 || metadata.format == drm_format_p010
    then some (venus_layout metadata)
    else other_layout metadata

-- `msm_bo_create_for_modifier`. `gem_new` is the kernel's answer for a size, an error number or a
-- handle.
unfoldable pub msm_bo_create_for_modifier : (ℕ → ℕ ⊎ ℕ) → Bo → ℕ → Option (ℕ ⊎ Bo)
unfolding msm_calculate_layout
msm_bo_create_for_modifier gem_new bo modifier = do
  let tiling = if modifier == drm_format_mod_qcom_compressed then msm_ubwc_tiling else 0
  metadata ← msm_calculate_layout (record bo.metadata { tiling = tiling })
  elim (gem_new metadata.total_size) [
    | inl errno ↦ some (inl errno)
    | inr handle ↦ some (
        inr (record bo {
          metadata = record metadata { format_modifier = modifier };
          handle = handle;
        }))
  ]

unfoldable pub msm_bo_create_with_modifiers : Bool → (ℕ → ℕ ⊎ ℕ) → Bo → List ℕ → Option (ℕ ⊎ Bo)
unfolding msm_bo_create_for_modifier drv_pick_modifier
msm_bo_create_with_modifiers compression gem_new bo modifiers =
    let picked =
      drv_pick_modifier modifiers (drm_format_mod_qcom_compressed ∷ drm_format_mod_linear ∷ []) in
    let modifier =
      if not compression && picked == drm_format_mod_qcom_compressed
      then drm_format_mod_linear
      else picked in
    msm_bo_create_for_modifier gem_new bo modifier

unfoldable pub msm_bo_create : Combinations → (ℕ → ℕ ⊎ ℕ) → Bo → ℕ → ℕ → Option (ℕ ⊎ Bo)
unfolding msm_bo_create_for_modifier drv_get_combination
msm_bo_create combos gem_new bo format use_flags =
    elim (drv_get_combination combos format use_flags) [
      | none ↦ some (inl einval)
      | some combo ↦ msm_bo_create_for_modifier gem_new bo combo.metadata.modifier
    ]
