-- ===== src/I915/Metadata.antt =====
-- i915.c: the planes that `i915_bo_compute_metadata` lays out for each modifier.
pub mod Compressed
use external_minigbm.Base.{
  ℕ, zero, suc, ◌+◌, ◌-◌, ◌*◌, ◌/◌, ◌%◌, ◌^◌, Bool, true, false, ◌&&◌, ◌||◌, not, Option, none,
  some, List, [], ◌∷◌, ◌⊎◌, inl, inr, length, ltb, leb, ◌==◌, if◌then◌else◌, ◌>>=◌, ◌>>◌, assert,
  get_or, set, wrap32, align, is_aligned, div_round_up,
}
use external_minigbm.Drm.{
  drm_format_nv12, drm_format_p010, drm_format_p016, drm_format_xrgb8888, drm_format_xbgr8888,
  drm_format_yvu420_android, i915_format_mod_y_tiled_ccs, i915_format_mod_y_tiled_gen12_rc_ccs,
  i915_format_mod_y_tiled_gen12_mc_ccs, i915_format_mod_4_tiled_mtl_rc_ccs,
  i915_format_mod_4_tiled_mtl_mc_ccs,
}
use external_minigbm.Flags.{bo_use_none}
use external_minigbm.Layout.{
  drv_num_planes_from_format, drv_stride_from_format, drv_height_from_format,
}
use external_minigbm.Bo.{BoMetadata}
use external_minigbm.Planes.{drv_bo_from_format}
use external_minigbm.Combinations.{Combinations}
use external_minigbm.Errors.{einval}
use external_minigbm.I915.{I915Device}
use external_minigbm.I915.Tables.{i915_tiling_none}
use external_minigbm.I915.Align.{Aligned, rejected, aligned, i915_align_dimensions}
use external_minigbm.I915.Choice.{is_media, is_video, choose_modifier, tiling_of}

unfoldable pub i915_format_needs_lcu_alignment : ℕ → ℕ → I915Device → Bool
i915_format_needs_lcu_alignment format plane i915 =
    if format == drm_format_nv12 || format == drm_format_p010 || format == drm_format_p016
    then (i915.graphics_version == 11 || i915.graphics_version == 12) && plane == 1
    else false

-- The writes of one plane; `none` is a write past the arrays' DRV_MAX_PLANES entries.
unfoldable pub write_plane : BoMetadata → ℕ → ℕ → ℕ → ℕ → Option BoMetadata
write_plane metadata plane stride size offset = do
  assert (ltb plane 4)
  some (record metadata {
    strides = set metadata.strides plane stride;
    sizes = set metadata.sizes plane size;
    offsets = set metadata.offsets plane offset;
  })

-- The loop of `i915_bo_from_format` over the planes from `plane` on, and the offset behind them.
module _ (i915 : I915Device) (pagesize width height format : ℕ) where
  unfoldable pub tiled_planes : ℕ → ℕ → ℕ → BoMetadata → Option (ℕ ⊎ (BoMetadata × ℕ))
  unfolding i915_format_needs_lcu_alignment write_plane is_aligned align
  tiled_planes zero plane offset metadata = some (inr (metadata, offset))
  tiled_planes (suc n) plane offset metadata = do
    stride ← drv_stride_from_format format width plane
    plane_height ← drv_height_from_format format height plane
    assert (metadata.tiling == i915_tiling_none || is_aligned offset pagesize)
    dimensions ←
        i915_align_dimensions i915 metadata.use_flags format metadata.tiling stride plane_height
    elim dimensions [
      | rejected ↦ some (inl einval)
      | aligned pitch aligned_height ↦ do
        let rows =
            if i915_format_needs_lcu_alignment format plane i915
            then align aligned_height 64
            else aligned_height
        let size = wrap32 (pitch * rows)
        metadata' ← write_plane metadata plane pitch size offset
        tiled_planes n (plane + 1) (wrap32 (offset + size)) metadata'
    ]

unfoldable pub i915_bo_from_format :
    I915Device → ℕ → BoMetadata → ℕ → ℕ → ℕ → Option (ℕ ⊎ BoMetadata)
unfolding tiled_planes align
i915_bo_from_format i915 pagesize metadata width height format = do
  planes ←
      tiled_planes i915 pagesize width height format (drv_num_planes_from_format format) 0 0
        metadata
  elim planes [
    | inl error ↦ some (inl error)
    | inr (filled, offset) ↦ some (inr (record filled { total_size = align offset pagesize }))
  ]

unfoldable pub i915_num_planes_from_modifier : ℕ → ℕ → Option ℕ
i915_num_planes_from_modifier format modifier =
    let num_planes = drv_num_planes_from_format format in
    if modifier == i915_format_mod_y_tiled_ccs
      || modifier == i915_format_mod_y_tiled_gen12_rc_ccs
      || modifier == i915_format_mod_4_tiled_mtl_rc_ccs
    then assert (num_planes == 1) >> some 2
    else if is_media modifier
    then assert (num_planes == 2) >> some 4
    else some num_planes

-- The branch of `I915_FORMAT_MOD_Y_TILED_CCS`.
unfoldable pub ccs_planes : BoMetadata → ℕ → ℕ → ℕ → ℕ → Option BoMetadata
unfolding write_plane div_round_up i915_num_planes_from_modifier
ccs_planes metadata width height format modifier = do
  stride ← drv_stride_from_format format width 0
  let width_in_tiles = div_round_up stride 128
  let height_in_tiles = div_round_up height 32
  let size = wrap32 (width_in_tiles * height_in_tiles * 4096)
  main ← write_plane metadata 0 (wrap32 (width_in_tiles * 128)) size 0
  let ccs_width_in_tiles = div_round_up width_in_tiles 32
  let ccs_height_in_tiles = div_round_up height_in_tiles 16
  let ccs_size = wrap32 (ccs_width_in_tiles * ccs_height_in_tiles * 4096)
  ccs ← write_plane main 1 (wrap32 (ccs_width_in_tiles * 128)) ccs_size size
  num_planes ← i915_num_planes_from_modifier format modifier
  some (record ccs { num_planes = num_planes; total_size = wrap32 (size + ccs_size) })

-- `gbm_fls` of a 32-bit word: the number of its bits up to the highest one that is set.
unfoldable pub bits_of : ℕ → ℕ → ℕ
bits_of zero x = 0
bits_of (suc n) x = let rest = bits_of n (x / 2) in if x == 0 then 0 else 1 + rest

-- `1 << (32 - __builtin_clz(x - 1))` and `roundup_power_of_two(x)`, as a `uint32_t`.
unfoldable pub roundup_power_of_two : ℕ → ℕ
unfolding bits_of
roundup_power_of_two x = if x == 0 then 0 else wrap32 (2 ^ bits_of 32 (x - 1))

-- The loop over the main planes for the compressions of version 12.
module _ (i915 : I915Device) (width height format : ℕ) where
  unfoldable pub gen12_planes : ℕ → ℕ → ℕ → BoMetadata → Option (BoMetadata × ℕ)
  unfolding write_plane align roundup_power_of_two
  gen12_planes zero plane offset metadata = some (metadata, offset)
  gen12_planes (suc n) plane offset metadata = do
    row ← drv_stride_from_format format width plane
    plane_height ← drv_height_from_format format height plane
    let pitch = align row 512
    let widened = i915.is_xelpd && ltb 1 pitch
    let stride = if widened then roundup_power_of_two pitch else pitch
    let aligned_height = align plane_height (if widened then 128 else 32)
    let size = align (wrap32 (stride * aligned_height)) 65536
    metadata' ← write_plane metadata plane stride size offset
    gen12_planes n (plane + 1) (wrap32 (offset + size)) metadata'

-- The loop over the auxiliary planes: `plane` is the number of main planes.
unfoldable pub aux_planes : ℕ → ℕ → ℕ → ℕ → ℕ → BoMetadata → Option (BoMetadata × ℕ)
unfolding write_plane align
aux_planes pagesize plane zero a_plane offset metadata = some (metadata, offset)
aux_planes pagesize plane (suc n) a_plane offset metadata = do
  let size = align (get_or metadata.sizes a_plane 0 / 256) pagesize
  metadata' ←
      write_plane metadata (plane + a_plane) (get_or metadata.strides a_plane 0 / 8) size offset
  aux_planes pagesize plane n (a_plane + 1) (wrap32 (offset + size)) metadata'

-- The loop over the main planes for the 4-tiled compressions; the height goes from plane to plane.
module _ (width format : ℕ) where
  -- The offset at which plane 1 of NV12 and P010 is placed.
  unfoldable pub chroma_offset : ℕ → ℕ → ℕ
  unfolding roundup_power_of_two
  chroma_offset stride offset =
      let moved = wrap32 (offset + (1048576 - offset % 1048576)) in
      let square = wrap32 (stride * roundup_power_of_two stride) in
      if ltb moved square then square else moved

  unfoldable pub mtl_planes : ℕ → ℕ → ℕ → ℕ → BoMetadata → Option (BoMetadata × ℕ)
  unfolding write_plane align chroma_offset
  mtl_planes zero plane height offset metadata = some (metadata, offset)
  mtl_planes (suc n) plane height offset metadata = do
    row ← drv_stride_from_format format width plane
    plane_height ← drv_height_from_format format height plane
    let stride = align row 512
    let rows = align plane_height 32
    let size = align (wrap32 (stride * rows)) 1048576
    let start = if plane == 1 && is_video format then chroma_offset stride offset else offset
    metadata' ← write_plane metadata plane stride size start
    mtl_planes n (plane + 1) rows (wrap32 (start + size)) metadata'

-- Both branches of compression: the auxiliary planes follow the main ones.
unfoldable pub with_aux : ℕ → ℕ → Option (BoMetadata × ℕ) → Option BoMetadata
unfolding aux_planes
with_aux pagesize planes laid = do
  (main, offset) ← laid
  (filled, end) ← aux_planes pagesize planes planes 0 offset main
  some (record filled { num_planes = planes + planes; total_size = end })

-- The assertions at the head of both branches: a media compression is only ever asked for.
unfoldable pub media_is_asked : BoMetadata → ℕ → ℕ → Option (List ℕ) → Bool
media_is_asked metadata use_flags modifier modifiers =
    not (is_media modifier)
    || (use_flags == bo_use_none
        && metadata.use_flags == bo_use_none
        && elim modifiers [ none ↦ false | some list ↦ ltb 0 (length list) ])

unfoldable pub mtl_format : ℕ → ℕ → Bool
mtl_format format modifier =
    not (modifier == i915_format_mod_4_tiled_mtl_mc_ccs)
    || format == drm_format_nv12
    || format == drm_format_p010
    || format == drm_format_xrgb8888
    || format == drm_format_xbgr8888

-- The layout of the planes for a settled modifier.
module _ (i915 : I915Device) (pagesize width height format use_flags : ℕ)
    (modifiers : Option (List ℕ)) where
  unfoldable pub lay_out : BoMetadata → ℕ → Option (ℕ ⊎ BoMetadata)
  unfolding i915_bo_from_format ccs_planes gen12_planes mtl_planes with_aux media_is_asked
      mtl_format align
  lay_out metadata modifier =
      let planes = drv_num_planes_from_format format in
      if format == drm_format_yvu420_android
      then (do laid ← drv_bo_from_format metadata (align width 32) 1 height format; some (inr laid))
      else if modifier == i915_format_mod_y_tiled_ccs
      then (do laid ← ccs_planes metadata width height format modifier; some (inr laid))
      else if modifier == i915_format_mod_y_tiled_gen12_rc_ccs
          || modifier == i915_format_mod_y_tiled_gen12_mc_ccs
      then (do
        assert (media_is_asked metadata use_flags modifier modifiers)
        assert (ltb 0 planes)
        laid ← with_aux 4096 planes (gen12_planes i915 width height format planes 0 0 metadata)
        some (inr laid))
      else if modifier == i915_format_mod_4_tiled_mtl_rc_ccs
          || modifier == i915_format_mod_4_tiled_mtl_mc_ccs
      then (do
        assert (media_is_asked metadata use_flags modifier modifiers)
        assert (mtl_format format modifier)
        assert (ltb 0 planes)
        laid ← with_aux pagesize planes (mtl_planes width format planes 0 height 0 metadata)
        some (inr laid))
      else i915_bo_from_format i915 pagesize metadata width height format

-- `i915_bo_compute_metadata`: `none` is a failed assertion or a write past the arrays, `inl` an
-- error number. `modifiers` is `none` for a null pointer with a count of 0.
unfoldable pub i915_bo_compute_metadata :
    I915Device
    → Bool
    → Combinations
    → ℕ
    → BoMetadata
    → ℕ
    → ℕ
    → ℕ
    → ℕ
    → Option (List ℕ)
    → Option (ℕ ⊎ BoMetadata)
unfolding choose_modifier tiling_of lay_out
i915_bo_compute_metadata i915 compression combos pagesize metadata width height format use_flags
      modifiers =
    do
      chosen ← choose_modifier i915 compression combos width format use_flags modifiers
      elim chosen [
        | inl error ↦ some (inl error)
        | inr modifier ↦
            lay_out i915 pagesize width height format use_flags modifiers
              (record metadata {
                tiling = tiling_of modifier metadata.tiling;
                format_modifier = modifier;
              })
              modifier
      ]
