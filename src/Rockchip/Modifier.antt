-- ===== src/Rockchip/Modifier.antt =====
-- When a buffer is compressed.
use external_minigbm.Base.{
  ℕ, ◌≤◌, ◌≡◌, ◌≢◌, refl, ap, Bool, true, false, not, ◌&&◌, some, ◌⊎◌, inl, inr, List, arith, ◌==◌,
  leb, if◌then◌else◌, align, wrap32, div_round_up, ◌*◌, ◌+◌, ◌||◌, Bool-cases, Returns, Total,
}
use external_minigbm.Drm.{
  drm_format_nv12, drm_format_yvu420, drm_format_yvu420_android, drm_format_mod_linear,
  drm_format_mod_rockchip_afbc,
}
use external_minigbm.Errors.{einval}
use external_minigbm.Layout.{
  PlanarLayout, layout_from_format, one_of, biplanar_yuv_420_layout, drv_stride_from_format,
  packed_stride,
}
use external_minigbm.Layout.Valid.{layout_of_plane_lem, planes_bounds}
use external_minigbm.Bo.{BoMetadata, Bo, no_planes}
use external_minigbm.Planes.{drv_bo_from_format}
use external_minigbm.Planes.Contiguous.{HasArrays}
use external_minigbm.Planes.LaidOut.{from_format_contiguous}
use external_minigbm.Modifiers.{drv_has_modifier}
use external_minigbm.Rockchip.{
  choose_afbc, afbc_bo_from_format, nv12_from_format, linear_from_format, gem_create,
  rockchip_bo_create_with_modifiers,
}

-- The layout keeps the modifier.
from_format-keeps :
    (metadata : BoMetadata) (stride height format : ℕ) {layout : PlanarLayout}
    → layout_from_format format ≡ some layout
    → HasArrays metadata
    → format ≢ drm_format_yvu420_android
    → Returns
        (λ after. after.format_modifier ≡ metadata.format_modifier)
        (drv_bo_from_format metadata stride 1 height format)
unfolding drv_bo_from_format
from_format-keeps metadata stride height format known room other =
    let (after, e, (_, kept)) =
      from_format_contiguous metadata stride 1 height format no_planes known room other in
    (after, e, ap (λ (m : BoMetadata). m.format_modifier) kept)

stride_returns :
    (format width : ℕ) {layout : PlanarLayout}
    → layout_from_format format ≡ some layout
    → Total (drv_stride_from_format format width 0)
unfolding drv_stride_from_format
stride_returns format width {layout} known =
    let stride = packed_stride layout width 0 in
    let padded = if format == drm_format_yvu420_android then align stride 32 else stride in
    (padded, rw (layout_of_plane_lem format 0 known (omega (arith, planes_bounds format known))))

nv12_known : layout_from_format drm_format_nv12 ≡ some biplanar_yuv_420_layout
unfolding layout_from_format one_of
nv12_known = refl

nv12-keeps :
    (metadata : BoMetadata) (width height : ℕ)
    → HasArrays metadata
    → Returns
        (λ after. after.format_modifier ≡ metadata.format_modifier)
        (nv12_from_format metadata width height)
unfolding nv12_from_format
nv12-keeps metadata width height room =
    let (after, e, kept) =
      from_format-keeps metadata (wrap32 (div_round_up width 16 * 16))
        (wrap32 (div_round_up height 16 * 16)) drm_format_nv12 nv12_known room (omega arith) in
    let vectors = wrap32 (div_round_up width 16 * div_round_up height 16 * 128) in
    (record after { total_size = after.total_size + vectors }, rw e refl, kept)

linear-keeps :
    (metadata : BoMetadata) (width height format : ℕ) {layout : PlanarLayout}
    → layout_from_format format ≡ some layout
    → HasArrays metadata
    → format ≢ drm_format_yvu420_android
    → Returns
        (λ after. after.format_modifier ≡ metadata.format_modifier)
        (linear_from_format metadata width height format)
unfolding linear_from_format
linear-keeps metadata width height format known room other =
    let (stride, e) = stride_returns format width known in
    let planar = format == drm_format_yvu420 || format == drm_format_yvu420_android in
    let (after, e', kept) =
      from_format-keeps metadata (align stride (if planar then 128 else 64)) height format known
        room other in
    (after, rw (e, e') refl, kept)

module _ (chromeos_afbc : ℕ) (compression : Bool) (kernel : ℕ → ℕ ⊎ ℕ) (bo : Bo)
    (width height format : ℕ) (modifiers : List ℕ) where
  -- A buffer keeps its modifier, or gets one that the client offers, on a driver with compression and
  -- for at most 2560 pixels across.
  abbrev pub IsOffered : ℕ ⊎ Bo → Type 0
  IsOffered (inl errno) =
      ((size : ℕ) × (kernel size ≡ inl errno))
      ⊎ ((errno ≡ einval) × (drv_has_modifier modifiers drm_format_mod_linear ≡ false))
  IsOffered (inr after) =
      (after.metadata.format_modifier ≡ bo.metadata.format_modifier)
      ⊎ ((compression ≡ true)
          × (width ≤ 2560)
          × (drv_has_modifier modifiers after.metadata.format_modifier ≡ true))

  plain-IsOffered :
      (metadata : BoMetadata)
      → metadata.format_modifier ≡ bo.metadata.format_modifier
      → (answer : ℕ ⊎ ℕ) → kernel metadata.total_size ≡ answer
      → IsOffered (gem_create kernel bo metadata)
  plain-IsOffered metadata kept (inl errno) e = rw (IsOffered, e) (inl (metadata.total_size, e))
  plain-IsOffered metadata kept (inr handle) e = rw (IsOffered, e) (inl kept)

  afbc-IsOffered :
      (metadata : BoMetadata)
      → (compression ≡ true)
        × (width ≤ 2560)
        × (drv_has_modifier modifiers metadata.format_modifier ≡ true)
      → (answer : ℕ ⊎ ℕ) → kernel metadata.total_size ≡ answer
      → IsOffered (gem_create kernel bo metadata)
  afbc-IsOffered metadata allowed (inl errno) e = rw (IsOffered, e) (inl (metadata.total_size, e))
  afbc-IsOffered metadata allowed (inr handle) e = rw (IsOffered, e) (inr allowed)

  chosen_afbc :
      (choose_afbc chromeos_afbc compression kernel modifiers == 0) ≡ false
      → drv_has_modifier modifiers (choose_afbc chromeos_afbc compression kernel modifiers) ≡ true
  unfolding choose_afbc
  chosen_afbc h = elim (Bool-cases (drv_has_modifier modifiers drm_format_mod_rockchip_afbc)) [
    | inl standard ↦ rw (standard, standard) refl
    | inr other ↦ elim (Bool-cases (drv_has_modifier modifiers chromeos_afbc)) [
      | inl chromeos ↦ rw (other, chromeos, chromeos) refl
      | inr neither ↦ absurd (ground (arith, rw (other, neither) at h))
    ]
  ]

  -- For a known format other than Android's YV12, and metadata with arrays of four entries,
  -- rockchip_bo_create_with_modifiers returns. It fails only with an error of the kernel, or with EINVAL
  -- where the client does not offer the linear layout. The buffer keeps the modifier it came with, or
  -- gets one that the client offers, on a driver with compression and for at most 2560 pixels across.
  pub create_with_modifiers-IsOffered :
      {layout : PlanarLayout}
      → layout_from_format format ≡ some layout
      → HasArrays bo.metadata
      → format ≢ drm_format_yvu420_android
      → Returns IsOffered (
          rockchip_bo_create_with_modifiers chromeos_afbc compression kernel bo width height format
            modifiers)
  unfolding rockchip_bo_create_with_modifiers afbc_bo_from_format
  create_with_modifiers-IsOffered known room other =
      let afbc = choose_afbc chromeos_afbc compression kernel modifiers in
      elim (Bool-cases (format == drm_format_nv12)) [
        | inl nv12 ↦
            let (laid, e, kept) = nv12-keeps bo.metadata width height room in
            (
              gem_create kernel bo laid,
              rw (nv12, e) refl,
              plain-IsOffered laid kept (kernel laid.total_size) refl,
            )
        | inr not_nv12 ↦ elim (Bool-cases (leb width 2560 && not (afbc == 0) && compression)) [
          | inl compressed ↦
              let after = afbc_bo_from_format bo.metadata width height afbc in
              (
                gem_create kernel bo after,
                rw (not_nv12, compressed) refl,
                afbc-IsOffered after (ground arith, ground arith, chosen_afbc (ground arith))
                    (kernel after.total_size) refl,
              )
          | inr plain ↦ elim (Bool-cases (drv_has_modifier modifiers drm_format_mod_linear)) [
            | inl offered ↦
                let (laid, e, kept) =
                  linear-keeps bo.metadata width height format known room other in
                (
                  gem_create kernel bo laid,
                  rw (not_nv12, plain, offered, e) refl,
                  plain-IsOffered laid kept (kernel laid.total_size) refl,
                )
            | inr missing ↦ (inl einval, rw (not_nv12, plain, missing) refl, inr (refl, missing))
          ]
        ]
      ]
