-- ===== src/Vc4/Linear.antt =====
-- A buffer for use flags is linear, and laid out with a stride of whole cache lines.
use external_minigbm.Base.{
  ℕ, ◌*◌, ◌%◌, ◌^◌, ◌≤◌, ◌≡◌, ◌≢◌, refl, Bool, true, not, ◌&&◌, Option, none, some, ◌⊎◌, inl, inr,
  [], arith, ◌==◌, get_or, Returns, align, align_bounds, align_64, div_round_up,
}
use external_minigbm.Drm.{drm_format_yvu420_android, drm_format_mod_linear}
use external_minigbm.Errors.{einval}
use external_minigbm.Layout.{PlanarLayout, layout_from_format, packed_stride}
use external_minigbm.Layout.Valid.{
  planes_bounds, packed_stride_lem, layout_from_format-PlaneIsValid, stride_from_format_lem,
}
use external_minigbm.Bo.{BoMetadata, Bo, no_planes}
use external_minigbm.Planes.{drv_bo_from_format}
use external_minigbm.Planes.Contiguous.{HasArrays}
use external_minigbm.Planes.LaidOut.{LaidOut, from_format_contiguous}
use external_minigbm.Combinations.{Combination, supports, drv_get_combination}
use external_minigbm.Combinations.All.{all, get_combination-passes}
use external_minigbm.Vc4.{create_object, vc4_init, vc4_bo_create_for_modifier, vc4_bo_create}

abbrev is_plain : Combination → Bool
is_plain c =
    c.metadata.modifier == drm_format_mod_linear && not (c.format == drm_format_yvu420_android)

table_plain : all is_plain (vc4_init []) ≡ true
unfolding vc4_init
table_plain = refl

module _ (kernel : ℕ → ℕ ⊎ ℕ) (bo : Bo) (width height format use_flags : ℕ) {layout : PlanarLayout}
    (known : layout_from_format format ≡ some layout) (room : HasArrays bo.metadata)
    (narrow : width ≤ 2 ^ 24) where
  -- The planes follow one another, with a stride that holds a row and is a multiple of 64.
  abbrev pub HasLines : BoMetadata → Type 0
  HasLines after =
      let columns = div_round_up width (get_or layout.horizontal_subsampling 0 0) in
      (stride : ℕ) × (stride % 64 ≡ 0)
      × (columns * get_or layout.bytes_per_pixel 0 0 ≤ stride)
      × LaidOut bo.metadata stride 1 height format no_planes known room after

  -- EINVAL where the table has no such combination, the kernel's error, or a buffer.
  abbrev pub Vc4Outcome : ℕ ⊎ Bo → Type 0
  Vc4Outcome (inl errno) =
      ((errno ≡ einval) × (drv_get_combination (vc4_init []) format use_flags ≡ none))
      ⊎ ((size : ℕ) × (kernel size ≡ inl errno))
  Vc4Outcome (inr after) = HasLines after.metadata

  laid_out :
      format ≢ drm_format_yvu420_android
      → Returns HasLines
          (drv_bo_from_format bo.metadata (align (packed_stride layout width 0) 64) 1 height format)
  unfolding drv_bo_from_format
  laid_out other =
      let v =
        layout_from_format-PlaneIsValid format 0 known
          (omega (arith, planes_bounds format known)) in
      let packed = packed_stride_lem layout width 0 v (omega arith) in
      let stride = align (packed_stride layout width 0) 64 in
      let up = align_bounds (packed_stride layout width 0) align_64 (omega (arith, packed)) in
      let (after, e, laid) =
        from_format_contiguous bo.metadata stride 1 height format no_planes known room other in
      (after, e, (stride, up.2, omega (arith, packed, up), laid))

  answered :
      (laid : BoMetadata)
      → HasLines laid
      → (answer : ℕ ⊎ ℕ) → kernel laid.total_size ≡ answer
      → Vc4Outcome (create_object kernel bo laid)
  answered laid lines (inl errno) e = rw (Vc4Outcome, e) (inr (laid.total_size, e))
  answered laid lines (inr handle) e = rw (Vc4Outcome, e) lines

  created :
      (o : Option Combination)
      → drv_get_combination (vc4_init []) format use_flags ≡ o
      → Returns Vc4Outcome (vc4_bo_create (vc4_init []) kernel bo width height format use_flags)
  unfolding vc4_bo_create vc4_bo_create_for_modifier supports
  created none e = (inl einval, rw (vc4_bo_create, e) refl, inl (refl, e))
  created (some c) e =
      let (plain, sup) =
        get_combination-passes is_plain (vc4_init []) format use_flags c table_plain e in
      let linear : (c.metadata.modifier == drm_format_mod_linear) ≡ true = ground arith in
      let other : format ≢ drm_format_yvu420_android = ground arith in
      let strided =
        stride_from_format_lem format width 0 known (omega (arith, planes_bounds format known))
          other in
      let (laid, e', lines) = laid_out other in
      (
        create_object kernel bo laid,
        rw (vc4_bo_create, e, linear, strided, e') refl,
        answered laid lines (kernel laid.total_size) refl,
      )

  -- For a known format, metadata with arrays of four entries and a width of at most 2^24: vc4_bo_create
  -- over the table of vc4_init returns; with EINVAL where the table has no combination for the request,
  -- with an error of the kernel, or with a buffer whose planes follow one another, with a stride that
  -- holds a row and is a multiple of 64.
  pub vc4_create-Vc4Outcome :
      Returns Vc4Outcome (vc4_bo_create (vc4_init []) kernel bo width height format use_flags)
  vc4_create-Vc4Outcome = created (drv_get_combination (vc4_init []) format use_flags) refl
