-- ===== src/Layout/Valid.antt =====
-- Every layout of the table is usable, and strides computed from it hold the pixels of a row.
use external_minigbm.Base.{
  ℕ, zero, suc, ◌+◌, ◌*◌, ◌%◌, ◌^◌, ◌≤◌, ◌<◌, ◌≡◌, ◌≢◌, refl, ==_ne, some, arith, get_or, Returns,
  ◌==◌, if◌then◌else◌, align, div_round_up, align_bounds, div_round_up_bounds, align_16, align_32,
}
use external_minigbm.Drm.{drm_format_yvu420_android}
use external_minigbm.Layout.{
  PlanarLayout, layout_from_format, layout_of_plane, packed_stride, drv_stride_from_format,
}

-- A plane subsamples by one or two in each direction, and has pixels of one to eight bytes.
pub record PlaneIsValid (layout : PlanarLayout) (p : ℕ) : Type 0 where
  pub across : 1 ≤ get_or layout.horizontal_subsampling p 0
  pub across_le : get_or layout.horizontal_subsampling p 0 ≤ 2
  pub down : 1 ≤ get_or layout.vertical_subsampling p 0
  pub down_le : get_or layout.vertical_subsampling p 0 ≤ 2
  pub bytes : 1 ≤ get_or layout.bytes_per_pixel p 0
  pub bytes_le : get_or layout.bytes_per_pixel p 0 ≤ 8

-- The number of planes that a format's layout has is one, two or three.
pub planes_bounds :
    (format : ℕ) {layout : PlanarLayout}
    → layout_from_format format ≡ some layout
    → (1 ≤ layout.num_planes) × (layout.num_planes ≤ 3)
unfolding layout_from_format
planes_bounds format h = ground arith

-- Each plane of the layout that `layout_from_format` returns subsamples by one or two in each
-- direction and has pixels of one to eight bytes.
pub layout_from_format-PlaneIsValid :
    (format p : ℕ) {layout : PlanarLayout}
    → layout_from_format format ≡ some layout
    → p < layout.num_planes
    → PlaneIsValid layout p
unfolding layout_from_format
layout_from_format-PlaneIsValid format zero h lt = ground arith
layout_from_format-PlaneIsValid format (suc zero) h lt = ground arith
layout_from_format-PlaneIsValid format (suc (suc zero)) h lt = ground arith
layout_from_format-PlaneIsValid format (suc (suc (suc p))) h lt =
    absurd (omega (arith, planes_bounds format h))

pub layout_of_plane_lem :
    (format p : ℕ) {layout : PlanarLayout}
    → layout_from_format format ≡ some layout
    → p < layout.num_planes
    → layout_of_plane format p ≡ some layout
unfolding layout_of_plane
layout_of_plane_lem format p h lt = ground arith

product_lt : (a b : ℕ) → a ≤ 2 ^ 28 → b ≤ 8 → a * b ≤ 2 ^ 31
product_lt a b h k = grind arith

columns_le : (c d : ℕ) → 1 ≤ d → c * d < 2 ^ 28 + d → d ≤ 2 → c ≤ 2 ^ 28
columns_le c d h k l = grind arith

pub packed_stride_lem :
    (layout : PlanarLayout) (width p : ℕ)
    → PlaneIsValid layout p
    → width < 2 ^ 28
    → let columns = div_round_up width (get_or layout.horizontal_subsampling p 0) in
      (width ≤ columns * get_or layout.horizontal_subsampling p 0)
      × (packed_stride layout width p ≡ columns * get_or layout.bytes_per_pixel p 0)
      × (packed_stride layout width p ≤ 2 ^ 31)
unfolding packed_stride
packed_stride_lem layout width p v small =
    let d = get_or layout.horizontal_subsampling p 0 in
    let b = get_or layout.bytes_per_pixel p 0 in
    let up = div_round_up_bounds width d v.across (omega (arith, v.across_le)) in
    let few = columns_le (div_round_up width d) d v.across (omega (arith, up)) v.across_le in
    let fits = product_lt (div_round_up width d) b few v.bytes_le in
    (up.0, omega (arith, fits), omega (arith, fits))

-- The alignment of Android's YV12 never shortens a row.
android_stride :
    (format stride plane : ℕ)
    → stride ≤ 2 ^ 31
    → let s =
        if format == drm_format_yvu420_android
        then (if plane == 0 then align stride 32 else align stride 16)
        else stride in
      (stride ≤ s) × (format ≡ drm_format_yvu420_android → s % 16 ≡ 0)
android_stride format stride plane h =
    ground (
      arith,
      align_bounds stride align_32 (omega arith),
      align_bounds stride align_16 (omega arith),
    )

-- Outside Android's YV12 the stride is the packed one.
pub stride_from_format_lem :
    (format width p : ℕ) {layout : PlanarLayout}
    → layout_from_format format ≡ some layout
    → p < layout.num_planes
    → format ≢ drm_format_yvu420_android
    → drv_stride_from_format format width p ≡ some (packed_stride layout width p)
unfolding drv_stride_from_format
stride_from_format_lem format width p h lt other =
    rw (layout_of_plane_lem format p h lt, ==_ne format drm_format_yvu420_android other) refl

-- For a plane that the format has and a width below 2 ^ 28, `drv_stride_from_format` returns a
-- stride that holds a whole row of the plane, and a multiple of 16 for Android's YV12.
pub stride_covers :
    (format width p : ℕ) {layout : PlanarLayout}
    → layout_from_format format ≡ some layout
    → p < layout.num_planes
    → width < 2 ^ 28
    → let columns = div_round_up width (get_or layout.horizontal_subsampling p 0) in
      Returns
        (λ stride.
          (width ≤ columns * get_or layout.horizontal_subsampling p 0)
          × (columns * get_or layout.bytes_per_pixel p 0 ≤ stride)
          × (format ≡ drm_format_yvu420_android → stride % 16 ≡ 0))
        (drv_stride_from_format format width p)
unfolding drv_stride_from_format
stride_covers format width p {layout} h lt small =
    let v = layout_from_format-PlaneIsValid format p h lt in
    let packed = packed_stride_lem layout width p v small in
    let padded = android_stride format (packed_stride layout width p) p (omega (arith, packed)) in
    (_, rw (layout_of_plane_lem format p h lt), (packed.0, omega (arith, packed, padded), padded.1))
