-- ===== src/Layout.antt =====
-- drv_helpers.c: the planes of a format, their subsampling and the bytes of their pixels. `none` is
-- a failed assertion or a read through the null layout of an unknown format.
mod Tests
pub mod Valid
use external_minigbm.Base.{
  ℕ, zero, suc, ◌*◌, ◌<◌, Bool, true, false, ◌||◌, Option, none, some, List, [], ◌∷◌, ltb, ◌==◌,
  if◌then◌else◌, ◌>>=◌, ◌>>◌, assert, get_or, wrap32, div_round_up, align,
}
use external_minigbm.Drm.{
  drm_format_abgr1555, drm_format_abgr16161616f, drm_format_abgr2101010, drm_format_abgr4444,
  drm_format_abgr8888, drm_format_argb1555, drm_format_argb2101010, drm_format_argb4444,
  drm_format_argb8888, drm_format_ayuv, drm_format_bgr233, drm_format_bgr565, drm_format_bgr888,
  drm_format_bgra1010102, drm_format_bgra4444, drm_format_bgra5551, drm_format_bgra8888,
  drm_format_bgrx1010102, drm_format_bgrx4444, drm_format_bgrx5551, drm_format_bgrx8888,
  drm_format_c8, drm_format_depth16, drm_format_depth24, drm_format_depth24_stencil8,
  drm_format_depth32, drm_format_depth32_stencil8, drm_format_gr88, drm_format_mtisp_sxyzw10,
  drm_format_nv12, drm_format_nv21, drm_format_p010, drm_format_r16, drm_format_r8, drm_format_rg88,
  drm_format_rgb332, drm_format_rgb565, drm_format_rgb888, drm_format_rgba1010102,
  drm_format_rgba4444, drm_format_rgba5551, drm_format_rgba8888, drm_format_rgbx1010102,
  drm_format_rgbx4444, drm_format_rgbx5551, drm_format_rgbx8888, drm_format_uyvy, drm_format_vyuy,
  drm_format_xbgr1555, drm_format_xbgr2101010, drm_format_xbgr4444, drm_format_xbgr8888,
  drm_format_xrgb1555, drm_format_xrgb2101010, drm_format_xrgb4444, drm_format_xrgb8888,
  drm_format_yuyv, drm_format_yvu420, drm_format_yvu420_android, drm_format_yvyu,
  drm_format_mod_linear, drm_format_mod_invalid,
}

-- `struct planar_layout`. The arrays of four entries are zero where the source gives no value.
pub record PlanarLayout : Type 0 where
  pub num_planes : ℕ
  pub horizontal_subsampling : List ℕ
  pub vertical_subsampling : List ℕ
  pub bytes_per_pixel : List ℕ

abbrev pub packed_1bpp_layout : PlanarLayout
packed_1bpp_layout = record {
  num_planes = 1;
  horizontal_subsampling = 1 ∷ 0 ∷ 0 ∷ 0 ∷ [];
  vertical_subsampling = 1 ∷ 0 ∷ 0 ∷ 0 ∷ [];
  bytes_per_pixel = 1 ∷ 0 ∷ 0 ∷ 0 ∷ [];
}

abbrev pub packed_2bpp_layout : PlanarLayout
packed_2bpp_layout = record {
  num_planes = 1;
  horizontal_subsampling = 1 ∷ 0 ∷ 0 ∷ 0 ∷ [];
  vertical_subsampling = 1 ∷ 0 ∷ 0 ∷ 0 ∷ [];
  bytes_per_pixel = 2 ∷ 0 ∷ 0 ∷ 0 ∷ [];
}

abbrev pub packed_3bpp_layout : PlanarLayout
packed_3bpp_layout = record {
  num_planes = 1;
  horizontal_subsampling = 1 ∷ 0 ∷ 0 ∷ 0 ∷ [];
  vertical_subsampling = 1 ∷ 0 ∷ 0 ∷ 0 ∷ [];
  bytes_per_pixel = 3 ∷ 0 ∷ 0 ∷ 0 ∷ [];
}

abbrev pub packed_4bpp_layout : PlanarLayout
packed_4bpp_layout = record {
  num_planes = 1;
  horizontal_subsampling = 1 ∷ 0 ∷ 0 ∷ 0 ∷ [];
  vertical_subsampling = 1 ∷ 0 ∷ 0 ∷ 0 ∷ [];
  bytes_per_pixel = 4 ∷ 0 ∷ 0 ∷ 0 ∷ [];
}

abbrev pub packed_8bpp_layout : PlanarLayout
packed_8bpp_layout = record {
  num_planes = 1;
  horizontal_subsampling = 1 ∷ 0 ∷ 0 ∷ 0 ∷ [];
  vertical_subsampling = 1 ∷ 0 ∷ 0 ∷ 0 ∷ [];
  bytes_per_pixel = 8 ∷ 0 ∷ 0 ∷ 0 ∷ [];
}

abbrev pub biplanar_yuv_420_layout : PlanarLayout
biplanar_yuv_420_layout = record {
  num_planes = 2;
  horizontal_subsampling = 1 ∷ 2 ∷ 0 ∷ 0 ∷ [];
  vertical_subsampling = 1 ∷ 2 ∷ 0 ∷ 0 ∷ [];
  bytes_per_pixel = 1 ∷ 2 ∷ 0 ∷ 0 ∷ [];
}

abbrev pub triplanar_yuv_420_layout : PlanarLayout
triplanar_yuv_420_layout = record {
  num_planes = 3;
  horizontal_subsampling = 1 ∷ 2 ∷ 2 ∷ 0 ∷ [];
  vertical_subsampling = 1 ∷ 2 ∷ 2 ∷ 0 ∷ [];
  bytes_per_pixel = 1 ∷ 1 ∷ 1 ∷ 0 ∷ [];
}

abbrev pub biplanar_yuv_p010_layout : PlanarLayout
biplanar_yuv_p010_layout = record {
  num_planes = 2;
  horizontal_subsampling = 1 ∷ 2 ∷ 0 ∷ 0 ∷ [];
  vertical_subsampling = 1 ∷ 2 ∷ 0 ∷ 0 ∷ [];
  bytes_per_pixel = 2 ∷ 4 ∷ 0 ∷ 0 ∷ [];
}

-- The labels of one group of `case`s.
unfoldable pub one_of : ℕ → List ℕ → Bool
one_of format [] = false
one_of format (f ∷ fs) = format == f || one_of format fs

abbrev pub packed_1bpp_formats : List ℕ
packed_1bpp_formats = drm_format_bgr233 ∷ drm_format_c8 ∷ drm_format_r8 ∷ drm_format_rgb332 ∷ []

abbrev pub packed_2bpp_formats : List ℕ
packed_2bpp_formats = drm_format_r16 ∷ drm_format_depth16 ∷ []

abbrev pub triplanar_yuv_420_formats : List ℕ
triplanar_yuv_420_formats = drm_format_yvu420 ∷ drm_format_yvu420_android ∷ []

abbrev pub biplanar_yuv_420_formats : List ℕ
biplanar_yuv_420_formats = drm_format_nv12 ∷ drm_format_nv21 ∷ []

abbrev pub biplanar_yuv_p010_formats : List ℕ
biplanar_yuv_p010_formats = drm_format_p010 ∷ []

abbrev pub packed_2bpp_color_formats : List ℕ
packed_2bpp_color_formats =
    drm_format_abgr1555 ∷ drm_format_abgr4444 ∷ drm_format_argb1555 ∷ drm_format_argb4444
    ∷ drm_format_bgr565 ∷ drm_format_bgra4444 ∷ drm_format_bgra5551 ∷ drm_format_bgrx4444
    ∷ drm_format_bgrx5551 ∷ drm_format_gr88 ∷ drm_format_rg88 ∷ drm_format_rgb565
    ∷ drm_format_rgba4444 ∷ drm_format_rgba5551 ∷ drm_format_rgbx4444 ∷ drm_format_rgbx5551
    ∷ drm_format_uyvy ∷ drm_format_vyuy ∷ drm_format_xbgr1555 ∷ drm_format_xbgr4444
    ∷ drm_format_xrgb1555 ∷ drm_format_xrgb4444 ∷ drm_format_yuyv ∷ drm_format_yvyu
    ∷ drm_format_mtisp_sxyzw10 ∷ []

abbrev pub packed_3bpp_formats : List ℕ
packed_3bpp_formats = drm_format_bgr888 ∷ drm_format_rgb888 ∷ []

abbrev pub packed_4bpp_formats : List ℕ
packed_4bpp_formats =
    drm_format_depth24 ∷ drm_format_depth24_stencil8 ∷ drm_format_depth32 ∷ drm_format_abgr2101010
    ∷ drm_format_abgr8888 ∷ drm_format_argb2101010 ∷ drm_format_argb8888 ∷ drm_format_ayuv
    ∷ drm_format_bgra1010102 ∷ drm_format_bgra8888 ∷ drm_format_bgrx1010102 ∷ drm_format_bgrx8888
    ∷ drm_format_rgba1010102 ∷ drm_format_rgba8888 ∷ drm_format_rgbx1010102 ∷ drm_format_rgbx8888
    ∷ drm_format_xbgr2101010 ∷ drm_format_xbgr8888 ∷ drm_format_xrgb2101010 ∷ drm_format_xrgb8888
    ∷ []

abbrev pub packed_8bpp_formats : List ℕ
packed_8bpp_formats = drm_format_depth32_stencil8 ∷ drm_format_abgr16161616f ∷ []

-- `layout_from_format`, the `switch` with its groups in the order of the source.
unfoldable pub layout_from_format : ℕ → Option PlanarLayout
layout_from_format format =
    if one_of format packed_1bpp_formats
    then some packed_1bpp_layout
    else if one_of format packed_2bpp_formats
    then some packed_2bpp_layout
    else if one_of format triplanar_yuv_420_formats
    then some triplanar_yuv_420_layout
    else if one_of format biplanar_yuv_420_formats
    then some biplanar_yuv_420_layout
    else if one_of format biplanar_yuv_p010_formats
    then some biplanar_yuv_p010_layout
    else if one_of format packed_2bpp_color_formats
    then some packed_2bpp_layout
    else if one_of format packed_3bpp_formats
    then some packed_3bpp_layout
    else if one_of format packed_4bpp_formats
    then some packed_4bpp_layout
    else if one_of format packed_8bpp_formats
    then some packed_8bpp_layout
    else none

unfoldable pub drv_num_planes_from_format : ℕ → ℕ
unfolding layout_from_format
drv_num_planes_from_format format = elim (layout_from_format format) [
  | none ↦ 0
  | some layout ↦ layout.num_planes
]

-- `backend_planes` is the backend's `num_planes_from_modifier`, if it has one.
unfoldable pub drv_num_planes_from_modifier : Option (ℕ → ℕ → ℕ) → ℕ → ℕ → ℕ
unfolding drv_num_planes_from_format
drv_num_planes_from_modifier backend_planes format modifier =
    let planes = drv_num_planes_from_format format in
    if planes == 0
    then 0
    else if modifier == drm_format_mod_invalid || modifier == drm_format_mod_linear
    then planes
    else elim backend_planes [ none ↦ planes | some f ↦ f format modifier ]

-- `layout_from_format` with the assertion that the plane is one of the layout's.
unfoldable pub layout_of_plane : ℕ → ℕ → Option PlanarLayout
unfolding layout_from_format
layout_of_plane format plane = do
  layout ← layout_from_format format
  assert (ltb plane layout.num_planes)
  some layout

unfoldable pub drv_height_from_format : ℕ → ℕ → ℕ → Option ℕ
unfolding layout_of_plane div_round_up
drv_height_from_format format height plane = do
  layout ← layout_of_plane format plane
  some (div_round_up height (get_or layout.vertical_subsampling plane 0))

unfoldable pub drv_vertical_subsampling_from_format : ℕ → ℕ → Option ℕ
unfolding layout_of_plane
drv_vertical_subsampling_from_format format plane = do
  layout ← layout_of_plane format plane
  some (get_or layout.vertical_subsampling plane 0)

unfoldable pub drv_bytes_per_pixel_from_format : ℕ → ℕ → Option ℕ
unfolding layout_of_plane
drv_bytes_per_pixel_from_format format plane = do
  layout ← layout_of_plane format plane
  some (get_or layout.bytes_per_pixel plane 0)

-- The stride in bytes of the layout's plane, before the alignment that Android's YV12 asks for.
unfoldable pub packed_stride : PlanarLayout → ℕ → ℕ → ℕ
packed_stride layout width plane = wrap32 (
    div_round_up width (get_or layout.horizontal_subsampling plane 0)
    * get_or layout.bytes_per_pixel plane 0)

unfoldable pub drv_stride_from_format : ℕ → ℕ → ℕ → Option ℕ
unfolding layout_of_plane packed_stride div_round_up align
drv_stride_from_format format width plane = do
  layout ← layout_of_plane format plane
  let stride = packed_stride layout width plane
  some (
      if format == drm_format_yvu420_android
      then (if plane == 0 then align stride 32 else align stride 16)
      else stride)

unfoldable pub drv_size_from_format : ℕ → ℕ → ℕ → ℕ → Option ℕ
unfolding drv_height_from_format
drv_size_from_format format stride height plane = do
  plane_height ← drv_height_from_format format height plane
  some (wrap32 (stride * plane_height))
