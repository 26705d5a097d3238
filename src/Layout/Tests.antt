-- ===== src/Layout/Tests.antt =====
-- Runs of the layouts.
use external_minigbm.Base.{◌≡◌, ◌≤◌, ◌*◌, ◌%◌, refl, some, arith, Returns, div_round_up}
use external_minigbm.Drm.{drm_format_nv12, drm_format_yvu420_android}
use external_minigbm.Layout.{
  layout_from_format, one_of, biplanar_yuv_420_layout, drv_stride_from_format,
}
use external_minigbm.Layout.Valid.{stride_covers}

nv12_known : layout_from_format drm_format_nv12 ≡ some biplanar_yuv_420_layout
unfolding layout_from_format one_of
nv12_known = refl

stride_covers_example :
    let columns = div_round_up 641 2 in
    Returns
      (λ stride.
        (641 ≤ columns * 2)
        × (columns * 2 ≤ stride)
        × (drm_format_nv12 ≡ drm_format_yvu420_android → stride % 16 ≡ 0))
      (drv_stride_from_format drm_format_nv12 641 1)
stride_covers_example = stride_covers drm_format_nv12 641 1 nv12_known (omega arith) (omega arith)
