-- ===== src/Planes/Tests.antt =====
-- Runs of the plane layout.
use external_minigbm.Base.{ℕ, ◌≡◌, refl, some, [], ◌∷◌, arith, false, Returns, List}
use external_minigbm.Bo.{BoMetadata, no_planes}
use external_minigbm.Drm.{drm_format_nv12, drm_format_yvu420_android}
use external_minigbm.Layout.{layout_from_format, one_of, biplanar_yuv_420_layout}
use external_minigbm.Planes.{drv_bo_from_format_and_padding}
use external_minigbm.Planes.Contiguous.{HasArrays}
use external_minigbm.Planes.LaidOut.{LaidOut, from_format_contiguous}
use external_minigbm.Planes.Android.{AndroidStrides, android_layout}

abbrev fresh_metadata : ℕ → ℕ → ℕ → BoMetadata
fresh_metadata width height format = record {
  width = width;
  height = height;
  format = format;
  tiling = 0;
  num_planes = 2;
  offsets = no_planes;
  sizes = no_planes;
  strides = no_planes;
  format_modifier = 0;
  use_flags = 1;
  total_size = 0;
  cached = false;
}

fresh_metadata-HasArrays :
    (width height format : ℕ) → HasArrays (fresh_metadata width height format)
fresh_metadata-HasArrays width height format = record {
  offsets_room = refl;
  sizes_room = refl;
  strides_room = refl;
}

abbrev page_padding : List ℕ
page_padding = 0 ∷ 4096 ∷ 0 ∷ 0 ∷ []

nv12_known : layout_from_format drm_format_nv12 ≡ some biplanar_yuv_420_layout
unfolding layout_from_format one_of
nv12_known = refl

from_format_contiguous_example :
    Returns
      (LaidOut
        (fresh_metadata 640 480 drm_format_nv12)
        640
        64
        480
        drm_format_nv12
        page_padding
        nv12_known
        (fresh_metadata-HasArrays 640 480 drm_format_nv12))
      (drv_bo_from_format_and_padding
        (fresh_metadata 640 480 drm_format_nv12)
        640
        64
        480
        drm_format_nv12
        page_padding)
from_format_contiguous_example =
    from_format_contiguous (fresh_metadata 640 480 drm_format_nv12) 640 64 480 drm_format_nv12
      page_padding nv12_known (fresh_metadata-HasArrays 640 480 drm_format_nv12) (omega arith)

android_layout_example : Returns (AndroidStrides 322) (
    drv_bo_from_format_and_padding
      (fresh_metadata 322 240 drm_format_yvu420_android)
      322
      1
      240
      drm_format_yvu420_android
      no_planes)
android_layout_example =
    android_layout (fresh_metadata 322 240 drm_format_yvu420_android) 322 1 240 no_planes
      (fresh_metadata-HasArrays 322 240 drm_format_yvu420_android) refl (omega arith) (omega arith)
      (omega arith)
