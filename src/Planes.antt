-- ===== src/Planes.antt =====
-- drv_helpers.c: strides, sizes and offsets of the planes of a buffer in one kernel object.
mod Tests
pub mod Android
pub mod Contiguous
pub mod LaidOut
use external_minigbm.Base.{
  ℕ, zero, suc, ◌+◌, ◌/◌, ◌%◌, Bool, ◌&&◌, ◌||◌, not, Option, some, List, ltb, leb, ◌==◌,
  if◌then◌else◌, ◌>>=◌, ◌>>◌, assert, get_or, set, wrap32, div_round_up, align,
}
use external_minigbm.Drm.{drm_format_yvu420, drm_format_yvu420_android}
use external_minigbm.Layout.{drv_num_planes_from_format, drv_size_from_format}
use external_minigbm.Bo.{BoMetadata, no_planes}

-- `subsample_stride`. The two assertions are about Android's YV12 alone.
unfoldable pub subsample_stride : ℕ → ℕ → ℕ → ℕ → Option ℕ
unfolding align div_round_up
subsample_stride stride stride_align format plane = do
  let chroma =
      not (plane == 0) && (format == drm_format_yvu420 || format == drm_format_yvu420_android)
  let plane_stride = align (if chroma then div_round_up stride 2 else stride) stride_align
  assert (
      not (format == drm_format_yvu420_android)
      || (if plane == 0 then plane_stride % 16 == 0 else plane_stride == align (stride / 2) 16))
  some plane_stride

-- The loop over the planes `p` to `p + n - 1`, with the offset that the next plane gets.
module _ (stride stride_align aligned_height format : ℕ) (padding : List ℕ) where
  unfoldable pub fill_planes : ℕ → ℕ → ℕ → BoMetadata → Option (BoMetadata × ℕ)
  unfolding subsample_stride drv_size_from_format
  fill_planes zero p offset metadata = some (metadata, offset)
  fill_planes (suc n) p offset metadata = do
    plane_stride ← subsample_stride stride stride_align format p
    bytes ← drv_size_from_format format plane_stride aligned_height p
    let size = wrap32 (bytes + get_or padding p 0)
    fill_planes n (p + 1) (wrap32 (offset + size)) (record metadata {
      strides = set metadata.strides p plane_stride;
      sizes = set metadata.sizes p size;
      offsets = set metadata.offsets p offset;
    })

-- The alignment that Android's YV12 is given where the caller has no requirement.
unfoldable pub forced_align : ℕ → ℕ → ℕ
forced_align stride_align format =
    if format == drm_format_yvu420_android && leb stride_align 1 then 16 else stride_align

unfoldable pub drv_bo_from_format_and_padding :
    BoMetadata → ℕ → ℕ → ℕ → ℕ → List ℕ → Option BoMetadata
unfolding fill_planes forced_align drv_num_planes_from_format
drv_bo_from_format_and_padding metadata stride stride_align aligned_height format padding = do
  let num_planes = drv_num_planes_from_format format
  assert (not (num_planes == 0))
  assert (not (format == drm_format_yvu420_android) || aligned_height == metadata.height)
  (filled, offset) ←
      fill_planes stride (forced_align stride_align format) aligned_height format padding num_planes
        0 0 metadata
  some (record filled { total_size = offset })

unfoldable pub drv_bo_from_format : BoMetadata → ℕ → ℕ → ℕ → ℕ → Option BoMetadata
unfolding drv_bo_from_format_and_padding
drv_bo_from_format metadata stride stride_align aligned_height format =
    drv_bo_from_format_and_padding metadata stride stride_align aligned_height format no_planes
