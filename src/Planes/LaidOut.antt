-- ===== src/Planes/LaidOut.antt =====
-- What `drv_bo_from_format_and_padding` promises: it returns, and the planes follow one another.
use external_minigbm.Base.{
  ℕ, ◌<◌, ◌≡◌, ◌≢◌, some, List, arith, Returns, Total, not, ◌||◌, ◌&&◌, true, false, ◌==◌, ==_ne,
  if◌then◌else◌, align, div_round_up,
}
use external_minigbm.Drm.{drm_format_yvu420, drm_format_yvu420_android}
use external_minigbm.Layout.{PlanarLayout, layout_from_format, drv_num_planes_from_format}
use external_minigbm.Layout.Valid.{planes_bounds}
use external_minigbm.Bo.{BoMetadata}
use external_minigbm.Planes.{subsample_stride, forced_align, drv_bo_from_format_and_padding}
use external_minigbm.Planes.Contiguous.{
  HasArrays, loop, Chain, other_fields, loop-Keeps, loop-Chain, loop-Returns, Chain-total_size,
}

-- Outside Android's YV12 the assertions of `subsample_stride` ask nothing.
plain_stride :
    (stride stride_align format q : ℕ)
    → format ≢ drm_format_yvu420_android
    → Total (subsample_stride stride stride_align format q)
unfolding subsample_stride
plain_stride stride stride_align format q other =
    let chroma =
      not (q == 0) && (format == drm_format_yvu420 || format == drm_format_yvu420_android) in
    (
      align (if chroma then div_round_up stride 2 else stride) stride_align,
      rw (==_ne format drm_format_yvu420_android other),
    )

module _ (metadata : BoMetadata) (stride stride_align aligned_height format : ℕ) (padding : List ℕ)
    {layout : PlanarLayout} (known : layout_from_format format ≡ some layout)
    (room : HasArrays metadata) where
  -- What the layout promises about the metadata that it returns.
  abbrev pub LaidOut : BoMetadata → Type 0
  LaidOut after =
      Chain stride (forced_align stride_align format) aligned_height format padding
        (drv_num_planes_from_format format) 0 0 after.total_size after
      × (other_fields after ≡ other_fields metadata)

  finish :
      (after : BoMetadata) (end : ℕ)
      → loop stride
          (forced_align stride_align format)
          aligned_height
          format
          padding
          layout.num_planes
          0
          0
          metadata
        ≡ some (after, end)
      → (not (format == drm_format_yvu420_android) || aligned_height == metadata.height) ≡ true
      → Returns LaidOut (
          drv_bo_from_format_and_padding metadata stride stride_align aligned_height format padding)
  unfolding drv_bo_from_format_and_padding
  finish after end e guarded =
      let n = layout.num_planes in
      let a = forced_align stride_align format in
      let bounds = planes_bounds format known in
      let planes : drv_num_planes_from_format format ≡ n = rw (drv_num_planes_from_format, known) in
      let nonzero : (n == 0) ≡ false = ground arith in
      let chain =
        loop-Chain stride a aligned_height format padding n 0 0 metadata room (omega arith) e in
      let kept = loop-Keeps stride a aligned_height format padding n 0 0 metadata e in
      (
        record after { total_size = end },
        rw (planes, nonzero, guarded, e),
        (
          rw planes
              (Chain-total_size stride a aligned_height format padding n 0 0 end end after chain),
          kept.others_kept,
        ),
      )

  pub from_format-LaidOut :
      (format ≡ drm_format_yvu420_android → aligned_height ≡ metadata.height)
      → ((q : ℕ)
          → q < layout.num_planes
          → Total (subsample_stride stride (forced_align stride_align format) format q))
      → Returns LaidOut (
          drv_bo_from_format_and_padding metadata stride stride_align aligned_height format padding)
  from_format-LaidOut height strides =
      let ((after, end), e) =
        loop-Returns stride (forced_align stride_align format) aligned_height format padding
          layout.num_planes 0 0 metadata known (omega arith) strides in
      finish after end e (ground (arith, height))

-- For metadata with arrays of four entries and a known format other than Android's YV12,
-- `drv_bo_from_format_and_padding` returns for every
-- stride, alignment, height and padding; the planes have the strides of `subsample_stride` and the
-- bytes of their rows and padding, each begins where the one before it ends, `total_size` is the end
-- of the last, and no other field changes.
pub from_format_contiguous :
    (metadata : BoMetadata) (stride stride_align aligned_height format : ℕ) (padding : List ℕ)
    {layout : PlanarLayout} (known : layout_from_format format ≡ some layout)
    (room : HasArrays metadata)
    → format ≢ drm_format_yvu420_android
    → Returns
        (LaidOut metadata stride stride_align aligned_height format padding known room)
        (drv_bo_from_format_and_padding metadata stride stride_align aligned_height format padding)
from_format_contiguous metadata stride stride_align aligned_height format padding known room other =
    from_format-LaidOut metadata stride stride_align aligned_height format padding known room
      (λ e. absurd (other e)) (λ q lt. plain_stride stride _ format q other)
