-- ===== src/Mediatek/Planned.antt =====
-- The planes of a buffer on each platform.
use external_minigbm.Base.{
  ℕ, ◌+◌, ◌*◌, ◌%◌, ◌^◌, ◌≤◌, ◌<◌, ◌≡◌, ◌≢◌, refl, ◌∙◌, ap, true, false, not, ◌&&◌, some, inl, inr,
  List, arith, ◌==◌, get_or, Returns, wrap32, ◌-◌, ltb, align, align_bounds, align_16, align_32,
  align_64, div_round_up, Bool-cases, if◌then◌else◌,
}
use external_minigbm.Drm.{drm_format_yvu420, drm_format_nv12, drm_format_yvu420_android}
use external_minigbm.Layout.{
  PlanarLayout, one_of, layout_from_format, packed_stride, drv_size_from_format,
  drv_num_planes_from_format, drv_height_from_format,
}
use external_minigbm.Layout.Valid.{
  planes_bounds, packed_stride_lem, layout_of_plane_lem, layout_from_format-PlaneIsValid,
  stride_from_format_lem,
}
use external_minigbm.Bo.{BoMetadata, no_planes}
use external_minigbm.Planes.{forced_align, drv_bo_from_format}
use external_minigbm.Planes.Contiguous.{HasArrays, Chain-end_small}
use external_minigbm.Planes.LaidOut.{LaidOut, from_format_contiguous}
use external_minigbm.Mediatek.{
  is_video_yuv_format, use_nv12_for_hw_video_decoding, Platform, support_yuv422,
}
use external_minigbm.Mediatek.Padding.{padding_returns}
use external_minigbm.Mediatek.Create.{
  grown_size, pad_yvu420, stride_alignment, pads, padded_layout, plain_layout, mediatek_layout,
}
use external_minigbm.Mediatek.Shaped.{
  row_bytes, over_read, PlainLines, Shaped, padded, plain, enlarged,
}

module _ (p : Platform) (metadata : BoMetadata) (width height format : ℕ) {layout : PlanarLayout}
    (known : layout_from_format format ≡ some layout) (room : HasArrays metadata)
    (other : format ≢ drm_format_yvu420_android)
    (planes : metadata.num_planes ≡ layout.num_planes) where
  -- The least stride of the platform's alignment that holds a row, and planes one behind the other with
  -- the lines and the padding of this use; the use flags stay.
  pub record Planned (after : BoMetadata) : Type 0 where
    pub stride : ℕ
    pub lines : ℕ
    pub padding : List ℕ
    pub base : BoMetadata
    pub aligned : stride % stride_alignment p format ≡ 0
    pub aligned_16 : stride % 16 ≡ 0
    pub holds_row : row_bytes layout width ≤ stride
    pub least : stride < row_bytes layout width + stride_alignment p format
    pub laid : LaidOut metadata stride 1 lines format padding known room base
    pub shaped : Shaped p metadata.use_flags height format layout stride lines padding base after
    pub uses_kept : after.use_flags ≡ metadata.use_flags

  IsStride : ℕ → Type 0
  IsStride stride =
      (stride % stride_alignment p format ≡ 0)
      × (stride % 16 ≡ 0)
      × (row_bytes layout width ≤ stride)
      × (stride < row_bytes layout width + stride_alignment p format)

  packed_stride-IsStride :
      width ≤ 2 ^ 24 → IsStride (align (packed_stride layout width 0) (stride_alignment p format))
  unfolding stride_alignment IsStride
  packed_stride-IsStride narrow =
      let v =
        layout_from_format-PlaneIsValid format 0 known
          (omega (arith, planes_bounds format known)) in
      let packed = packed_stride_lem layout width 0 v (omega arith) in
      let small = align_bounds (packed_stride layout width 0) align_16 (omega (arith, packed)) in
      let large = align_bounds (packed_stride layout width 0) align_64 (omega (arith, packed)) in
      elim (Bool-cases (not (use_nv12_for_hw_video_decoding p) && is_video_yuv_format p format)) [
        | inl e ↦ rw e (
          omega (arith, packed, small),
          omega (arith, packed, small),
          omega (arith, packed, small),
          omega (arith, packed, small),
        )
        | inr e ↦ rw e (
          omega (arith, packed, large),
          omega (arith, packed, large),
          omega (arith, packed, large),
          omega (arith, packed, large),
        )
      ]

  -- A layout of this stride and shape.
  planned :
      (stride lines : ℕ) (padding : List ℕ) (base after : BoMetadata)
      → IsStride stride
      → LaidOut metadata stride 1 lines format padding known room base
      → Shaped p metadata.use_flags height format layout stride lines padding base after
      → after.use_flags ≡ base.use_flags
      → Planned after
  unfolding IsStride
  planned stride lines padding base after (aligned, aligned_16, holds, least) laid shaped kept =
      record {
        stride = stride;
        lines = lines;
        padding = padding;
        base = base;
        aligned = aligned;
        aligned_16 = aligned_16;
        holds_row = holds;
        least = least;
        laid = laid;
        shaped = shaped;
        uses_kept = kept ∙ ap (λ (m : BoMetadata). m.use_flags) laid.1;
      }

  padded-Planned :
      (stride : ℕ)
      → height ≤ 2 ^ 24
      → pads p metadata.use_flags height format ≡ true
      → IsStride stride
      → Returns Planned (padded_layout p metadata stride height format)
  unfolding padded_layout
  padded-Planned stride low pads_planes is_stride =
      let (padding, e, below) =
        padding_returns stride format known other metadata.num_planes planes in
      let up = align_bounds height align_32 (omega arith) in
      let (base, e', laid) =
        from_format_contiguous metadata stride 1 (align height 32) format padding known room
          other in
      (
        base,
        rw (e, e') refl,
        planned stride (align height 32) padding base base is_stride laid
            (padded (align height 32) padding base pads_planes up below) refl,
      )

  size_small :
      (stride lines : ℕ) (padding : List ℕ) (base : BoMetadata)
      → LaidOut metadata stride 1 lines format padding known room base
      → base.total_size < 2 ^ 32
  size_small stride lines padding base laid =
      Chain-end_small stride (forced_align 1 format) lines format padding
        (drv_num_planes_from_format format) 0 0 base.total_size base (omega arith) laid.0

  three_planes : (format == drm_format_yvu420) ≡ true → layout.num_planes ≡ 3
  unfolding layout_from_format one_of
  three_planes is_yvu = ground (arith, known)

  size_word :
      (stride lines q : ℕ)
      → q < layout.num_planes
      → Returns (λ bytes. bytes < 2 ^ 32) (drv_size_from_format format stride lines q)
  unfolding drv_size_from_format drv_height_from_format
  size_word stride lines q lt = (
    wrap32 (stride * div_round_up lines (get_or layout.vertical_subsampling q 0)),
    rw (layout_of_plane_lem format q known lt) refl,
    omega arith,
  )

  -- 64 bits hold the larger size.
  grown_eq :
      (total vu y u : ℕ)
      → total < 2 ^ 32
      → u < 2 ^ 32
      → grown_size total vu y u ≡ total + u + (if ltb vu y then wrap32 (y + u) else 0)
  unfolding grown_size
  grown_eq total vu y u small less = ground arith

  only_yvu420 :
      over_read p metadata.use_flags height format ≡ true → (format == drm_format_yvu420) ≡ true
  only_yvu420 e = ground (arith, other)

  plain_lines : ℕ
  plain_lines = if support_yuv422 p && format == drm_format_nv12 then align height 16 else height

  plain_lines-PlainLines :
      height ≤ 2 ^ 24 → PlainLines p metadata.use_flags height format layout plain_lines
  unfolding plain_lines
  plain_lines-PlainLines low = elim (Bool-cases (support_yuv422 p && format == drm_format_nv12)) [
    | inl up ↦ rw up (inl (refl, align_bounds height align_16 (omega arith)))
    | inr same ↦ rw same (inr (refl, refl))
  ]

  enlarged-Planned :
      (stride : ℕ) (base : BoMetadata)
      → height ≤ 2 ^ 24
      → pads p metadata.use_flags height format ≡ false
      → IsStride stride
      → LaidOut metadata stride 1 plain_lines format no_planes known room base
      → over_read p metadata.use_flags height format ≡ true
      → Returns Planned (pad_yvu420 base height format)
  unfolding pad_yvu420
  enlarged-Planned stride base low no_pads is_stride laid over =
      let three = three_planes (only_yvu420 over) in
      let (y, e, _) = size_word (get_or base.strides 0 0) (4 - height % 4) 0 (omega arith) in
      let (u, e', less) = size_word (get_or base.strides 2 0) (4 - height % 4) 2 (omega arith) in
      let vu = wrap32 (get_or base.sizes 2 0 * 2) in
      let size =
        grown_eq base.total_size vu y u (size_small stride plain_lines no_planes base laid) less in
      (
        _,
        rw (e, e', size) refl,
        planned stride plain_lines no_planes base _ is_stride laid
            (enlarged plain_lines y u base no_pads (plain_lines-PlainLines low) over e e') refl,
      )

  plain-Planned :
      (stride : ℕ)
      → height ≤ 2 ^ 24
      → pads p metadata.use_flags height format ≡ false
      → IsStride stride
      → Returns Planned (plain_layout p metadata stride height format)
  unfolding plain_layout drv_bo_from_format plain_lines
  plain-Planned stride low no_pads is_stride =
      let (base, e, laid) =
        from_format_contiguous metadata stride 1 plain_lines format no_planes known room other in
      elim (Bool-cases (over_read p metadata.use_flags height format)) [
        | inl over ↦
            let (after, e', grown) = enlarged-Planned stride base low no_pads is_stride laid over in
            (after, rw (e, over, e') refl, grown)
        | inr within ↦ (
          base,
          rw (e, within) refl,
          planned stride plain_lines no_planes base base is_stride laid
              (plain plain_lines base no_pads (plain_lines-PlainLines low) within) refl,
        )
      ]

  -- For a width and a height of at most 2^24, the layout is returned on every platform and for every use.
  pub layout-Planned :
      width ≤ 2 ^ 24
      → height ≤ 2 ^ 24
      → Returns Planned (mediatek_layout p metadata width height format)
  unfolding mediatek_layout
  layout-Planned narrow low =
      let strided =
        stride_from_format_lem format width 0 known (omega (arith, planes_bounds format known))
          other in
      let stride = align (packed_stride layout width 0) (stride_alignment p format) in
      let is_stride = packed_stride-IsStride narrow in
      elim (Bool-cases (pads p metadata.use_flags height format)) [
        | inl is_padded ↦
            let (after, e, is_planned) = padded-Planned stride low is_padded is_stride in
            (after, rw (strided, is_padded, e) refl, is_planned)
        | inr not_padded ↦
            let (after, e, is_planned) = plain-Planned stride low not_padded is_stride in
            (after, rw (strided, not_padded, e) refl, is_planned)
      ]
