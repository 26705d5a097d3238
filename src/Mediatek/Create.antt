-- ===== src/Mediatek/Create.antt =====
-- mediatek.c: the layout of a buffer on each platform, and the object that the kernel or a DMA heap
-- gives for it.
use external_minigbm.Base.{
  ℕ, zero, suc, ◌+◌, ◌-◌, ◌*◌, ◌/◌, ◌%◌, Bool, not, ◌&&◌, ◌||◌, Option, none, some, ◌⊎◌, inl, inr,
  List, [], ◌∷◌, ltb, ◌==◌, if◌then◌else◌, ◌>>=◌, get_or, set, wrap32, wrap64, align, has_flag,
}
use external_minigbm.Drm.{
  drm_format_nv12, drm_format_p010, drm_format_r8, drm_format_yvu420, drm_format_yvu420_android,
  drm_format_mod_linear,
}
use external_minigbm.Flags.{
  bo_use_camera_write, bo_use_hw_video_decoder, bo_use_hw_video_encoder, bo_use_linear,
  bo_use_protected, bo_use_scanout, bo_use_texture,
}
use external_minigbm.Errors.{einval}
use external_minigbm.Layout.{
  drv_stride_from_format, drv_size_from_format, drv_vertical_subsampling_from_format,
}
use external_minigbm.Bo.{BoMetadata, Bo, no_planes}
use external_minigbm.Planes.{drv_bo_from_format, drv_bo_from_format_and_padding}
use external_minigbm.Modifiers.{drv_has_modifier}
use external_minigbm.Mediatek.{
  Platform, is_mt8173, support_yuv422, use_nv12_for_hw_video_decoding, use_extra_padding_for_yvu420,
  is_video_yuv_format,
}

-- The padding of the planes `p` to `p + n - 1`: 32 lines, subsampled.
module _ (stride format : ℕ) where
  unfoldable pub encoder_padding : ℕ → ℕ → List ℕ → Option (List ℕ)
  unfolding drv_stride_from_format drv_vertical_subsampling_from_format
  encoder_padding zero p padding = some padding
  encoder_padding (suc n) p padding = do
    plane_stride ← drv_stride_from_format format stride p
    subsampling ← drv_vertical_subsampling_from_format format p
    encoder_padding n (p + 1) (set padding p (wrap32 (plane_stride * (32 / subsampling))))

-- The size with the padding of YVU420: of the U plane, and of all planes where the Y plane's does not
-- fit into the others.
unfoldable pub grown_size : ℕ → ℕ → ℕ → ℕ → ℕ
grown_size total_size vu_size y_padding u_padding =
    let more = if ltb vu_size y_padding then wrap32 (y_padding + u_padding) else 0 in
    wrap64 (wrap64 (total_size + u_padding) + more)

-- Where MT8186's texture unit reads past the end of a YVU420 image, the object grows.
unfoldable pub pad_yvu420 : BoMetadata → ℕ → ℕ → Option BoMetadata
unfolding drv_size_from_format grown_size
pad_yvu420 metadata height format = do
  let height_padding = 4 - height % 4
  y_padding ← drv_size_from_format format (get_or metadata.strides 0 0) height_padding 0
  u_padding ← drv_size_from_format format (get_or metadata.strides 2 0) height_padding 2
  let vu_size = wrap32 (get_or metadata.sizes 2 0 * 2)
  some (record metadata { total_size = grown_size metadata.total_size vu_size y_padding u_padding })

unfoldable pub stride_alignment : Platform → ℕ → ℕ
unfolding use_nv12_for_hw_video_decoding is_video_yuv_format
stride_alignment p format =
    if not (use_nv12_for_hw_video_decoding p) && is_video_yuv_format p format then 16 else 64

-- Whether the video encoder or the camera's preview asks for padded planes.
unfoldable pub pads : Platform → ℕ → ℕ → ℕ → Bool
unfolding is_mt8173
pads p use_flags height format =
    has_flag use_flags bo_use_hw_video_encoder
      && not (is_mt8173 p && has_flag use_flags bo_use_hw_video_decoder)
      && not (format == drm_format_r8 && height == 1)
    || has_flag use_flags bo_use_scanout && has_flag use_flags bo_use_camera_write

-- The part of `mediatek_bo_create_with_modifiers` that lays the planes out.
module _ (p : Platform) (metadata : BoMetadata) where
  unfoldable pub padded_layout : ℕ → ℕ → ℕ → Option BoMetadata
  unfolding encoder_padding drv_bo_from_format_and_padding align
  padded_layout stride height format = do
    padding ← encoder_padding stride format metadata.num_planes 0 no_planes
    drv_bo_from_format_and_padding metadata stride 1 (align height 32) format padding

  unfoldable pub plain_layout : ℕ → ℕ → ℕ → Option BoMetadata
  unfolding support_yuv422 use_extra_padding_for_yvu420 drv_bo_from_format pad_yvu420 align
  plain_layout stride height format = do
    let lines = if support_yuv422 p && format == drm_format_nv12 then align height 16 else height
    laid ← drv_bo_from_format metadata stride 1 lines format
    let yv12 = format == drm_format_yvu420 || format == drm_format_yvu420_android
    let sampled = has_flag metadata.use_flags bo_use_texture
    let grown = pad_yvu420 laid height format
    (if use_extra_padding_for_yvu420 p && yv12 && sampled && not (height % 4 == 0)
        then grown
        else some laid)

  unfoldable pub mediatek_layout : ℕ → ℕ → ℕ → Option BoMetadata
  unfolding drv_stride_from_format stride_alignment pads padded_layout plain_layout align
  mediatek_layout width height format = do
    unaligned ← drv_stride_from_format format width 0
    let stride = align unaligned (stride_alignment p format)
    (if pads p metadata.use_flags height format
        then padded_layout stride height format
        else plain_layout stride height format)

-- Ten of sixteen bits for a protected P010 buffer.
unfoldable pub pack_p010 : BoMetadata → BoMetadata
pack_p010 m =
    let packed = λ (x : ℕ). wrap32 (x * 10) / 16 in
    let sizes = set (set m.sizes 0 (packed (get_or m.sizes 0 0))) 1 (packed (get_or m.sizes 1 0)) in
    record m {
      strides =
          set (set m.strides 0 (packed (get_or m.strides 0 0))) 1 (packed (get_or m.strides 1 0));
      sizes = sizes;
      offsets = set m.offsets 1 (get_or sizes 0 0);
      total_size = wrap64 (m.total_size * 10) / 16;
    }

-- What is answered: by `open` of the DMA heap, by DMA_HEAP_IOCTL_ALLOC for a size, by
-- drmPrimeFDToHandle for a file descriptor, and by DRM_IOCTL_MTK_GEM_CREATE for a size and whether it
-- may be of single pages.
pub record ObjectAnswers : Type 0 where
  pub open_heap : ℕ ⊎ ℕ
  pub heap_alloc : ℕ → ℕ ⊎ ℕ
  pub prime_fd_to_handle : ℕ → ℕ ⊎ ℕ
  pub gem_create : ℕ → Bool → ℕ ⊎ ℕ

-- `dma_heap_fd` of the driver, `none` for -1, which is opened on the first use.
unfoldable pub heap_fd : ObjectAnswers → Option ℕ → ℕ ⊎ ℕ
heap_fd answers (some fd) = inr fd
heap_fd answers none = answers.open_heap

-- A handle for `length` bytes of the DMA heap.
unfoldable pub heap_object : ObjectAnswers → ℕ → ℕ ⊎ ℕ
heap_object answers length = elim (answers.heap_alloc length) [
  | inl errno ↦ inl errno
  | inr fd ↦ answers.prime_fd_to_handle fd
]

abbrev pub handle_of : Bo → BoMetadata → ℕ ⊎ ℕ → ℕ ⊎ Bo
handle_of bo metadata (inl errno) = inl errno
handle_of bo metadata (inr handle) = inr (record bo { metadata = metadata; handle = handle })

-- The part that allocates the buffer: `has_heap` is whether the build has DMA heaps, and the heap's
-- file descriptor stands before and after.
unfoldable pub mediatek_allocate :
    Bool → ObjectAnswers → Option ℕ → Bo → BoMetadata → ℕ → Option ℕ × (ℕ ⊎ Bo)
unfolding heap_fd heap_object pack_p010
mediatek_allocate has_heap answers dma_heap bo laid format =
    let use_flags = laid.use_flags in
    let final = if format == drm_format_p010 then pack_p010 laid else laid in
    if has_flag use_flags bo_use_protected
    then (if not has_heap then (dma_heap, inl 1) else elim (heap_fd answers dma_heap) [
      | inl errno ↦ (none, inl errno)
      | inr fd ↦ (some fd, handle_of bo final (heap_object answers laid.total_size))
    ])
    else (
      dma_heap,
      handle_of bo laid (
          answers.gem_create laid.total_size
            (has_flag use_flags bo_use_linear && has_flag use_flags bo_use_scanout)),
    )

unfoldable pub mediatek_bo_create_with_modifiers :
    Platform
    → Bool
    → ObjectAnswers
    → Option ℕ
    → Bo
    → ℕ
    → ℕ
    → ℕ
    → List ℕ
    → Option (Option ℕ × (ℕ ⊎ Bo))
unfolding drv_has_modifier mediatek_layout mediatek_allocate
mediatek_bo_create_with_modifiers p has_heap answers dma_heap bo width height format modifiers =
    if not (drv_has_modifier modifiers drm_format_mod_linear)
    then some (dma_heap, inl einval)
    else (do
      laid ← mediatek_layout p bo.metadata width height format
      some (mediatek_allocate has_heap answers dma_heap bo laid format))

unfoldable pub mediatek_bo_create :
    Platform → Bool → ObjectAnswers → Option ℕ → Bo → ℕ → ℕ → ℕ → Option (Option ℕ × (ℕ ⊎ Bo))
unfolding mediatek_bo_create_with_modifiers
mediatek_bo_create p has_heap answers dma_heap bo width height format =
    mediatek_bo_create_with_modifiers p has_heap answers dma_heap bo width height format
      (drm_format_mod_linear ∷ [])
