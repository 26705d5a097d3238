-- ===== src/Msm/Venus.antt =====
-- The two planes of NV12 and P010 for the video unit.
use external_minigbm.Base.{
  ℕ, ◌+◌, ◌-◌, ◌*◌, ◌%◌, ◌^◌, ◌≤◌, ◌<◌, ◌≡◌, refl, true, ◌||◌, ◌∙◌, length-set, ◌⊎◌, inl, inr, List,
  length, get_or, set, arith, ◌==◌, if◌then◌else◌, wrap32, sub32, align, div_round_up, align_bounds,
  align_128, align_4096, align_256, get_or-set_self, get_or-set_ne, Returns,
}
use external_minigbm.Drm.{drm_format_nv12, drm_format_p010}
use external_minigbm.Bo.{BoMetadata}
use external_minigbm.Planes.Contiguous.{HasArrays}
use external_minigbm.Msm.{
  get_pitch_alignment, VenusSizes, venus_sizes, venus_layout, msm_calculate_layout,
}
use external_minigbm.Msm.Sizes.{SizesFit, venus_sizes-SizesFit}

-- The bytes of a row of `width` pixels.
abbrev pub row_bytes : BoMetadata → ℕ
row_bytes metadata =
    if metadata.format == drm_format_p010 then metadata.width * 2 else metadata.width

-- Rows of the pitch, both planes in the object one behind the other, and whole pages.
pub record IsVenus (before after : BoMetadata) : Type 0 where
  pub row : row_bytes before ≤ get_or after.strides 0 0
  pub same_stride : get_or after.strides 1 0 ≡ get_or after.strides 0 0
  pub aligned : get_or after.strides 0 0 % 128 ≡ 0
  pub luma : get_or after.strides 0 0 * before.height ≤ get_or after.sizes 0 0
  pub chroma : get_or after.strides 1 0 * div_round_up before.height 2 ≤ get_or after.sizes 1 0
  pub adjacent : get_or after.offsets 1 0 ≡ get_or after.sizes 0 0
  pub whole : get_or after.sizes 0 0 + get_or after.sizes 1 0 ≡ after.total_size
  pub pages : after.total_size % 4096 ≡ 0

pitch_alignment :
    (format : ℕ)
    → (format ≡ drm_format_nv12) ⊎ (format ≡ drm_format_p010)
    → (get_pitch_alignment format ≡ 128) ⊎ (get_pitch_alignment format ≡ 256)
unfolding get_pitch_alignment
pitch_alignment format f = ground arith

-- The pitch holds a row of `width` bytes.
pitch_lem :
    (width format : ℕ)
    → width ≤ 2 ^ 15
    → (get_pitch_alignment format ≡ 128) ⊎ (get_pitch_alignment format ≡ 256)
    → (width ≤ align width (get_pitch_alignment format))
      × (align width (get_pitch_alignment format) ≤ 33024)
      × (align width (get_pitch_alignment format) % 128 ≡ 0)
pitch_lem width format narrow (inl e) =
    let b = align_bounds width align_128 (omega arith) in rw e (b.0, omega (arith, b), b.2)
pitch_lem width format narrow (inr e) =
    let b = align_bounds width align_256 (omega arith) in
    rw e (b.0, omega (arith, b), omega (arith, b))

two_set-first : (xs : List ℕ) (a b : ℕ) → 2 ≤ length xs → get_or (set (set xs 0 a) 1 b) 0 0 ≡ a
two_set-first xs a b room =
    get_or-set_ne (set xs 0 a) 1 0 b 0 (omega arith) ∙ get_or-set_self xs 0 a 0 (omega arith)

two_set-second : (xs : List ℕ) (a b : ℕ) → 2 ≤ length xs → get_or (set (set xs 0 a) 1 b) 1 0 ≡ b
two_set-second xs a b room = get_or-set_self (set xs 0 a) 1 b 0 (omega (arith, length-set xs 0 a))

-- What `venus_layout` writes, for a stride, sizes and a total size that fit.
written-IsVenus :
    (metadata : BoMetadata) (stride total : ℕ) (sizes : VenusSizes)
    → HasArrays metadata
    → row_bytes metadata ≤ stride
    → stride % 128 ≡ 0
    → SizesFit metadata.height stride sizes
    → total % 4096 ≡ 0
    → sizes.y_plane + sizes.uv_plane ≤ total
    → total < 2 ^ 32
    → IsVenus metadata (record metadata {
      strides = set (set metadata.strides 0 stride) 1 stride;
      offsets = set metadata.offsets 1 sizes.y_plane;
      sizes = set (set metadata.sizes 0 sizes.y_plane) 1 (sub32 total sizes.y_plane);
      total_size = total;
    })
written-IsVenus metadata stride total sizes room wide aligned fit pages both small =
    let s₀ : get_or (set (set metadata.strides 0 stride) 1 stride) 0 0 ≡ stride =
      two_set-first metadata.strides stride stride (omega (arith, room.strides_room)) in
    let s₁ : get_or (set (set metadata.strides 0 stride) 1 stride) 1 0 ≡ stride =
      two_set-second metadata.strides stride stride (omega (arith, room.strides_room)) in
    let second = sub32 total sizes.y_plane in
    let z₀ : get_or (set (set metadata.sizes 0 sizes.y_plane) 1 second) 0 0 ≡ sizes.y_plane =
      two_set-first metadata.sizes sizes.y_plane second (omega (arith, room.sizes_room)) in
    let z₁ : get_or (set (set metadata.sizes 0 sizes.y_plane) 1 second) 1 0 ≡ second =
      two_set-second metadata.sizes sizes.y_plane second (omega (arith, room.sizes_room)) in
    let rest : second ≡ total - sizes.y_plane = omega arith in
    let o : get_or (set metadata.offsets 1 sizes.y_plane) 1 0 ≡ sizes.y_plane =
      get_or-set_self metadata.offsets 1 sizes.y_plane 0 (omega (arith, room.offsets_room)) in
    record {
      row = omega (arith, s₀, wide);
      same_stride = omega (arith, s₀, s₁);
      aligned = rw s₀ aligned;
      luma = rw (s₀, z₀) fit.luma;
      chroma = rw (s₁, z₁) (omega (arith, fit.chroma, rest));
      adjacent = omega (arith, o, z₀);
      whole = omega (arith, z₀, z₁, rest);
      pages = pages;
    }

-- For metadata with arrays of four entries, NV12 or P010 of at most 2^14 pixels in each direction:
-- msm_calculate_layout returns, compressed or not; the stride holds a row of pixels and is a multiple
-- of 128, each plane has room for its rows, the second plane begins where the first one ends and ends
-- with the object, and the object is a whole number of pages.
pub calculate_layout-IsVenus :
    (metadata : BoMetadata)
    → HasArrays metadata
    → (metadata.format ≡ drm_format_nv12) ⊎ (metadata.format ≡ drm_format_p010)
    → metadata.width ≤ 2 ^ 14
    → metadata.height ≤ 2 ^ 14
    → Returns (IsVenus metadata) (msm_calculate_layout metadata)
unfolding msm_calculate_layout venus_layout
calculate_layout-IsVenus metadata room f narrow short =
    let here : (metadata.format == drm_format_nv12 || metadata.format == drm_format_p010) ≡ true =
      ground arith in
    let width =
      if metadata.format == drm_format_p010 then wrap32 (metadata.width * 2) else metadata.width in
    let bytes : width ≡ row_bytes metadata = ground arith in
    let small : width ≤ 2 ^ 15 = ground arith in
    let pitch = pitch_lem width metadata.format small (pitch_alignment metadata.format f) in
    let stride = align width (get_pitch_alignment metadata.format) in
    let fit =
      venus_sizes-SizesFit metadata.tiling width metadata.height stride small short pitch.1 in
    let sizes = venus_sizes metadata.tiling width metadata.height stride in
    let end =
      align_bounds (wrap32 (sizes.y_plane + sizes.uv_plane + sizes.extra_padding)) align_4096
        (omega (arith, fit.small)) in
    (
      venus_layout metadata,
      rw here refl,
      written-IsVenus metadata stride
          (align (wrap32 (sizes.y_plane + sizes.uv_plane + sizes.extra_padding)) 4096) sizes room
          (omega (arith, pitch, bytes)) pitch.2 fit end.2 (omega (arith, end, fit.small))
          (omega (arith, end, fit.small)),
    )
