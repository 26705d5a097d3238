-- ===== src/Planes/Android.antt =====
-- Android's YV12: the assertions of `drv_bo_from_format_and_padding`, and the strides that
-- system/graphics.h asks for.
use external_minigbm.Base.{
  ℕ, zero, suc, ◌+◌, ◌*◌, ◌/◌, ◌%◌, ◌^◌, ◌≤◌, ◌<◌, ◌≡◌, ◌≢◌, refl, sym, ◌∙◌, some, List, arith,
  get_or, Returns, Total, ◌==◌, align, div_round_up, align_mask, ==_ne, ==_refl, true,
}
use external_minigbm.Drm.{drm_format_yvu420_android}
use external_minigbm.Layout.{
  layout_from_format, one_of, drv_num_planes_from_format, triplanar_yuv_420_layout,
}
use external_minigbm.Bo.{BoMetadata}
use external_minigbm.Planes.{subsample_stride, forced_align, drv_bo_from_format_and_padding}
use external_minigbm.Planes.Contiguous.{HasArrays, Chain}
use external_minigbm.Planes.LaidOut.{from_format-LaidOut}

align_16_eq : (x : ℕ) → x ≤ 2 ^ 31 + 16 → align x 16 ≡ (x + 15) / 16 * 16
align_16_eq x h = omega (arith, align_mask 28 4 x refl)

some_injective : {a b : ℕ} → some a ≡ some b → a ≡ b
some_injective e = cc

halve : (stride : ℕ) → stride ≤ 2 ^ 31 → stride % 2 ≡ 0 → div_round_up stride 2 ≡ stride / 2
unfolding div_round_up
halve stride h even = omega arith

luma_stride :
    (stride : ℕ)
    → stride ≤ 2 ^ 31
    → subsample_stride stride 16 drm_format_yvu420_android 0 ≡ some (align stride 16)
unfolding subsample_stride
luma_stride stride h =
    let e = align_16_eq stride (omega arith) in
    let fits : (align stride 16 % 16 == 0) ≡ true = ground arith in rw fits

chroma_stride :
    (stride q : ℕ)
    → stride ≤ 2 ^ 31
    → stride % 2 ≡ 0
    → q ≢ 0
    → subsample_stride stride 16 drm_format_yvu420_android q ≡ some (align (stride / 2) 16)
unfolding subsample_stride
chroma_stride stride q h even ne =
    let half : div_round_up stride 2 ≡ stride / 2 = halve stride h even in
    let same : (align (stride / 2) 16 == align (stride / 2) 16) ≡ true = ==_refl _ in
    rw (==_ne q 0 ne, half, same)

android_known : layout_from_format drm_format_yvu420_android ≡ some triplanar_yuv_420_layout
unfolding layout_from_format one_of
android_known = refl

android_planes : drv_num_planes_from_format drm_format_yvu420_android ≡ 3
unfolding drv_num_planes_from_format one_of
android_planes = refl

forced_16 :
    (stride_align : ℕ) → stride_align ≤ 1 → forced_align stride_align drm_format_yvu420_android ≡ 16
unfolding forced_align
forced_16 stride_align h = ground arith

strides_return :
    (stride : ℕ)
    → stride ≤ 2 ^ 31
    → stride % 2 ≡ 0
    → (q : ℕ) → q < 3
    → Total (subsample_stride stride 16 drm_format_yvu420_android q)
strides_return stride h even zero lt = (_, luma_stride stride h)
strides_return stride h even (suc q) lt = (_, chroma_stride stride (suc q) h even (omega arith))

abbrev pub AndroidStrides : ℕ → BoMetadata → Type 0
AndroidStrides stride after =
    (get_or after.strides 0 0 % 16 ≡ 0)
    × (stride ≤ get_or after.strides 0 0)
    × (get_or after.strides 1 0 ≡ align (get_or after.strides 0 0 / 2) 16)
    × (get_or after.strides 2 0 ≡ get_or after.strides 1 0)

Chain-AndroidStrides :
    (stride aligned_height end : ℕ) (padding : List ℕ) (after : BoMetadata)
    → stride ≤ 2 ^ 31
    → stride % 2 ≡ 0
    → Chain stride 16 aligned_height drm_format_yvu420_android padding 3 0 0 end after
    → AndroidStrides stride after
Chain-AndroidStrides stride aligned_height end padding after h even (first, (second, (third, _))) =
    let luma : get_or after.strides 0 0 ≡ align stride 16 =
      some_injective (sym first.strided ∙ luma_stride stride h) in
    let blue : get_or after.strides 1 0 ≡ align (stride / 2) 16 =
      some_injective (sym second.strided ∙ chroma_stride stride 1 h even (omega arith)) in
    let red : get_or after.strides 2 0 ≡ align (stride / 2) 16 =
      some_injective (sym third.strided ∙ chroma_stride stride 2 h even (omega arith)) in
    let e = align_16_eq stride (omega arith) in
    let e' = align_16_eq (stride / 2) (omega arith) in
    let e'' = align_16_eq (align stride 16 / 2) (omega arith) in
    rw (luma, blue, red) (omega arith, omega arith, omega arith, refl)

-- Android's YV12, for metadata with arrays of four entries, with an even stride of at most 2^31, no alignment asked for and the buffer's own height: the
-- assertions of the source hold, so the layout is returned; the luma stride is a multiple of 16 that
-- is no shorter, and both chroma strides are half the luma stride, rounded up to a multiple of 16.
pub android_layout :
    (metadata : BoMetadata) (stride stride_align aligned_height : ℕ) (padding : List ℕ)
    → HasArrays metadata
    → aligned_height ≡ metadata.height
    → stride_align ≤ 1
    → stride % 2 ≡ 0
    → stride ≤ 2 ^ 31
    → Returns (AndroidStrides stride) (
        drv_bo_from_format_and_padding metadata stride stride_align aligned_height
          drm_format_yvu420_android padding)
android_layout metadata stride stride_align aligned_height padding room height free even small =
    let (after, e, laid) =
      from_format-LaidOut metadata stride stride_align aligned_height drm_format_yvu420_android
        padding android_known room (λ _. height)
        (rw (forced_16 stride_align free) (strides_return stride small even)) in
    (
      after,
      e,
      Chain-AndroidStrides stride aligned_height after.total_size padding after small even
          (rw (android_planes, forced_16 stride_align free) at laid.0),
    )
