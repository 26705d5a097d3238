-- ===== src/Mediatek/Offered.antt =====
-- What a flexible YCbCr request is resolved to is in the table of the platform.
use external_minigbm.Base.{
  ℕ, ◌-◌, ◌^◌, ◌≡◌, ◌≢◌, refl, ap, true, false, ◌⊎◌, inl, inr, [], ◌∷◌, arith, bit_and, bit_or,
  bit_and_both, bit_and_without, has_flag, some, Bool-cases,
}
use external_minigbm.Drm.{drm_format_nv12, drm_format_yvu420, drm_format_flex_ycbcr_420_888}
use external_minigbm.Flags.{
  any_of, bo_use_none, bo_use_texture_mask, bo_use_protected, bo_use_scanout,
  bo_use_hw_video_decoder, bo_use_hw_video_encoder, bo_use_camera_read, bo_use_camera_write,
}
use external_minigbm.Resolve.{clear_flags}
use external_minigbm.Combinations.{Combination, supports, drv_get_combination}
use external_minigbm.Combinations.Offers.{offers, get_combination-offered}
use external_minigbm.Mediatek.{
  Platform, mt8173, mt8183, mt8186, mt8188g, mt8192, mt8195, mt8196, unnamed, is_mt8173,
  use_nv12_for_hw_video_decoding, mediatek_init, resolve_ycbcr_420_888,
  mediatek_resolve_format_and_use_flags, is_video_yuv_format,
}

abbrev camera : ℕ
camera = bit_or bo_use_camera_read bo_use_camera_write

abbrev encoded : ℕ
encoded = bit_or camera bo_use_hw_video_encoder

-- Sampling, software, protected memory and the display.
abbrev plain : ℕ
plain = any_of (bo_use_texture_mask ∷ bo_use_protected ∷ bo_use_scanout ∷ [])

-- The uses that a flexible YCbCr request may have: those above, the camera, the video decoder and the
-- video encoder, without the camera on MT8173 and without the decoder on an unnamed platform.
abbrev pub offered_uses : Platform → ℕ
offered_uses mt8173 = any_of (plain ∷ bo_use_hw_video_decoder ∷ bo_use_hw_video_encoder ∷ [])
offered_uses unnamed = any_of (plain ∷ camera ∷ bo_use_hw_video_encoder ∷ [])
offered_uses p = any_of (plain ∷ bo_use_hw_video_decoder ∷ camera ∷ bo_use_hw_video_encoder ∷ [])

-- Those that come with NV12, and those that come with YVU420.
abbrev nv12_uses : Platform → ℕ
nv12_uses mt8173 = any_of (plain ∷ bo_use_hw_video_encoder ∷ [])
nv12_uses p = offered_uses p

abbrev yvu_uses : Platform → ℕ
yvu_uses mt8173 = offered_uses mt8173
yvu_uses unnamed = plain
yvu_uses p = any_of (plain ∷ bo_use_hw_video_decoder ∷ [])

nv12_in_table : (p : Platform) → offers drm_format_nv12 (nv12_uses p) (mediatek_init p []) ≡ true
unfolding mediatek_init
nv12_in_table mt8173 = refl
nv12_in_table mt8183 = refl
nv12_in_table mt8186 = refl
nv12_in_table mt8188g = refl
nv12_in_table mt8192 = refl
nv12_in_table mt8195 = refl
nv12_in_table mt8196 = refl
nv12_in_table unnamed = refl

yvu_in_table :
    (p : Platform)
    → offers drm_format_yvu420
        (bit_and (yvu_uses p) (2 ^ 64 - 1 - bo_use_scanout))
        (mediatek_init p [])
      ≡ true
unfolding mediatek_init
yvu_in_table mt8173 = refl
yvu_in_table mt8183 = refl
yvu_in_table mt8186 = refl
yvu_in_table mt8188g = refl
yvu_in_table mt8192 = refl
yvu_in_table mt8195 = refl
yvu_in_table mt8196 = refl
yvu_in_table unnamed = refl

-- NV12 with the flags as they are, or YVU420 without the display.
abbrev Resolved : Platform → ℕ → ℕ × ℕ → Type 0
Resolved p use_flags r =
    ((r ≡ (drm_format_nv12, use_flags)) × (bit_and (nv12_uses p) use_flags ≡ use_flags))
    ⊎ ((r ≡ (drm_format_yvu420, clear_flags use_flags bo_use_scanout))
        × (bit_and (yvu_uses p) use_flags ≡ use_flags))

-- Without the camera and the encoder.
not_encoded :
    (m use_flags : ℕ)
    → bit_and (bit_or m encoded) use_flags ≡ use_flags
    → has_flag use_flags encoded ≡ false
    → bit_and m use_flags ≡ use_flags
not_encoded m use_flags inside apart =
    bit_and_without use_flags m encoded inside (ground (arith, apart))

branch_newer :
    (p : Platform) (use_flags : ℕ)
    → use_nv12_for_hw_video_decoding p ≡ true
    → is_mt8173 p ≡ false
    → bit_and (offered_uses mt8183) use_flags ≡ use_flags
    → Resolved mt8183 use_flags (resolve_ycbcr_420_888 p use_flags)
unfolding resolve_ycbcr_420_888
branch_newer p use_flags newer other inside =
    elim (Bool-cases (has_flag use_flags bo_use_hw_video_decoder)) [
      | inl decodes ↦ inl (rw (newer, decodes) refl, inside)
      | inr not_decoded ↦ elim (Bool-cases (has_flag use_flags encoded)) [
        | inl uses ↦ inl (rw (newer, other, not_decoded, uses) refl, inside)
        | inr no_use ↦ inr (
          rw (newer, not_decoded, no_use) refl,
          not_encoded (yvu_uses mt8183) use_flags inside no_use,
        )
      ]
    ]

branch :
    (p : Platform) (use_flags : ℕ)
    → bit_and (offered_uses p) use_flags ≡ use_flags
    → Resolved p use_flags (resolve_ycbcr_420_888 p use_flags)
unfolding resolve_ycbcr_420_888 use_nv12_for_hw_video_decoding is_mt8173
branch mt8173 use_flags inside = elim (Bool-cases (has_flag use_flags bo_use_hw_video_decoder)) [
  | inl decodes ↦ inr (rw decodes (ground arith), inside)
  | inr not_decoded ↦ elim (Bool-cases (has_flag use_flags encoded)) [
    | inl uses ↦ inl (
      rw (uses, not_decoded) refl,
      bit_and_without use_flags (nv12_uses mt8173) bo_use_hw_video_decoder inside
          (ground (arith, not_decoded)),
    )
    | inr no_use ↦ inr (rw no_use refl, inside)
  ]
]
branch mt8183 use_flags inside = branch_newer mt8183 use_flags refl refl inside
branch mt8186 use_flags inside = branch_newer mt8186 use_flags refl refl inside
branch mt8188g use_flags inside = branch_newer mt8188g use_flags refl refl inside
branch mt8192 use_flags inside = branch_newer mt8192 use_flags refl refl inside
branch mt8195 use_flags inside = branch_newer mt8195 use_flags refl refl inside
branch mt8196 use_flags inside = branch_newer mt8196 use_flags refl refl inside
branch unnamed use_flags inside = elim (Bool-cases (has_flag use_flags encoded)) [
  | inl uses ↦ inl (rw uses refl, inside)
  | inr no_use ↦ inr (rw no_use refl, not_encoded plain use_flags inside no_use)
]

-- A combination is found for the resolved request, and it has all of its uses.
abbrev pub Offered : Platform → ℕ × ℕ → Type 0
Offered p r =
    (c : Combination) × (drv_get_combination (mediatek_init p []) r.0 r.1 ≡ some c)
    × (supports r.0 r.1 c ≡ true)

branch-Offered :
    (p : Platform) (use_flags : ℕ) (r : ℕ × ℕ)
    → use_flags ≢ bo_use_none
    → clear_flags use_flags bo_use_scanout ≢ bo_use_none
    → Resolved p use_flags r
    → Offered p r
unfolding clear_flags
branch-Offered p use_flags r used shown (inl (e, inside)) = rw e (
    get_combination-offered drm_format_nv12 (nv12_uses p) (mediatek_init p []) use_flags
      (nv12_in_table p) inside (omega arith) used)
branch-Offered p use_flags r used shown (inr (e, inside)) = rw e (
    get_combination-offered drm_format_yvu420 (bit_and (yvu_uses p) (2 ^ 64 - 1 - bo_use_scanout))
      (mediatek_init p []) (clear_flags use_flags bo_use_scanout) (yvu_in_table p)
      (bit_and_both use_flags (yvu_uses p) (2 ^ 64 - 1 - bo_use_scanout) inside) (omega arith)
      shown)

not_video : (p : Platform) → is_video_yuv_format p drm_format_flex_ycbcr_420_888 ≡ false
unfolding is_video_yuv_format
not_video mt8173 = refl
not_video mt8183 = refl
not_video mt8186 = refl
not_video mt8188g = refl
not_video mt8192 = refl
not_video mt8195 = refl
not_video mt8196 = refl
not_video unnamed = refl

resolve_eq :
    (p : Platform) (use_flags : ℕ)
    → mediatek_resolve_format_and_use_flags p drm_format_flex_ycbcr_420_888 use_flags
      ≡ resolve_ycbcr_420_888 p use_flags
unfolding mediatek_resolve_format_and_use_flags
resolve_eq p use_flags = rw (not_video p) refl

cleared :
    (use_flags : ℕ) → use_flags ≡ bo_use_none → clear_flags use_flags bo_use_scanout ≡ bo_use_none
unfolding clear_flags
cleared use_flags e = ap (λ (t : ℕ). bit_and t (2 ^ 64 - 1 - bo_use_scanout)) e

-- On every platform, a request for the flexible YCbCr format with some of the uses of `offered_uses`,
-- at least one of them other than the display, is resolved to a format and uses for which
-- drv_get_combination finds a combination in the table of mediatek_init.
pub flexible-Offered :
    (p : Platform) (use_flags : ℕ)
    → bit_and (offered_uses p) use_flags ≡ use_flags
    → clear_flags use_flags bo_use_scanout ≢ bo_use_none
    → Offered p (mediatek_resolve_format_and_use_flags p drm_format_flex_ycbcr_420_888 use_flags)
flexible-Offered p use_flags inside shown = rw (resolve_eq p use_flags) (
    branch-Offered p use_flags (resolve_ycbcr_420_888 p use_flags)
      (λ e. shown (cleared use_flags e)) shown (branch p use_flags inside))
