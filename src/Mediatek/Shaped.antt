-- ===== src/Mediatek/Shaped.antt =====
-- The lines, the padding and the size that each platform and use ask for.
use external_minigbm.Base.{
  ℕ, ◌+◌, ◌*◌, ◌%◌, ◌≤◌, ◌<◌, ◌≡◌, Bool, true, false, ◌⊎◌, not, ◌&&◌, ◌||◌, some, List, ◌==◌,
  get_or, wrap32, ◌-◌, ltb, div_round_up, if◌then◌else◌, has_flag,
}
use external_minigbm.Drm.{drm_format_yvu420, drm_format_nv12, drm_format_yvu420_android}
use external_minigbm.Flags.{bo_use_texture}
use external_minigbm.Layout.{PlanarLayout, drv_size_from_format}
use external_minigbm.Bo.{BoMetadata, no_planes}
use external_minigbm.Mediatek.{Platform, support_yuv422, use_extra_padding_for_yvu420}
use external_minigbm.Mediatek.Padding.{PaddedBelow}
use external_minigbm.Mediatek.Create.{pads}

-- Rounded up to the next multiple of `unit`.
abbrev pub RoundedUp : ℕ → ℕ → ℕ → Type 0
RoundedUp unit height lines = (height ≤ lines) × (lines < height + unit) × (lines % unit ≡ 0)

-- The first plane's row in bytes.
abbrev pub row_bytes : PlanarLayout → ℕ → ℕ
row_bytes layout width =
    div_round_up width (get_or layout.horizontal_subsampling 0 0)
    * get_or layout.bytes_per_pixel 0 0

-- Whether the object grows for the texture unit of MT8186: an image of YVU420 that is sampled and
-- whose lines are not a multiple of 4.
abbrev pub over_read : Platform → ℕ → ℕ → ℕ → Bool
over_read p use_flags height format =
    use_extra_padding_for_yvu420 p
    && (format == drm_format_yvu420 || format == drm_format_yvu420_android)
    && has_flag use_flags bo_use_texture
    && not (height % 4 == 0)

module _ (p : Platform) (use_flags height format : ℕ) (layout : PlanarLayout) where
  -- The lines of NV12 go up to a multiple of 16 where the platform's JPEG encoder takes them.
  abbrev pub PlainLines : ℕ → Type 0
  PlainLines lines =
      (((support_yuv422 p && format == drm_format_nv12) ≡ true) × RoundedUp 16 height lines)
      ⊎ (((support_yuv422 p && format == drm_format_nv12) ≡ false) × (lines ≡ height))

  -- The lines and the padding of planes with this stride, and what `total_size` is after the planes are
  -- laid out as `base`.
  pub data Shaped (stride : ℕ) : ℕ → List ℕ → BoMetadata → BoMetadata → Type 0 where
    padded :
        (lines : ℕ) (padding : List ℕ) (base : BoMetadata)
        → pads p use_flags height format ≡ true
        → RoundedUp 32 height lines
        → PaddedBelow layout stride layout.num_planes padding
        → Shaped stride lines padding base base
    plain :
        (lines : ℕ) (base : BoMetadata)
        → pads p use_flags height format ≡ false
        → PlainLines lines
        → over_read p use_flags height format ≡ false
        → Shaped stride lines no_planes base base
    enlarged :
        (lines y u : ℕ) (base : BoMetadata)
        → pads p use_flags height format ≡ false
        → PlainLines lines
        → over_read p use_flags height format ≡ true
        → drv_size_from_format format (get_or base.strides 0 0) (4 - height % 4) 0 ≡ some y
        → drv_size_from_format format (get_or base.strides 2 0) (4 - height % 4) 2 ≡ some u
        → Shaped stride lines no_planes base (record base {
          total_size =
              base.total_size
              + u
              + (if ltb (wrap32 (get_or base.sizes 2 0 * 2)) y then wrap32 (y + u) else 0);
        })
