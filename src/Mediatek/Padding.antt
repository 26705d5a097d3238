-- ===== src/Mediatek/Padding.antt =====
-- The padding that the video encoder and the camera's preview ask for on each plane.
use external_minigbm.Base.{
  ℕ, zero, suc, ◌+◌, ◌*◌, ◌/◌, ◌<◌, ◌≡◌, ◌≢◌, refl, ◌∙◌, some, inl, inr, List, arith, length, ◌==◌,
  get_or, get_or-set_self, get_or-set_ne, length-set, set, Returns, wrap32, Bool-cases,
}
use external_minigbm.Drm.{drm_format_yvu420_android}
use external_minigbm.Layout.{
  PlanarLayout, layout_from_format, packed_stride, drv_vertical_subsampling_from_format,
}
use external_minigbm.Layout.Valid.{planes_bounds, layout_of_plane_lem, stride_from_format_lem}
use external_minigbm.Bo.{no_planes}
use external_minigbm.Mediatek.Create.{encoder_padding}

-- The bytes of 32 lines of the first plane, in plane `q`.
abbrev pub lines_32 : PlanarLayout → ℕ → ℕ → ℕ
lines_32 layout stride q =
    wrap32 (packed_stride layout stride q * (32 / get_or layout.vertical_subsampling q 0))

-- The planes below `n` have that padding.
abbrev pub PaddedBelow : PlanarLayout → ℕ → ℕ → List ℕ → Type 0
PaddedBelow layout stride n padding =
    (q : ℕ) → q < n → get_or padding q 0 ≡ lines_32 layout stride q

module _ (stride format : ℕ) {layout : PlanarLayout}
    (known : layout_from_format format ≡ some layout)
    (other : format ≢ drm_format_yvu420_android) where
  PaddedBelow-set :
      (q : ℕ) (padding : List ℕ)
      → q < length padding
      → PaddedBelow layout stride q padding
      → PaddedBelow layout stride (q + 1) (set padding q (lines_32 layout stride q))
  PaddedBelow-set q padding room below k lt = elim (Bool-cases (k == q)) [
    | inl same ↦
        let e : k ≡ q = ground (arith, same) in
        rw e (get_or-set_self padding q (lines_32 layout stride q) 0 room)
    | inr differs ↦
        let kept =
          get_or-set_ne padding q k (lines_32 layout stride q) 0
            (λ e. ground (arith, differs, e)) in
        kept ∙ below k (ground (arith, differs, lt))
  ]

  padding_from :
      (n q : ℕ) (padding : List ℕ)
      → q + n ≡ layout.num_planes
      → length padding ≡ 4
      → PaddedBelow layout stride q padding
      → Returns
          (PaddedBelow layout stride layout.num_planes)
          (encoder_padding stride format n q padding)
  unfolding encoder_padding drv_vertical_subsampling_from_format
  padding_from zero q padding at_end room below =
      (padding, refl, λ k lt. below k (omega (arith, at_end, lt)))
  padding_from (suc n) q padding more room below =
      let few = planes_bounds format known in
      let strided = stride_from_format_lem format stride q known (omega arith) other in
      rw (strided, layout_of_plane_lem format q known (omega arith))
        (padding_from n (q + 1) (set padding q (lines_32 layout stride q)) (omega arith)
          (length-set padding q _ ∙ room)
          (PaddedBelow-set q padding (omega (arith, room, few, more)) below))

  -- Every plane is given the bytes of 32 lines.
  pub padding_returns :
      (n : ℕ)
      → n ≡ layout.num_planes
      → Returns
          (PaddedBelow layout stride layout.num_planes)
          (encoder_padding stride format n 0 no_planes)
  padding_returns n all =
      padding_from n 0 no_planes (omega (arith, all)) refl (λ k lt. absurd (omega (arith, lt)))
