-- ===== src/Dumb/Inside.antt =====
-- Planes with the kernel's pitch end inside of the kernel's memory.
use external_minigbm.Base.{
  ℕ, zero, suc, ◌+◌, ◌*◌, ◌^◌, ◌≤◌, ◌<◌, ◌≡◌, ◌≢◌, refl, sym, ◌∙◌, false, ◌&&◌, not, some, ◌==◌,
  arith, get_or, wrap32, align, div_round_up, align_eq, align_1, div_round_up_bounds, ==_ne,
}
use external_minigbm.Drm.{drm_format_yvu420_android, drm_format_yvu420}
use external_minigbm.Layout.{PlanarLayout, layout_from_format, drv_size_from_format}
use external_minigbm.Layout.Valid.{layout_of_plane_lem}
use external_minigbm.Bo.{BoMetadata, no_planes}
use external_minigbm.Planes.{subsample_stride}
use external_minigbm.Planes.Contiguous.{PlaneAt, Chain}
use external_minigbm.Dumb.{DumbRequest, DumbAnswer}
use external_minigbm.Dumb.Asked.{IsHonest, Shape}

some_injective : {a b : ℕ} → some a ≡ some b → a ≡ b
some_injective e = cc

plain_subsample :
    (stride format p : ℕ)
    → format ≢ drm_format_yvu420_android
    → format ≢ drm_format_yvu420
    → stride < 2 ^ 31
    → subsample_stride stride 1 format p ≡ some stride
unfolding subsample_stride
plain_subsample stride format p plain plain' small =
    let same : align stride 1 ≡ stride = align_eq stride align_1 (omega arith) (omega arith) in
    let luma : (not (p == 0) && false) ≡ false = ground arith in
    rw (==_ne format _ plain, ==_ne format _ plain', luma, same) refl

-- A plane at `offset` has the stride of plane 0 and the bytes of its rows.
plane_size :
    (metadata : BoMetadata) (stride height format p offset : ℕ) {layout : PlanarLayout}
    → layout_from_format format ≡ some layout
    → Shape format layout
    → p < layout.num_planes
    → p ≤ 3
    → stride < 2 ^ 31
    → PlaneAt stride 1 height format no_planes metadata p offset
    → (get_or metadata.strides p 0 ≡ stride)
      × (get_or metadata.sizes p 0
          ≡ wrap32 (stride * div_round_up height (get_or layout.vertical_subsampling p 0)))
      × (get_or metadata.offsets p 0 ≡ offset)
unfolding drv_size_from_format
plane_size metadata stride height format p offset {layout} known s lt le small at =
    let row : get_or metadata.strides p 0 ≡ stride =
      some_injective (sym at.strided ∙ plain_subsample stride format p s.plain s.plain' small) in
    let rows = div_round_up height (get_or layout.vertical_subsampling p 0) in
    let bytes : at.bytes ≡ wrap32 (stride * rows) =
      some_injective (sym (rw (row, layout_of_plane_lem format p known lt) at at.sized)) in
    let none_extra : get_or no_planes p 0 ≡ 0 = ground arith in
    (row, omega (arith, at.padded, bytes, none_extra), at.placed)

one_row : (height : ℕ) → height ≤ 2 ^ 28 → div_round_up height 1 ≡ height
one_row height small = omega (arith, div_round_up_bounds height 1 (omega arith) (omega arith))

grow : (pitch a b : ℕ) → a ≤ b → pitch * a ≤ pitch * b
grow pitch a b h = grind arith

spread : (pitch a b : ℕ) → pitch * (a + b) ≡ pitch * a + pitch * b
spread pitch a b = omega arith

-- The stride of plane 0 is the kernel's pitch, and the planes end inside of its memory.
abbrev pub PlanesFit : PlanarLayout → DumbAnswer → BoMetadata → Type 0
PlanesFit layout answer metadata =
    (get_or metadata.strides 0 0 ≡ answer.pitch)
    × ((p : ℕ)
        → p < layout.num_planes
        → get_or metadata.offsets p 0 + get_or metadata.sizes p 0 ≤ answer.size)

below_one : (P : ℕ → Type 0) {n : ℕ} → n ≡ 1 → P 0 → (p : ℕ) → p < n → P p
below_one P e p₀ zero lt = p₀
below_one P e p₀ (suc p) lt = absurd (omega (arith, e))

pub inside_one :
    (metadata : BoMetadata) (request : DumbRequest) (answer : DumbAnswer) (height format end : ℕ)
    {layout : PlanarLayout}
    → layout_from_format format ≡ some layout
    → Shape format layout
    → layout.num_planes ≡ 1
    → height ≤ 2 ^ 28
    → height ≤ request.height
    → IsHonest request answer
    → Chain answer.pitch 1 height format no_planes 1 0 0 end metadata
    → PlanesFit layout answer metadata
inside_one metadata request answer height format end known s one small tall honest chain =
    let first =
      plane_size metadata answer.pitch height format 0 0 known s (omega (arith, one)) (omega arith)
        honest.pitch_fits chain.0 in
    let rows = rw (s.full, one_row height small) at first.1 in
    (
      first.0,
      below_one (λ p. get_or metadata.offsets p 0 + get_or metadata.sizes p 0 ≤ answer.size) one
          (omega (
            arith,
            rows,
            first.2,
            grow answer.pitch height request.height tall,
            honest.rows,
            honest.size_fits,
          )),
    )

below_two : (P : ℕ → Type 0) {n : ℕ} → n ≡ 2 → P 0 → P 1 → (p : ℕ) → p < n → P p
below_two P e p₀ p₁ zero lt = p₀
below_two P e p₀ p₁ (suc zero) lt = p₁
below_two P e p₀ p₁ (suc (suc p)) lt = absurd (omega (arith, e))

pub inside_two :
    (metadata : BoMetadata) (request : DumbRequest) (answer : DumbAnswer) (height format end : ℕ)
    {layout : PlanarLayout}
    → layout_from_format format ≡ some layout
    → Shape format layout
    → layout.num_planes ≡ 2
    → height ≤ 2 ^ 28
    → height + div_round_up height 2 ≤ request.height
    → IsHonest request answer
    → Chain answer.pitch 1 height format no_planes 2 0 0 end metadata
    → PlanesFit layout answer metadata
inside_two metadata request answer height format end known s two small tall honest
      (first, (second, _)) =
    let luma =
      plane_size metadata answer.pitch height format 0 0 known s (omega (arith, two)) (omega arith)
        honest.pitch_fits first in
    let chroma =
      plane_size metadata answer.pitch height format 1 _ known s (omega (arith, two)) (omega arith)
        honest.pitch_fits second in
    let rows = rw (s.full, one_row height small) at luma.1 in
    let half_rows = rw (s.half two) at chroma.1 in
    let all = grow answer.pitch (height + div_round_up height 2) request.height tall in
    let parts = spread answer.pitch height (div_round_up height 2) in
    (
      luma.0,
      below_two (λ p. get_or metadata.offsets p 0 + get_or metadata.sizes p 0 ≤ answer.size) two
          (omega (arith, rows, luma.2, all, parts, honest.rows, honest.size_fits))
          (omega
            (arith, rows, half_rows, luma.2, chroma.2, all, parts, honest.rows, honest.size_fits)),
    )
