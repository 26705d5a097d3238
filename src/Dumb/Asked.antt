-- ===== src/Dumb/Asked.antt =====
-- What drv_dumb_bo_create_ex asks the kernel for is enough for the planes.
use external_minigbm.Base.{
  ℕ, ◌+◌, ◌*◌, ◌^◌, ◌≤◌, ◌<◌, ◌≡◌, ◌≢◌, refl, some, ◌⊎◌, inl, inr, arith, get_or, Returns, wrap32,
  align, div_round_up, align_bounds, align_16, align_64, div_round_up_bounds, has_flag, Bool-cases,
  ==_ne,
}
use external_minigbm.Drm.{drm_format_yvu420_android, drm_format_yvu420}
use external_minigbm.Flags.{bo_quirk_dumb32bpp}
use external_minigbm.Layout.{PlanarLayout, layout_from_format, one_of}
use external_minigbm.Layout.Valid.{PlaneIsValid}
use external_minigbm.Bo.{Bo}
use external_minigbm.Dumb.{
  DumbRequest, DumbAnswer, asked_width, asked_height, plane_height, dumb_request,
}

-- The kernel's side: rows of at least the bits that were asked for, and memory for all of them.
pub record IsHonest (request : DumbRequest) (answer : DumbAnswer) : Type 0 where
  pub row : request.width * request.bpp ≤ answer.pitch * 8
  pub rows : answer.pitch * request.height ≤ answer.size
  pub pitch_fits : answer.pitch < 2 ^ 31
  pub size_fits : answer.size < 2 ^ 32

-- Formats of one or two planes have full rows in plane 0, and half as many in plane 1.
pub record Shape (format : ℕ) (layout : PlanarLayout) : Type 0 where
  pub plain : format ≢ drm_format_yvu420_android
  pub plain' : format ≢ drm_format_yvu420
  pub full : get_or layout.vertical_subsampling 0 0 ≡ 1
  pub half : layout.num_planes ≡ 2 → get_or layout.vertical_subsampling 1 0 ≡ 2
  pub enlarged :
      layout.num_planes ≡ 2
      → (height : ℕ) → asked_height height format ≡ wrap32 (3 * div_round_up height 2)
  pub single : layout.num_planes ≡ 1 → (height : ℕ) → asked_height height format ≡ height

pub shape :
    (format : ℕ) {layout : PlanarLayout}
    → layout_from_format format ≡ some layout
    → layout.num_planes ≤ 2
    → Shape format layout
unfolding layout_from_format one_of asked_height
shape format known few = record {
  plain = ground arith;
  plain' = ground arith;
  full = ground arith;
  half = ground arith;
  enlarged = λ two height. ground arith;
  single = λ one height. ground arith;
}

-- What is asked for is enough for the rows and the columns of the planes.
pub record Asked (layout : PlanarLayout) (width height : ℕ) (request : DumbRequest) : Type 0 where
  pub columns : width * get_or layout.bytes_per_pixel 0 0 * 8 ≤ request.width * request.bpp
  pub all_rows : height ≤ request.height
  pub chroma_rows : layout.num_planes ≡ 2 → height + div_round_up height 2 ≤ request.height

width_le :
    (width format : ℕ)
    → width ≤ 2 ^ 28
    → format ≢ drm_format_yvu420_android
    → (width ≤ asked_width width format) × (asked_width width format < width + 16)
unfolding asked_width
width_le width format small plain = ground (arith, align_bounds width align_16 (omega arith))

rows_le :
    (format height : ℕ) {layout : PlanarLayout}
    → Shape format layout
    → (layout.num_planes ≡ 1) ⊎ (layout.num_planes ≡ 2)
    → height ≤ 2 ^ 28
    → (height ≤ asked_height height format)
      × (layout.num_planes ≡ 2 → height + div_round_up height 2 ≤ asked_height height format)
      × (asked_height height format ≤ 2 ^ 30)
rows_le format height s (inl one) small =
    rw (s.single one height) (omega arith, λ two. omega (arith, one, two), omega arith)
rows_le format height s (inr two) small =
    let up = div_round_up_bounds height 2 (omega arith) (omega arith) in
    rw (s.enlarged two height) (omega (arith, up), λ _. omega (arith, up), omega (arith, up))

scale : (a b c : ℕ) → a ≤ b → a * c ≤ b * c
scale a b c h = grind arith

scale_8 : (a b c : ℕ) → a ≤ b → a * c * 8 ≤ b * (c * 8)
scale_8 a b c h = grind arith

row_lt : (a c : ℕ) → a ≤ 2 ^ 28 + 16 → c ≤ 8 → a * c ≤ 2 ^ 31 + 128
row_lt a c h l = grind arith

plain-Asked :
    (layout : PlanarLayout) (width height w h : ℕ)
    → width ≤ w
    → w < width + 16
    → width ≤ 2 ^ 28
    → height ≤ h
    → h ≤ 2 ^ 30
    → (layout.num_planes ≡ 2 → height + div_round_up height 2 ≤ h)
    → Asked layout width height (record {
      width = align w 64;
      height = align h 64;
      bpp = get_or layout.bytes_per_pixel 0 0 * 8;
    })
plain-Asked layout width height w h wide narrow small tall short chroma =
    let across = align_bounds w align_64 (omega arith) in
    let down = align_bounds h align_64 (omega arith) in
    record {
      columns = scale_8 width (align w 64) _ (omega (arith, across));
      all_rows = omega (arith, down);
      chroma_rows = λ two. omega (arith, down, chroma two);
    }

packed-Asked :
    (layout : PlanarLayout) (width height w h : ℕ)
    → width ≤ w
    → w < width + 16
    → width ≤ 2 ^ 28
    → get_or layout.bytes_per_pixel 0 0 ≤ 8
    → height ≤ h
    → (layout.num_planes ≡ 2 → height + div_round_up height 2 ≤ h)
    → Asked layout width height (record {
      width = div_round_up (wrap32 (w * get_or layout.bytes_per_pixel 0 0)) 4;
      height = h;
      bpp = 32;
    })
packed-Asked layout width height w h wide narrow small bytes tall chroma =
    let b = get_or layout.bytes_per_pixel 0 0 in
    let fits = row_lt w b (omega arith) bytes in
    let whole : wrap32 (w * b) ≡ w * b = omega (arith, fits) in
    record {
      columns = rw whole (
          omega (
            arith,
            scale width w b wide,
            div_round_up_bounds (w * b) 4 (omega arith) (omega (arith, fits)),
          ));
      all_rows = tall;
      chroma_rows = chroma;
    }

pub request_lem :
    (bo : Bo) (width height format quirks : ℕ) {layout : PlanarLayout}
    → layout_from_format format ≡ some layout
    → Shape format layout
    → (layout.num_planes ≡ 1) ⊎ (layout.num_planes ≡ 2)
    → PlaneIsValid layout 0
    → width ≤ 2 ^ 28
    → height ≤ 2 ^ 28
    → Returns (Asked layout width height) (dumb_request bo width height format quirks)
unfolding dumb_request plane_height
request_lem bo width height format quirks known s few v narrow short =
    let columns = width_le width format narrow s.plain in
    let rows = rows_le format height s few short in
    elim (Bool-cases (has_flag quirks bo_quirk_dumb32bpp)) [
      | inl packed ↦ (
        _,
        rw (known, ==_ne format _ s.plain, packed) refl,
        packed-Asked _ width height _ _ columns.0 columns.1 narrow v.bytes_le rows.0 rows.1,
      )
      | inr not_packed ↦ (
        _,
        rw (known, ==_ne format _ s.plain, not_packed) refl,
        plain-Asked _ width height _ _ columns.0 columns.1 narrow rows.0 rows.2 rows.1,
      )
    ]
