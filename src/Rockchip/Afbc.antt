-- ===== src/Rockchip/Afbc.antt =====
-- The AFBC layout: header blocks, then body blocks.
use external_minigbm.Base.{
  ℕ, ◌+◌, ◌*◌, ◌%◌, ◌^◌, ◌≤◌, ◌<◌, ◌≡◌, arith, get_or, get_or-set_self, wrap32, div_round_up,
  div_round_up_bounds, align_bounds, align_1024,
}
use external_minigbm.Bo.{BoMetadata}
use external_minigbm.Planes.Contiguous.{HasArrays}
use external_minigbm.Rockchip.{total_blocks, body_plane_offset, afbc_bo_from_format}

-- A header of 16 bytes for each block, then, aligned, a body of 1024 bytes for each block; the bodies
-- have room for every pixel.
pub record IsAfbc (width height : ℕ) (after : BoMetadata) : Type 0 where
  pub header : total_blocks width height * 16 ≤ body_plane_offset width height
  pub aligned : body_plane_offset width height % 1024 ≡ 0
  pub body : after.total_size ≡ body_plane_offset width height + total_blocks width height * 1024
  pub pixels : width * height * 4 ≤ total_blocks width height * 1024
  pub row : width * 4 ≤ get_or after.strides 0 0
  pub one_plane : get_or after.sizes 0 0 ≡ after.total_size

quotient_le : (q n N : ℕ) → q * 16 < n + 16 → n ≤ N * 16 → q ≤ N
quotient_le q n N h k = omega arith

product_le : (a b : ℕ) → a ≤ 1024 → b ≤ 1024 → a * b ≤ 1024 * 1024
product_le a b h k = grind arith

scale : (a b c : ℕ) → a ≤ b → a * c ≤ b * c
scale a b c h = grind arith

grow : (a b c : ℕ) → b ≤ c → a * b ≤ a * c
grow a b c h = grind arith

cover : (w h a b : ℕ) → w ≤ a * 16 → h ≤ b * 16 → w * h ≤ a * 16 * (b * 16)
cover w h a b k l = omega (arith, scale w (a * 16) h k, grow (a * 16) h (b * 16) l)

blocks : (a b : ℕ) → a * 16 * (b * 16) ≡ a * b * 256
blocks a b = grind arith

-- For metadata with arrays of four entries and sizes of at most 2^14 pixels, afbc_bo_from_format lays
-- the headers and the bodies of the blocks out without an overlap, the bodies at a multiple of 1024;
-- the bodies hold four bytes for every pixel, the stride holds a row, and nothing wraps.
pub bo_from_format-IsAfbc :
    (metadata : BoMetadata) (width height modifier : ℕ)
    → HasArrays metadata
    → width ≤ 2 ^ 14
    → height ≤ 2 ^ 14
    → IsAfbc width height (afbc_bo_from_format metadata width height modifier)
unfolding afbc_bo_from_format body_plane_offset total_blocks
bo_from_format-IsAfbc metadata width height modifier room narrow short =
    let across = div_round_up_bounds width 16 (omega arith) (omega arith) in
    let down = div_round_up_bounds height 16 (omega arith) (omega arith) in
    let columns = div_round_up width 16 in
    let rows = div_round_up height 16 in
    let few : columns ≤ 1024 = quotient_le columns width 1024 across.1 narrow in
    let few_rows : rows ≤ 1024 = quotient_le rows height 1024 down.1 short in
    let small = product_le columns rows few few_rows in
    let exact : wrap32 (columns * rows) ≡ columns * rows = omega (arith, small) in
    let end =
      align_bounds (wrap32 (wrap32 (columns * rows) * 16)) align_1024 (omega (arith, small)) in
    let stride =
      get_or-set_self metadata.strides 0 (wrap32 (columns * 16 * 4)) 0
        (omega (arith, room.strides_room)) in
    record {
      header = omega (arith, exact, small, end);
      aligned = end.2;
      body = omega (arith, exact, small, end);
      pixels =
          omega
            (arith, exact, cover width height columns rows across.0 down.0, blocks columns rows);
      row = omega (arith, stride, few, across);
      one_plane = get_or-set_self metadata.sizes 0 _ 0 (omega (arith, room.sizes_room));
    }
