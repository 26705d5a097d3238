-- ===== src/Msm/Sizes.antt =====
-- The sizes that `venus_sizes` computes: nothing wraps, and the rows have room.
use external_minigbm.Base.{
  ℕ, ◌+◌, ◌-◌, ◌*◌, ◌/◌, ◌^◌, ◌≤◌, ◌<◌, ◌≡◌, false, inl, inr, arith, ◌==◌, wrap32, align,
  div_round_up, align_bounds, div_round_up_bounds, align_16, align_32, align_64, align_4096,
  Bool-cases,
}
use external_minigbm.Msm.{max, get_ubwc_meta_size, VenusSizes, venus_sizes}

grow : (a b c : ℕ) → b ≤ c → a * b ≤ a * c
grow a b c h = grind arith

area : (a b : ℕ) → a ≤ 33024 → b ≤ 16416 → a * b ≤ 33024 * 16416
area a b h k = omega (arith, grow a b 16416 k)

meta_area : (a b : ℕ) → a ≤ 2048 → b ≤ 8192 → a * b ≤ 2048 * 8192
meta_area a b h k = omega (arith, grow a b 8192 k)

quotient_le : (q t n N : ℕ) → q * t < n + t → n ≤ N * t → q ≤ N
quotient_le q t n N h k = grind arith

-- The compression's metadata is small for dimensions of at most 2^15.
meta_size_le :
    (width height tile_width tile_height : ℕ)
    → width ≤ 2 ^ 15
    → height ≤ 2 ^ 15
    → 16 ≤ tile_width
    → tile_width ≤ 64
    → 8 ≤ tile_height
    → tile_height ≤ 64
    → get_ubwc_meta_size width height tile_width tile_height ≤ 2 ^ 24 + 4096
unfolding get_ubwc_meta_size
meta_size_le width height tile_width tile_height h k l l' m m' =
    let columns = div_round_up_bounds width tile_width (omega arith) (omega arith) in
    let rows = div_round_up_bounds height tile_height (omega arith) (omega arith) in
    let few : div_round_up width tile_width ≤ 2048 =
      quotient_le _ tile_width width 2048 columns.1 (omega arith) in
    let few_rows : div_round_up height tile_height ≤ 4096 =
      quotient_le _ tile_height height 4096 rows.1 (omega arith) in
    let wide = align_bounds (div_round_up width tile_width) align_64 (omega arith) in
    let tall = align_bounds (div_round_up height tile_height) align_16 (omega arith) in
    let room =
      meta_area (align (div_round_up width tile_width) 64)
        (align (div_round_up height tile_height) 16) (omega (arith, wide)) (omega (arith, tall)) in
    omega (
      arith,
      room,
      align_bounds
          (wrap32
            (align (div_round_up width tile_width) 64 * align (div_round_up height tile_height) 16))
          align_4096 (omega (arith, room)),
    )

-- Both planes are large enough, nothing wraps, and the sum fits with the padding.
pub record SizesFit (height stride : ℕ) (sizes : VenusSizes) : Type 0 where
  pub luma : stride * height ≤ sizes.y_plane
  pub chroma : stride * div_round_up height 2 ≤ sizes.uv_plane
  pub small : sizes.y_plane + sizes.uv_plane + sizes.extra_padding < 2 ^ 32 - 4096

plain-SizesFit :
    (height stride rows half_rows : ℕ)
    → stride ≤ 33024
    → height ≤ rows
    → rows ≤ 16416
    → div_round_up height 2 ≤ half_rows
    → half_rows ≤ 16416
    → SizesFit height stride (record {
      y_plane = wrap32 (stride * rows);
      uv_plane = wrap32 (stride * half_rows);
      extra_padding = 12 * 1024;
    })
plain-SizesFit height stride rows half_rows pitch tall short half_tall half_short =
    let luma = area stride rows pitch short in
    let chroma = area stride half_rows pitch half_short in
    record {
      luma = omega (arith, grow stride height rows tall, luma);
      chroma = omega (arith, grow stride (div_round_up height 2) half_rows half_tall, chroma);
      small = omega (arith, luma, chroma);
    }

ubwc-SizesFit :
    (height stride rows half_rows meta_size half_meta_size : ℕ)
    → stride ≤ 33024
    → height ≤ rows
    → rows ≤ 16416
    → div_round_up height 2 ≤ half_rows
    → half_rows ≤ 16416
    → meta_size ≤ 2 ^ 24 + 4096
    → half_meta_size ≤ 2 ^ 24 + 4096
    → SizesFit height stride (record {
      y_plane = wrap32 (align (wrap32 (stride * rows)) 4096 + meta_size);
      uv_plane = wrap32 (align (wrap32 (stride * half_rows)) 4096 + half_meta_size);
      extra_padding = max (16 * 1024) (wrap32 (stride * 48));
    })
ubwc-SizesFit height stride rows half_rows meta_size half_meta_size pitch tall short half_tall
      half_short few few' =
    let luma = area stride rows pitch short in
    let chroma = area stride half_rows pitch half_short in
    let pages = align_bounds (wrap32 (stride * rows)) align_4096 (omega (arith, luma)) in
    let half_pages =
      align_bounds (wrap32 (stride * half_rows)) align_4096 (omega (arith, chroma)) in
    let padding : max (16 * 1024) (wrap32 (stride * 48)) ≤ 2 ^ 24 = ground arith in
    record {
      luma = omega (arith, grow stride height rows tall, luma, pages);
      chroma =
          omega
            (arith, grow stride (div_round_up height 2) half_rows half_tall, chroma, half_pages);
      small = omega (arith, luma, chroma, pages, half_pages, padding);
    }

pub venus_sizes-SizesFit :
    (tiling width height stride : ℕ)
    → width ≤ 2 ^ 15
    → height ≤ 2 ^ 14
    → stride ≤ 33024
    → SizesFit height stride (venus_sizes tiling width height stride)
unfolding venus_sizes
venus_sizes-SizesFit tiling width height stride narrow short pitch =
    let up = div_round_up_bounds height 2 (omega arith) (omega arith) in
    let luma = align_bounds height align_32 (omega arith) in
    let half = div_round_up height 2 in
    let chroma = align_bounds half align_16 (omega (arith, up)) in
    let chroma_2 = align_bounds half align_32 (omega (arith, up)) in
    elim (Bool-cases (tiling == 1)) [
      | inl compressed ↦
          let other : (tiling == 0) ≡ false = ground arith in
          rw (compressed, other)
            (ubwc-SizesFit height stride (align height 32) (align half 32)
              (get_ubwc_meta_size width height 32 8)
              (get_ubwc_meta_size (width / 2) (height / 2) 16 8) pitch luma.0 (omega (arith, luma))
              chroma_2.0 (omega (arith, chroma_2, up))
              (meta_size_le width height 32 8 narrow (omega arith) (omega arith) (omega arith)
                (omega arith) (omega arith))
              (meta_size_le (width / 2) (height / 2) 16 8 (omega arith) (omega arith) (omega arith)
                (omega arith) (omega arith) (omega arith)))
      | inr plain ↦ elim (Bool-cases (tiling == 0)) [
        | inl linear ↦
            rw (plain, linear)
              (plain-SizesFit height stride (align height 32) (align half 16) pitch luma.0
                (omega (arith, luma)) chroma.0 (omega (arith, chroma, up)))
        | inr tiled ↦
            rw (plain, tiled)
              (plain-SizesFit height stride (align height 32) (align half 32) pitch luma.0
                (omega (arith, luma)) chroma_2.0 (omega (arith, chroma_2, up)))
      ]
    ]
