-- ===== src/I915/Metadata/Compressed.antt =====
-- How many main planes the compressed layouts have room for.
use external_minigbm.Base.{
  ℕ, ◌+◌, ◌≤◌, ◌≡◌, refl, none, some, List, arith, Returns, get_or, set, wrap32, ◌%◌, ◌*◌, ◌^◌,
  div_round_up, div_round_up_bounds, get_or-set_self, get_or-set_ne, length-set, length, ◌∙◌, sym,
}
use external_minigbm.Bo.{BoMetadata}
use external_minigbm.Drm.{i915_format_mod_y_tiled_ccs}
use external_minigbm.Layout.{drv_num_planes_from_format, drv_stride_from_format}
use external_minigbm.Planes.Contiguous.{HasArrays}
use external_minigbm.I915.Metadata.{
  write_plane, aux_planes, with_aux, ccs_planes, i915_num_planes_from_modifier,
}

-- With one or two main planes the auxiliary planes are laid out, as many as there are main planes.
-- With three main planes the writes run past the four entries of the arrays.
pub with_aux_room :
    (pagesize : ℕ) (main : BoMetadata) (offset : ℕ)
    → Returns (λ after. after.num_planes ≡ 2) (with_aux pagesize 1 (some (main, offset)))
      × Returns (λ after. after.num_planes ≡ 4) (with_aux pagesize 2 (some (main, offset)))
      × (with_aux pagesize 3 (some (main, offset)) ≡ none)
unfolding with_aux aux_planes write_plane
with_aux_room pagesize main offset = ((_, refl, refl), (_, refl, refl), refl)

-- What the Y-tiled compression promises: two planes, the second of which begins where the first one
-- ends, and a pitch of whole tiles that holds a row.
pub record ColourControl (stride : ℕ) (after : BoMetadata) : Type 0 where
  pub two : after.num_planes ≡ 2
  pub first : get_or after.offsets 0 0 ≡ 0
  pub second : get_or after.offsets 1 0 ≡ get_or after.sizes 0 0
  pub total : after.total_size ≡ wrap32 (get_or after.sizes 0 0 + get_or after.sizes 1 0)
  pub covers : stride ≤ get_or after.strides 0 0
  pub tiled : get_or after.strides 0 0 % 128 ≡ 0

-- The metadata with these strides and sizes of the two planes.
abbrev two_planes : BoMetadata → ℕ → ℕ → ℕ → ℕ → BoMetadata
two_planes metadata stride size ccs_stride ccs_size = record metadata {
  strides = set (set metadata.strides 0 stride) 1 ccs_stride;
  sizes = set (set metadata.sizes 0 size) 1 ccs_size;
  offsets = set (set metadata.offsets 0 0) 1 size;
  num_planes = 2;
  total_size = wrap32 (size + ccs_size);
}

get_or-first : (xs : List ℕ) (a b : ℕ) → length xs ≡ 4 → get_or (set (set xs 0 a) 1 b) 0 0 ≡ a
get_or-first xs a b h =
    get_or-set_ne (set xs 0 a) 1 0 b 0 (omega arith) ∙ get_or-set_self xs 0 a 0 (omega (arith, h))

get_or-second : (xs : List ℕ) (a b : ℕ) → length xs ≡ 4 → get_or (set (set xs 0 a) 1 b) 1 0 ≡ b
get_or-second xs a b h = get_or-set_self (set xs 0 a) 1 b 0 (omega (arith, h, length-set xs 0 a))

two_planes-ColourControl :
    (metadata : BoMetadata) (stride size ccs_stride ccs_size : ℕ)
    → HasArrays metadata
    → stride ≤ 2 ^ 31
    → ColourControl stride
        (two_planes metadata (wrap32 (div_round_up stride 128 * 128)) size ccs_stride ccs_size)
two_planes-ColourControl metadata stride size ccs_stride ccs_size room fits =
    let up = div_round_up_bounds stride 128 (omega arith) (omega arith) in
    let pitch = wrap32 (div_round_up stride 128 * 128) in
    let main_size = get_or-first metadata.sizes size ccs_size room.sizes_room in
    let main_stride = get_or-first metadata.strides pitch ccs_stride room.strides_room in
    record {
      two = refl;
      first = get_or-first metadata.offsets 0 size room.offsets_room;
      second = get_or-second metadata.offsets 0 size room.offsets_room ∙ sym main_size;
      total = rw (main_size, get_or-second metadata.sizes size ccs_size room.sizes_room);
      covers = omega (arith, up, main_stride);
      tiled = omega (arith, up, main_stride);
    }

-- For metadata with arrays of four entries and a format of one plane whose row takes at most 2^31 bytes, `ccs_planes` returns a main plane
-- and a control plane: the control plane begins where the main plane ends, the total size is the sum
-- of both, and the main plane's stride is a multiple of 128 that holds a row.
pub ccs_planes-ColourControl :
    (metadata : BoMetadata) (width height format : ℕ) {stride : ℕ}
    → HasArrays metadata
    → drv_num_planes_from_format format ≡ 1
    → drv_stride_from_format format width 0 ≡ some stride
    → stride ≤ 2 ^ 31
    → Returns
        (ColourControl stride)
        (ccs_planes metadata width height format i915_format_mod_y_tiled_ccs)
unfolding ccs_planes write_plane i915_num_planes_from_modifier
ccs_planes-ColourControl metadata width height format {stride} room one row fits =
    let tiles = div_round_up stride 128 in
    let rows = div_round_up height 32 in
    let ccs_tiles = div_round_up tiles 32 in
    let size = wrap32 (tiles * rows * 4096) in
    let ccs_size = wrap32 (ccs_tiles * div_round_up rows 16 * 4096) in
    (
      two_planes metadata (wrap32 (tiles * 128)) size (wrap32 (ccs_tiles * 128)) ccs_size,
      rw (row, one),
      two_planes-ColourControl metadata stride size (wrap32 (ccs_tiles * 128)) ccs_size room fits,
    )
