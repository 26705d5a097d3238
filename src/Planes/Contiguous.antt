-- ===== src/Planes/Contiguous.antt =====
-- The planes that `drv_bo_from_format_and_padding` lays out follow one another without a gap.
use external_minigbm.Base.{
  ℕ, zero, suc, ◌+◌, ◌*◌, ◌^◌, ◌≤◌, ◌<◌, ◌≡◌, refl, ◌∙◌, some, List, [], arith, length, get_or, set,
  length-set, wrap32, >>=-eq-some, Option, get_or-set_self, get_or-set_ne, Total, div_round_up,
}
use external_minigbm.Layout.{PlanarLayout, layout_from_format, drv_size_from_format}
use external_minigbm.Layout.Valid.{layout_of_plane_lem}
use external_minigbm.Bo.{BoMetadata}
use external_minigbm.Planes.{subsample_stride, fill_planes}

-- The arrays of the metadata have room for every plane.
pub record HasArrays (metadata : BoMetadata) : Type 0 where
  pub offsets_room : length metadata.offsets ≡ 4
  pub sizes_room : length metadata.sizes ≡ 4
  pub strides_room : length metadata.strides ≡ 4

-- The fields that the layout does not touch.
abbrev pub other_fields : BoMetadata → BoMetadata
other_fields metadata = record metadata { offsets = []; sizes = []; strides = []; total_size = 0 }

size_returns :
    (format stride height p : ℕ) {layout : PlanarLayout}
    → layout_from_format format ≡ some layout
    → p < layout.num_planes
    → Total (drv_size_from_format format stride height p)
unfolding drv_size_from_format
size_returns format stride height p {layout} known lt = (
  wrap32 (stride * div_round_up height (get_or layout.vertical_subsampling p 0)),
  rw (layout_of_plane_lem format p known lt),
)

module _ (stride stride_align aligned_height format : ℕ) (padding : List ℕ) where
  -- Plane `p` has the subsampled stride, the bytes of its rows and its padding, and begins at
  -- `offset`.
  pub record PlaneAt (metadata : BoMetadata) (p offset : ℕ) : Type 0 where
    pub bytes : ℕ
    pub strided : subsample_stride stride stride_align format p ≡ some (get_or metadata.strides p 0)
    pub sized :
        drv_size_from_format format (get_or metadata.strides p 0) aligned_height p ≡ some bytes
    pub padded : get_or metadata.sizes p 0 ≡ wrap32 (bytes + get_or padding p 0)
    pub placed : get_or metadata.offsets p 0 ≡ offset

  -- The planes `p` to `p + n - 1` lie one behind the other from `offset` to `end`.
  abbrev pub Chain : ℕ → ℕ → ℕ → ℕ → BoMetadata → Type 0
  Chain zero p offset end metadata = end ≡ offset
  Chain (suc n) p offset end metadata =
      PlaneAt metadata p offset
      × Chain n (p + 1) (wrap32 (offset + get_or metadata.sizes p 0)) end metadata

  -- The metadata after the loop's body has run for plane `p`.
  abbrev written : BoMetadata → ℕ → ℕ → ℕ → ℕ → BoMetadata
  written metadata p offset plane_stride bytes = record metadata {
    strides = set metadata.strides p plane_stride;
    sizes = set metadata.sizes p (wrap32 (bytes + get_or padding p 0));
    offsets = set metadata.offsets p offset;
  }

  abbrev pub loop : ℕ → ℕ → ℕ → BoMetadata → Option (BoMetadata × ℕ)
  loop = fill_planes stride stride_align aligned_height format padding

  -- One round of a loop that ends well.
  record Round (n p offset : ℕ) (before after : BoMetadata) (end : ℕ) : Type 0 where
    plane_stride : ℕ
    bytes : ℕ
    strided : subsample_stride stride stride_align format p ≡ some plane_stride
    sized : drv_size_from_format format plane_stride aligned_height p ≡ some bytes
    later :
        loop n
          (p + 1)
          (wrap32 (offset + wrap32 (bytes + get_or padding p 0)))
          (written before p offset plane_stride bytes)
        ≡ some (after, end)

  loop-Round :
      (n p offset : ℕ) (before : BoMetadata) {after : BoMetadata} {end : ℕ}
      → loop (suc n) p offset before ≡ some (after, end)
      → Round n p offset before after end
  unfolding fill_planes
  loop-Round n p offset before h =
      let (plane_stride, strided, h') =
        >>=-eq-some (subsample_stride stride stride_align format p) _ h in
      let (bytes, sized, later) =
        >>=-eq-some (drv_size_from_format format plane_stride aligned_height p) _ h' in
      record {
        plane_stride = plane_stride;
        bytes = bytes;
        strided = strided;
        sized = sized;
        later = later;
      }

  -- Planes below `p` stay as they are, and so do the other fields.
  pub record Keeps (p : ℕ) (before after : BoMetadata) : Type 0 where
    pub strides_kept : (q : ℕ) → q < p → get_or after.strides q 0 ≡ get_or before.strides q 0
    pub sizes_kept : (q : ℕ) → q < p → get_or after.sizes q 0 ≡ get_or before.sizes q 0
    pub offsets_kept : (q : ℕ) → q < p → get_or after.offsets q 0 ≡ get_or before.offsets q 0
    pub others_kept : other_fields after ≡ other_fields before

  pub loop-Keeps :
      (n p offset : ℕ) (before : BoMetadata) {after : BoMetadata} {end : ℕ}
      → loop n p offset before ≡ some (after, end)
      → Keeps p before after
  unfolding fill_planes
  loop-Keeps zero p offset before {after} h =
      let e : before ≡ after = ground arith in
      rw (← e) (record {
        strides_kept = λ q lt. refl;
        sizes_kept = λ q lt. refl;
        offsets_kept = λ q lt. refl;
        others_kept = refl;
      })
  loop-Keeps (suc n) p offset before h =
      let r = loop-Round n p offset before h in
      let ih = loop-Keeps n (p + 1) _ _ r.later in
      record {
        strides_kept = λ q lt.
            ih.strides_kept q (omega arith) ∙ get_or-set_ne before.strides p q _ 0 (omega arith);
        sizes_kept = λ q lt.
            ih.sizes_kept q (omega arith) ∙ get_or-set_ne before.sizes p q _ 0 (omega arith);
        offsets_kept = λ q lt.
            ih.offsets_kept q (omega arith) ∙ get_or-set_ne before.offsets p q _ 0 (omega arith);
        others_kept = ih.others_kept;
      }

  HasArrays-written :
      (before : BoMetadata) (p offset plane_stride bytes : ℕ)
      → HasArrays before
      → HasArrays (written before p offset plane_stride bytes)
  HasArrays-written before p offset plane_stride bytes room = omega (
    arith,
    length-set before.strides p plane_stride,
    length-set before.sizes p (wrap32 (bytes + get_or padding p 0)),
    length-set before.offsets p offset,
  )

  pub loop-Chain :
      (n p offset : ℕ) (before : BoMetadata) {after : BoMetadata} {end : ℕ}
      → HasArrays before
      → p + n ≤ 4
      → loop n p offset before ≡ some (after, end)
      → Chain n p offset end after
  unfolding fill_planes
  loop-Chain zero p offset before room fits h = ground arith
  loop-Chain (suc n) p offset before {after} room fits h =
      let r = loop-Round n p offset before h in
      let kept = loop-Keeps n (p + 1) _ _ r.later in
      let strided : get_or after.strides p 0 ≡ r.plane_stride =
        kept.strides_kept p (omega arith)
        ∙ get_or-set_self before.strides p r.plane_stride 0 (omega arith) in
      let sized : get_or after.sizes p 0 ≡ wrap32 (r.bytes + get_or padding p 0) =
        kept.sizes_kept p (omega arith) ∙ get_or-set_self before.sizes p _ 0 (omega arith) in
      let placed : get_or after.offsets p 0 ≡ offset =
        kept.offsets_kept p (omega arith)
        ∙ get_or-set_self before.offsets p offset 0 (omega arith) in
      (
        record {
          bytes = r.bytes;
          strided = rw strided r.strided;
          sized = rw strided r.sized;
          padded = sized;
          placed = placed;
        },
        rw sized (
            loop-Chain n (p + 1) _ _ (HasArrays-written before p offset _ _ room) (omega arith)
              r.later),
      )

  pub Chain-total_size :
      (n p offset end total : ℕ) (metadata : BoMetadata)
      → Chain n p offset end metadata
      → Chain n p offset end (record metadata { total_size = total })
  Chain-total_size zero p offset end total metadata c = c
  Chain-total_size (suc n) p offset end total metadata (at, c) = (
    record {
      bytes = at.bytes;
      strided = at.strided;
      sized = at.sized;
      padded = at.padded;
      placed = at.placed;
    },
    Chain-total_size n (p + 1) _ end total metadata c,
  )

  -- The end of a chain is a word.
  pub Chain-end_small :
      (n p offset end : ℕ) (metadata : BoMetadata)
      → offset < 2 ^ 32
      → Chain n p offset end metadata
      → end < 2 ^ 32
  Chain-end_small zero p offset end metadata small c = omega (arith, c)
  Chain-end_small (suc n) p offset end metadata small (at, c) =
      Chain-end_small n (p + 1) _ end metadata (omega arith) c

  -- The loop ends well where each of its planes has a stride and the format has the plane.
  pub loop-Returns :
      {layout : PlanarLayout} (n p offset : ℕ) (before : BoMetadata)
      → layout_from_format format ≡ some layout
      → p + n ≤ layout.num_planes
      → ((q : ℕ) → q < layout.num_planes → Total (subsample_stride stride stride_align format q))
      → (end : BoMetadata × ℕ) × (loop n p offset before ≡ some end)
  unfolding fill_planes
  loop-Returns zero p offset before known fits strides = (_, refl)
  loop-Returns (suc n) p offset before known fits strides =
      let (plane_stride, e) = strides p (omega arith) in
      let (bytes, e') = size_returns format plane_stride aligned_height p known (omega arith) in
      rw (e, e') (loop-Returns n (p + 1) _ _ known (omega arith) strides)
