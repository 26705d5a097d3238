-- ===== src/Dumb/Fits.antt =====
-- The planes of a dumb buffer lie inside of what the kernel allocated.
use external_minigbm.Base.{
  ℕ, ◌+◌, ◌*◌, ◌^◌, ◌≤◌, ◌<◌, ◌≡◌, refl, some, ◌⊎◌, inl, inr, arith, get_or, Returns, ==_ne,
}
use external_minigbm.Layout.{PlanarLayout, layout_from_format, drv_num_planes_from_format}
use external_minigbm.Layout.Valid.{PlaneIsValid, layout_from_format-PlaneIsValid, planes_bounds}
use external_minigbm.Bo.{Bo, BoMetadata, no_planes}
use external_minigbm.Planes.{forced_align, drv_bo_from_format}
use external_minigbm.Planes.Contiguous.{HasArrays, Chain}
use external_minigbm.Planes.LaidOut.{from_format_contiguous}
use external_minigbm.Dumb.{
  DumbRequest, DumbAnswer, plane_height, dumb_request, drv_dumb_bo_create_ex,
}
use external_minigbm.Dumb.Asked.{IsHonest, Shape, shape, Asked, request_lem}
use external_minigbm.Dumb.Inside.{PlanesFit, inside_one, inside_two}

-- A row of pixels fits in the stride, and the planes end inside of the object.
pub record Fits (layout : PlanarLayout) (width : ℕ) (bo : Bo) : Type 0 where
  pub row : width * get_or layout.bytes_per_pixel 0 0 ≤ get_or bo.metadata.strides 0 0
  pub inside :
      (p : ℕ)
      → p < layout.num_planes
      → get_or bo.metadata.offsets p 0 + get_or bo.metadata.sizes p 0 ≤ bo.metadata.total_size

-- The kernel has answered the request that is made for `bo`: with an error, which the call passes on,
-- or with an object. The buffer is then that object, with its handle, size and pitch, and fits in it.
pub data DumbOutcome (kernel : DumbRequest → ℕ ⊎ DumbAnswer) (bo : Bo)
    (width height format quirks : ℕ) (layout : PlanarLayout) : ℕ ⊎ Bo → Type 0 where
  refused :
      (request : DumbRequest) (errno : ℕ)
      → dumb_request bo width height format quirks ≡ some request
      → kernel request ≡ inl errno
      → DumbOutcome kernel bo width height format quirks layout (inl errno)
  created :
      (request : DumbRequest) (answer : DumbAnswer) (after : Bo)
      → dumb_request bo width height format quirks ≡ some request
      → kernel request ≡ inr answer
      → after.handle ≡ answer.handle
      → after.metadata.total_size ≡ answer.size
      → get_or after.metadata.strides 0 0 ≡ answer.pitch
      → Fits layout width after
      → DumbOutcome kernel bo width height format quirks layout (inr after)

module _ (kernel : DumbRequest → ℕ ⊎ DumbAnswer) (bo : Bo) (width height format quirks : ℕ)
    {layout : PlanarLayout} (known : layout_from_format format ≡ some layout)
    (few : layout.num_planes ≤ 2) (room : HasArrays bo.metadata) (narrow : width ≤ 2 ^ 28)
    (short : height ≤ 2 ^ 28)
    (honest : (request : DumbRequest) (answer : DumbAnswer)
      → kernel request ≡ inr answer
      → IsHonest request answer) where
  s : Shape format layout
  s = shape format known few

  v : PlaneIsValid layout 0
  v = layout_from_format-PlaneIsValid format 0 known (omega (arith, planes_bounds format known))

  one_or_two : (layout.num_planes ≡ 1) ⊎ (layout.num_planes ≡ 2)
  one_or_two = omega (arith, planes_bounds format known)

  planes_fit :
      (request : DumbRequest) (answer : DumbAnswer) (metadata : BoMetadata) (end : ℕ)
      → Asked layout width height request
      → IsHonest request answer
      → (layout.num_planes ≡ 1) ⊎ (layout.num_planes ≡ 2)
      → Chain answer.pitch 1 height format no_planes layout.num_planes 0 0 end metadata
      → PlanesFit layout answer metadata
  planes_fit request answer metadata end asked h (inl one) chain =
      inside_one metadata request answer height format end known s one short asked.all_rows h
        (rw one at chain)
  planes_fit request answer metadata end asked h (inr two) chain =
      inside_two metadata request answer height format end known s two short (asked.chroma_rows two)
        h (rw two at chain)

  laid_out :
      (stride : ℕ)
      → Returns
          (λ metadata.
            Chain stride 1 height format no_planes layout.num_planes 0 0 metadata.total_size
              metadata)
          (drv_bo_from_format bo.metadata stride 1 height format)
  unfolding drv_bo_from_format
  laid_out stride =
      let (metadata, e, chain) =
        from_format_contiguous bo.metadata stride 1 height format no_planes known room s.plain in
      let planes : drv_num_planes_from_format format ≡ layout.num_planes =
        rw (drv_num_planes_from_format, known) in
      let unforced : forced_align 1 format ≡ 1 = rw (forced_align, ==_ne format _ s.plain) in
      (metadata, e, rw (planes, unforced) at chain.0)

  own_height : plane_height bo height format ≡ height
  unfolding plane_height
  own_height = rw (==_ne format _ s.plain) refl

  answered :
      (request : DumbRequest)
      → dumb_request bo width height format quirks ≡ some request
      → Asked layout width height request
      → (answer : ℕ ⊎ DumbAnswer) → kernel request ≡ answer
      → Returns
          (DumbOutcome kernel bo width height format quirks layout)
          (drv_dumb_bo_create_ex kernel bo width height format quirks)
  unfolding drv_dumb_bo_create_ex
  answered request e asked (inl errno) k = (inl errno, rw (e, k) refl, refused request errno e k)
  answered request e asked (inr answer) k =
      let h = honest request answer k in
      let (metadata, laid, chain) = laid_out answer.pitch in
      let (stride, inside) =
        planes_fit request answer metadata metadata.total_size asked h one_or_two chain in
      let after = record bo {
        metadata = record metadata { total_size = answer.size };
        handle = answer.handle;
      } in
      (
        inr after,
        rw (e, k, own_height, laid) refl,
        created request answer after e k refl refl stride
            (record { row = omega (arith, stride, asked.columns, h.row); inside = inside }),
      )

  -- For a format of at most two planes, sizes of at most 2^28 and metadata with arrays of four
  -- entries, where the kernel's rows hold the bits that it is asked for and its memory holds all
  -- rows (with a pitch below 2^31 and a size below 2^32): drv_dumb_bo_create_ex returns, either
  -- with the kernel's error on the request that is made for the buffer, or with the handle, size
  -- and pitch of the object that the kernel allocated on it: the pitch holds a row of pixels, and
  -- all planes end inside of the object.
  pub dumb_create-Fits :
      Returns
        (DumbOutcome kernel bo width height format quirks layout)
        (drv_dumb_bo_create_ex kernel bo width height format quirks)
  dumb_create-Fits =
      let (request, e, asked) =
        request_lem bo width height format quirks known s one_or_two v narrow short in
      answered request e asked (kernel request) refl
