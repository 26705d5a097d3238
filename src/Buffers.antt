-- ===== src/Buffers.antt =====
-- drv.c: buffers are made, imported and read. What the backend's functions, the allocator and
-- `lseek` answer is a parameter.
pub mod Created
pub mod Imported
mod Tests
use external_minigbm.Base.{
  ℕ, zero, suc, ◌+◌, ◌-◌, ◌*◌, ◌^◌, Bool, true, false, not, ◌&&◌, ◌||◌, Option, none, some, List,
  [], ◌∷◌, ltb, leb, ◌==◌, if◌then◌else◌, ◌>>=◌, ◌>>◌, assert, get_or, set, wrap32, wrap64, sub32,
  has_flag, div_round_up,
}
use external_minigbm.Flags.{bo_use_none, bo_use_test_alloc, bo_use_sw_mask}
use external_minigbm.Errors.{einval, enomem, enotsup}
use external_minigbm.Layout.{drv_num_planes_from_format, drv_bytes_per_pixel_from_format}
use external_minigbm.Bo.{BoMetadata, Bo, no_planes}
use external_minigbm.Resolve.{clear_flags}

-- The functions of `struct backend` that make buffers: each fills the buffer in and returns 0 or an
-- error number. The width, height, format and use flags that they are given are the buffer's own.
-- Either both or neither of the two metadata functions are there, so they are one entry.
pub record Backend : Type 0 where
  pub bo_create : Bo → Bo × ℕ
  pub bo_create_v2 : Option (Bo → Bool → Bo × ℕ)
  pub bo_create_with_modifiers : Option (Bo → List ℕ → Bo × ℕ)
  pub bo_metadata : Option ((Bo → Option (List ℕ) → Bo × ℕ) × (Bo → Bo × ℕ))
  pub bo_import : Bo → Bo × ℕ
  pub bo_get_map_stride : Option (Bo → ℕ)

-- The metadata of a zeroed buffer with these fields.
abbrev pub new_metadata : ℕ → ℕ → ℕ → ℕ → BoMetadata
new_metadata width height format use_flags = record {
  width = width;
  height = height;
  format = format;
  tiling = 0;
  num_planes = drv_num_planes_from_format format;
  offsets = no_planes;
  sizes = no_planes;
  strides = no_planes;
  format_modifier = 0;
  use_flags = use_flags;
  total_size = 0;
  cached = false;
}

-- `drv_bo_new`, where `memory` answers `calloc`.
unfoldable pub drv_bo_new : Bool → ℕ → ℕ → ℕ → ℕ → Bool → Option Bo
drv_bo_new memory width height format use_flags is_test_buffer =
    if memory && not (drv_num_planes_from_format format == 0)
    then some (record {
      metadata = new_metadata width height format use_flags;
      is_test_buffer = is_test_buffer;
      handle = 0;
      inode = 0;
    })
    else none

-- How `drv_bo_create` ends: with an error number, with 0 and no buffer (`test_only`), or with a
-- buffer that is yet to be acquired.
pub data Creation : Type 0 where
  failed : ℕ → Creation
  possible : Creation
  created : Bo → Creation

-- `if (ret || test_only) { free(bo); return ret; }` and what follows.
unfoldable pub finish : Bool → Bo × ℕ → Creation
finish test_only (bo, ret) =
    if not (ret == 0) then failed ret else if test_only then possible else created bo

-- What is computed, and for a real buffer also allocated.
unfoldable pub from_metadata : (Bo → Bo × ℕ) → Bool → Bo × ℕ → Bo × ℕ
from_metadata create skip (bo, ret) =
    let rest = create bo in if not skip && ret == 0 then rest else (bo, ret)

-- `drv_bo_create` up to its call of `drv_bo_acquire`.
unfoldable pub drv_bo_create : Backend → Bool → ℕ → ℕ → ℕ → ℕ → Bool → Creation
unfolding clear_flags drv_bo_new finish from_metadata
drv_bo_create backend memory width height format use_flags test_only =
    let is_test_alloc = has_flag use_flags bo_use_test_alloc in
    let flags = clear_flags use_flags bo_use_test_alloc in
    elim (drv_bo_new memory width height format flags is_test_alloc) [
      | none ↦ failed enomem
      | some bo ↦ elim backend.bo_create_v2 [
        | some create ↦
            finish test_only (if is_test_alloc then (bo, einval) else create bo test_only)
        | none ↦ if test_only then failed enotsup else elim backend.bo_metadata [
          | some (compute, create) ↦
              finish false (from_metadata create is_test_alloc (compute bo none))
          | none ↦ finish false (if is_test_alloc then (bo, einval) else backend.bo_create bo)
        ]
      ]
    ]

-- `drv_bo_create_with_modifiers` up to its call of `drv_bo_acquire`.
unfoldable pub drv_bo_create_with_modifiers : Backend → Bool → ℕ → ℕ → ℕ → List ℕ → Option Bo
unfolding drv_bo_new from_metadata
drv_bo_create_with_modifiers backend memory width height format modifiers =
    let new = drv_bo_new memory width height format bo_use_none false in
    let keep : Bo × ℕ → Option Bo = λ made. if made.1 == 0 then some made.0 else none in
    elim backend.bo_metadata [
      | some (compute, create) ↦ do
        bo ← new
        keep (from_metadata create false (compute bo (some modifiers)))
      | none ↦ elim backend.bo_create_with_modifiers [
        | none ↦ none
        | some create ↦ do bo ← new; keep (create bo modifiers)
      ]
    ]

-- `struct drv_import_fd_data`, with what `lseek` finds to be the end of each descriptor.
pub record ImportData : Type 0 where
  pub strides : List ℕ
  pub offsets : List ℕ
  pub format_modifier : ℕ
  pub width : ℕ
  pub height : ℕ
  pub format : ℕ
  pub use_flags : ℕ
  pub seek_end : ℕ → Option ℕ

-- The size that plane `p` is given: up to the next plane's offset or to the end of the file.
unfoldable pub import_size : ImportData → ℕ → ℕ → ℕ → ℕ
import_size fd_data num_planes p seek_end =
    if p + 1 == num_planes || get_or fd_data.offsets (p + 1) 0 == 0
    then wrap32 (seek_end + (2 ^ 32 - get_or fd_data.offsets p 0))
    else sub32 (get_or fd_data.offsets (p + 1) 0) (get_or fd_data.offsets p 0)

-- The loop of `drv_bo_import` over the planes from `p` on: `none` is the way to `destroy_bo`.
unfoldable pub import_planes : ImportData → ℕ → ℕ → ℕ → BoMetadata → Option BoMetadata
unfolding import_size
import_planes fd_data num_planes zero p metadata = some metadata
import_planes fd_data num_planes (suc n) p metadata = do
  seek_end ← fd_data.seek_end p
  let size = import_size fd_data num_planes p seek_end
  assert (leb (get_or fd_data.offsets p 0 + size) seek_end)
  import_planes fd_data num_planes n (p + 1) (record metadata {
    strides = set metadata.strides p (get_or fd_data.strides p 0);
    offsets = set metadata.offsets p (get_or fd_data.offsets p 0);
    sizes = set metadata.sizes p size;
    total_size = wrap64 (metadata.total_size + size);
  })

-- `drv_bo_import`, but for the reference that the buffer takes on its inode (`acquired` stands for
-- `drv_bo_acquire`) and gives back on failure.
unfoldable pub drv_bo_import : Backend → Bool → (Bo → Bo) → ImportData → ℕ → Option Bo
unfolding drv_bo_new import_planes
drv_bo_import backend memory acquired fd_data inode = do
  bo ← drv_bo_new memory fd_data.width fd_data.height fd_data.format fd_data.use_flags false
  let (filled, ret) = backend.bo_import bo
  assert (ret == 0)
  let held = acquired (record filled { inode = inode })
  let num_planes = held.metadata.num_planes
  metadata ←
      import_planes fd_data num_planes num_planes 0
        (record held.metadata { format_modifier = fd_data.format_modifier })
  some (record held { metadata = metadata })

-- `drv_bo_get_plane_offset`, `drv_bo_get_plane_size` and `drv_bo_get_plane_stride`.
unfoldable pub drv_bo_get_plane_offset : Bo → ℕ → Option ℕ
drv_bo_get_plane_offset bo plane = do
  assert (ltb plane bo.metadata.num_planes)
  some (get_or bo.metadata.offsets plane 0)

unfoldable pub drv_bo_get_plane_size : Bo → ℕ → Option ℕ
drv_bo_get_plane_size bo plane = do
  assert (ltb plane bo.metadata.num_planes)
  some (get_or bo.metadata.sizes plane 0)

unfoldable pub drv_bo_get_plane_stride : Bo → ℕ → Option ℕ
drv_bo_get_plane_stride bo plane = do
  assert (ltb plane bo.metadata.num_planes)
  some (get_or bo.metadata.strides plane 0)

-- `drv_bo_get_pixel_stride`
unfoldable pub drv_bo_get_pixel_stride : Backend → Bo → Option ℕ
unfolding drv_bytes_per_pixel_from_format div_round_up
drv_bo_get_pixel_stride backend bo = do
  bytes_per_pixel ← drv_bytes_per_pixel_from_format bo.metadata.format 0
  let asked =
      if has_flag bo.metadata.use_flags bo_use_sw_mask
      then elim backend.bo_get_map_stride [ none ↦ 0 | some f ↦ f bo ]
      else 0
  let map_stride = if asked == 0 then get_or bo.metadata.strides 0 0 else asked
  some (div_round_up map_stride bytes_per_pixel)
