-- ===== src/Buffers/Tests.antt =====
-- Runs of making and importing buffers.
use external_minigbm.Base.{◌≡◌, refl, true, false, none, some, [], ◌∷◌, arith}
use external_minigbm.Bo.{BoMetadata}
use external_minigbm.Drm.{drm_format_nv12}
use external_minigbm.Flags.{bo_use_texture}
use external_minigbm.Planes.Contiguous.{HasArrays}
use external_minigbm.Resolve.{clear_flags}
use external_minigbm.Buffers.{
  Backend, ImportData, drv_bo_new, drv_bo_create, new_metadata, import_planes, import_size,
}
use external_minigbm.Buffers.Created.{Consistent, create-Consistent}
use external_minigbm.Buffers.Imported.{InFile, import-InFile}

-- A backend that makes every buffer it is asked for, with handle 5.
abbrev willing : Backend
willing = record {
  bo_create = λ bo. (record bo { handle = 5 }, 0);
  bo_create_v2 = none;
  bo_create_with_modifiers = none;
  bo_metadata = none;
  bo_import = λ bo. (bo, 0);
  bo_get_map_stride = none;
}

create-Consistent_example :
    Consistent willing
      (drv_bo_new true 640 480 drm_format_nv12 bo_use_texture false)
      false
      false
      (drv_bo_create willing true 640 480 drm_format_nv12 bo_use_texture false)
unfolding clear_flags
create-Consistent_example =
    create-Consistent willing true 640 480 drm_format_nv12 bo_use_texture false

-- An NV12 buffer in one file.
abbrev camera_frame : ImportData
camera_frame = record {
  strides = 640 ∷ 640 ∷ 0 ∷ 0 ∷ [];
  offsets = 0 ∷ 307200 ∷ 0 ∷ 0 ∷ [];
  format_modifier = 0;
  width = 640;
  height = 480;
  format = drm_format_nv12;
  use_flags = bo_use_texture;
  seek_end = λ p. some 460800;
}

abbrev empty_frame : BoMetadata
empty_frame = new_metadata 640 480 drm_format_nv12 bo_use_texture

empty_frame-HasArrays : HasArrays empty_frame
empty_frame-HasArrays = record { offsets_room = refl; sizes_room = refl; strides_room = refl }

abbrev filled_frame : BoMetadata
filled_frame = record empty_frame {
  strides = 640 ∷ 640 ∷ 0 ∷ 0 ∷ [];
  offsets = 0 ∷ 307200 ∷ 0 ∷ 0 ∷ [];
  sizes = 307200 ∷ 153600 ∷ 0 ∷ 0 ∷ [];
  total_size = 460800;
}

camera_frame_filled : import_planes camera_frame 2 2 0 empty_frame ≡ some filled_frame
unfolding import_planes import_size
camera_frame_filled = refl

import-InFile_example : InFile camera_frame 2 filled_frame 1
import-InFile_example =
    import-InFile camera_frame 2 empty_frame empty_frame-HasArrays (omega arith) camera_frame_filled
      1 (omega arith)
