-- ===== src/Rockchip/Tests.antt =====
-- Runs of the AFBC layout and of the creation: 1920 by 1080 pixels.
use external_minigbm.Base.{
  ℕ, ◌+◌, ◌*◌, ◌≡◌, ◌⊎◌, inr, refl, some, arith, true, false, [], ◌∷◌, Returns,
}
use external_minigbm.Drm.{drm_format_argb8888, drm_format_mod_rockchip_afbc}
use external_minigbm.Layout.{layout_from_format, one_of}
use external_minigbm.Bo.{BoMetadata, Bo, no_planes}
use external_minigbm.Planes.Contiguous.{HasArrays}
use external_minigbm.Rockchip.{afbc_bo_from_format, rockchip_bo_create_with_modifiers}
use external_minigbm.Rockchip.Afbc.{IsAfbc, bo_from_format-IsAfbc}
use external_minigbm.Flags.{bo_use_renderscript, bo_map_read_write}
use external_minigbm.Memory.{World}
use external_minigbm.Rockchip.Shadow.{MapAnswers, rockchip_bo_map}
use external_minigbm.Rockchip.Mapped.{Sound, map-Sound}
use external_minigbm.Rockchip.Modifier.{IsOffered, create_with_modifiers-IsOffered}

abbrev argb_metadata : BoMetadata
argb_metadata = record {
  width = 1920;
  height = 1080;
  format = drm_format_argb8888;
  tiling = 0;
  num_planes = 1;
  offsets = no_planes;
  sizes = no_planes;
  strides = no_planes;
  format_modifier = 0;
  use_flags = 1;
  total_size = 0;
  cached = false;
}

argb_metadata-HasArrays : HasArrays argb_metadata
argb_metadata-HasArrays = record { offsets_room = refl; sizes_room = refl; strides_room = refl }

bo_from_format-IsAfbc_example :
    IsAfbc 1920 1080 (afbc_bo_from_format argb_metadata 1920 1080 drm_format_mod_rockchip_afbc)
bo_from_format-IsAfbc_example =
    bo_from_format-IsAfbc argb_metadata 1920 1080 drm_format_mod_rockchip_afbc
      argb_metadata-HasArrays (omega arith) (omega arith)

abbrev argb_bo : Bo
argb_bo = record { metadata = argb_metadata; is_test_buffer = false; handle = 0; inode = 0 }

abbrev handle_9 : ℕ → ℕ ⊎ ℕ
handle_9 size = inr 9

create_with_modifiers-IsOffered_example :
    Returns
      (IsOffered 1 true handle_9 argb_bo 1920 1080 drm_format_argb8888
        (drm_format_mod_rockchip_afbc ∷ []))
      (rockchip_bo_create_with_modifiers 1 true handle_9 argb_bo 1920 1080 drm_format_argb8888
        (drm_format_mod_rockchip_afbc ∷ []))
unfolding layout_from_format one_of
create_with_modifiers-IsOffered_example =
    create_with_modifiers-IsOffered 1 true handle_9 argb_bo 1920 1080 drm_format_argb8888
      (drm_format_mod_rockchip_afbc ∷ []) refl argb_metadata-HasArrays (omega arith)

abbrev copied_metadata : BoMetadata
copied_metadata = record argb_metadata { use_flags = bo_use_renderscript; total_size = 4096 }

abbrev map_answers : MapAnswers
map_answers = record {
  map_offset = true;
  mmap = λ length prot. some 1048576;
  calloc_priv = some 4096;
  calloc_cached = some 8388608;
}

abbrev world : World
world = record { bytes = λ a. a; fds = []; maps = []; blocks = [] }

map-Sound_example :
    Sound copied_metadata bo_map_read_write
      (some 1048576)
      world
      world
      77
      (rockchip_bo_map copied_metadata bo_map_read_write 1 map_answers world)
map-Sound_example =
    map-Sound copied_metadata bo_map_read_write 1 map_answers world world 77 refl
      (inr (omega arith)) (omega arith)

-- 120 by 68 blocks.
afbc_total :
    (afbc_bo_from_format argb_metadata 1920 1080 drm_format_mod_rockchip_afbc).total_size
    ≡ 131072 + 8160 * 1024
unfolding afbc_bo_from_format
afbc_total = refl
