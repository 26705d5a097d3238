-- ===== src/Mediatek/Tests.antt =====
-- Runs: NV12 of 640 by 480 pixels, and mappings of it.
use external_minigbm.Base.{ℕ, ◌≡◌, refl, inr, arith, true, false, some, [], ◌∷◌}
use external_minigbm.Drm.{drm_format_nv12, drm_format_yvu420, drm_format_flex_ycbcr_420_888}
use external_minigbm.Flags.{
  bo_use_hw_video_encoder, bo_use_renderscript, bo_use_texture, bo_map_read_write, any_of,
  bo_use_hw_video_decoder,
}
use external_minigbm.Resolve.{clear_flags}
use external_minigbm.Bo.{BoMetadata, Bo, no_planes}
use external_minigbm.Memory.{World}
use external_minigbm.Mediatek.{mt8173, mediatek_resolve_format_and_use_flags}
use external_minigbm.Mediatek.Create.{ObjectAnswers}
use external_minigbm.Mediatek.Shadow.{MapAnswers, mediatek_bo_map}
use external_minigbm.Mediatek.Offered.{Offered, flexible-Offered}
use external_minigbm.Mediatek.Held.{GivenBack, map-GivenBack}
use external_minigbm.Mediatek.Copies.{Carries, map-Carries}

abbrev nv12_metadata : BoMetadata
nv12_metadata = record {
  width = 640;
  height = 480;
  format = drm_format_nv12;
  tiling = 0;
  num_planes = 2;
  offsets = no_planes;
  sizes = no_planes;
  strides = no_planes;
  format_modifier = 0;
  use_flags = any_of (bo_use_hw_video_encoder ∷ bo_use_renderscript ∷ []);
  total_size = 460800;
  cached = false;
}

abbrev nv12_bo : Bo
nv12_bo = record { metadata = nv12_metadata; is_test_buffer = false; handle = 0; inode = 0 }

abbrev answers : ObjectAnswers
answers = record {
  open_heap = inr 5;
  heap_alloc = λ size. inr 6;
  prime_fd_to_handle = λ fd. inr 7;
  gem_create = λ size single_pages. inr 8;
}

abbrev asked : ℕ
asked = any_of (bo_use_texture ∷ bo_use_hw_video_decoder ∷ bo_use_hw_video_encoder ∷ [])

flexible-Offered_example :
    Offered mt8173
      (mediatek_resolve_format_and_use_flags mt8173 drm_format_flex_ycbcr_420_888 asked)
unfolding clear_flags
flexible-Offered_example = flexible-Offered mt8173 asked refl (λ e. ground (arith, e))

flexible_yvu420 :
    mediatek_resolve_format_and_use_flags mt8173 drm_format_flex_ycbcr_420_888 asked
    ≡ (drm_format_yvu420, asked)
unfolding mediatek_resolve_format_and_use_flags
flexible_yvu420 = refl

abbrev map_answers : MapAnswers
map_answers = record {
  map_offset = true;
  plane_fd = some 9;
  mmap = λ length prot. some 1048576;
  calloc_priv = some 4096;
  calloc_cached = some 8388608;
}

abbrev world : World
world = record { bytes = λ a. a; fds = 3 ∷ []; maps = []; blocks = [] }

map-GivenBack_example :
    GivenBack world (mediatek_bo_map nv12_metadata bo_map_read_write map_answers world)
map-GivenBack_example = map-GivenBack nv12_metadata bo_map_read_write map_answers world

map-Carries_example :
    Carries nv12_metadata bo_map_read_write map_answers world 77
      (mediatek_bo_map nv12_metadata bo_map_read_write map_answers world)
map-Carries_example =
    map-Carries nv12_metadata bo_map_read_write map_answers world world 77 refl (inr (omega arith))
      (omega arith)
