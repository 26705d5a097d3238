-- ===== src/Vc4/Tests.antt =====
-- Runs of the creation: RGB565 of 100 by 50 pixels.
use external_minigbm.Base.{ℕ, ◌≡◌, ◌⊎◌, inl, inr, refl, arith, false, some, [], Returns}
use external_minigbm.Drm.{drm_format_rgb565, drm_format_r8}
use external_minigbm.Errors.{einval}
use external_minigbm.Flags.{bo_use_rendering}
use external_minigbm.Layout.{layout_from_format, one_of, packed_2bpp_layout}
use external_minigbm.Bo.{Bo, no_planes}
use external_minigbm.Planes.Contiguous.{HasArrays}
use external_minigbm.Vc4.{vc4_init, vc4_bo_create}
use external_minigbm.Vc4.Linear.{Vc4Outcome, vc4_create-Vc4Outcome}

abbrev rgb_bo : Bo
rgb_bo = record {
  metadata = record {
    width = 100;
    height = 50;
    format = drm_format_rgb565;
    tiling = 0;
    num_planes = 1;
    offsets = no_planes;
    sizes = no_planes;
    strides = no_planes;
    format_modifier = 0;
    use_flags = 1;
    total_size = 0;
    cached = false;
  };
  is_test_buffer = false;
  handle = 0;
  inode = 0;
}

abbrev handle_9 : ℕ → ℕ ⊎ ℕ
handle_9 size = inr 9

rgb_known : layout_from_format drm_format_rgb565 ≡ some packed_2bpp_layout
unfolding layout_from_format one_of
rgb_known = refl

rgb_room : HasArrays rgb_bo.metadata
rgb_room = record { offsets_room = refl; sizes_room = refl; strides_room = refl }

vc4_create-Vc4Outcome_example :
    Returns
      (Vc4Outcome handle_9 rgb_bo 100 50 drm_format_rgb565 bo_use_rendering rgb_known rgb_room
        (omega arith))
      (vc4_bo_create (vc4_init []) handle_9 rgb_bo 100 50 drm_format_rgb565 bo_use_rendering)
vc4_create-Vc4Outcome_example =
    vc4_create-Vc4Outcome handle_9 rgb_bo 100 50 drm_format_rgb565 bo_use_rendering rgb_known
      rgb_room (omega arith)

unsupported :
    vc4_bo_create (vc4_init []) handle_9 rgb_bo 100 50 drm_format_r8 bo_use_rendering
    ≡ some (inl einval)
unfolding vc4_bo_create vc4_init
unsupported = refl
