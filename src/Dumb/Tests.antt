-- ===== src/Dumb/Tests.antt =====
-- A run of the creation of a dumb buffer: NV12 of 100 by 50 pixels.
use external_minigbm.Base.{
  ℕ, ◌≡◌, refl, ◌⊎◌, inl, inr, ◌==◌, ◌&&◌, arith, Returns, if◌then◌else◌, false,
}
use external_minigbm.Drm.{drm_format_nv12}
use external_minigbm.Flags.{bo_quirk_none}
use external_minigbm.Layout.{biplanar_yuv_420_layout, layout_from_format, one_of}
use external_minigbm.Bo.{Bo, no_planes}
use external_minigbm.Dumb.{DumbRequest, DumbAnswer, drv_dumb_bo_create_ex}
use external_minigbm.Dumb.Asked.{IsHonest}
use external_minigbm.Dumb.Fits.{DumbOutcome, dumb_create-Fits}

abbrev square_answer : DumbAnswer
square_answer = record { handle = 5; pitch = 128; size = 16384 }

-- A kernel that allocates 128 rows of 128 bytes, and nothing else.
abbrev square_kernel : DumbRequest → ℕ ⊎ DumbAnswer
square_kernel request =
    if request.width == 128 && request.height == 128 && request.bpp == 8
    then inr square_answer
    else inl 12

square_kernel-IsHonest :
    (request : DumbRequest) (answer : DumbAnswer)
    → square_kernel request ≡ inr answer
    → IsHonest request answer
square_kernel-IsHonest request answer e = record {
  row = ground arith;
  rows = ground arith;
  pitch_fits = ground arith;
  size_fits = ground arith;
}

abbrev new_bo : Bo
new_bo = record {
  metadata = record {
    width = 100;
    height = 50;
    format = drm_format_nv12;
    tiling = 0;
    num_planes = 2;
    offsets = no_planes;
    sizes = no_planes;
    strides = no_planes;
    format_modifier = 0;
    use_flags = 1;
    total_size = 0;
    cached = false;
  };
  is_test_buffer = false;
  handle = 0;
  inode = 0;
}

dumb_create-Fits_example :
    Returns
      (DumbOutcome square_kernel new_bo 100 50 drm_format_nv12 bo_quirk_none
        biplanar_yuv_420_layout)
      (drv_dumb_bo_create_ex square_kernel new_bo 100 50 drm_format_nv12 bo_quirk_none)
unfolding layout_from_format one_of
dumb_create-Fits_example =
    dumb_create-Fits square_kernel new_bo 100 50 drm_format_nv12 bo_quirk_none refl (omega arith)
      (record { offsets_room = refl; sizes_room = refl; strides_room = refl }) (omega arith)
      (omega arith) square_kernel-IsHonest
