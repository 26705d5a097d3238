-- ===== src/Flags.antt =====
-- The buffer use flags, quirks and map flags of drv.h, and the masks of drv_priv.h.
use external_minigbm.Base.{ℕ, ◌^◌, bit_or, List, [], ◌∷◌}

abbrev pub bo_use_none : ℕ
bo_use_none = 0

abbrev pub bo_use_scanout : ℕ
bo_use_scanout = 2 ^ 0

abbrev pub bo_use_cursor : ℕ
bo_use_cursor = 2 ^ 1

abbrev pub bo_use_rendering : ℕ
bo_use_rendering = 2 ^ 2

abbrev pub bo_use_linear : ℕ
bo_use_linear = 2 ^ 4

abbrev pub bo_use_texture : ℕ
bo_use_texture = 2 ^ 5

abbrev pub bo_use_camera_write : ℕ
bo_use_camera_write = 2 ^ 6

abbrev pub bo_use_camera_read : ℕ
bo_use_camera_read = 2 ^ 7

abbrev pub bo_use_protected : ℕ
bo_use_protected = 2 ^ 8

abbrev pub bo_use_sw_read_often : ℕ
bo_use_sw_read_often = 2 ^ 9

abbrev pub bo_use_sw_read_rarely : ℕ
bo_use_sw_read_rarely = 2 ^ 10

abbrev pub bo_use_sw_write_often : ℕ
bo_use_sw_write_often = 2 ^ 11

abbrev pub bo_use_sw_write_rarely : ℕ
bo_use_sw_write_rarely = 2 ^ 12

abbrev pub bo_use_hw_video_decoder : ℕ
bo_use_hw_video_decoder = 2 ^ 13

abbrev pub bo_use_hw_video_encoder : ℕ
bo_use_hw_video_encoder = 2 ^ 14

abbrev pub bo_use_test_alloc : ℕ
bo_use_test_alloc = 2 ^ 15

abbrev pub bo_use_front_rendering : ℕ
bo_use_front_rendering = 2 ^ 16

abbrev pub bo_use_renderscript : ℕ
bo_use_renderscript = 2 ^ 17

abbrev pub bo_use_gpu_data_buffer : ℕ
bo_use_gpu_data_buffer = 2 ^ 18

abbrev pub bo_use_sensor_direct_data : ℕ
bo_use_sensor_direct_data = 2 ^ 19

abbrev pub bo_use_arc_screen_cap_probed : ℕ
bo_use_arc_screen_cap_probed = 2 ^ 63

abbrev pub bo_quirk_none : ℕ
bo_quirk_none = 0

abbrev pub bo_quirk_dumb32bpp : ℕ
bo_quirk_dumb32bpp = 2 ^ 0

abbrev pub bo_map_none : ℕ
bo_map_none = 0

abbrev pub bo_map_read : ℕ
bo_map_read = 2 ^ 0

abbrev pub bo_map_write : ℕ
bo_map_write = 2 ^ 1

abbrev pub bo_map_read_write : ℕ
bo_map_read_write = bit_or bo_map_read bo_map_write

-- `a | b | ...`
abbrev pub any_of : List ℕ → ℕ
any_of [] = 0
any_of (flag ∷ flags) = bit_or flag (any_of flags)

abbrev pub bo_use_sw_mask : ℕ
bo_use_sw_mask = any_of (
    bo_use_sw_read_often ∷ bo_use_sw_write_often ∷ bo_use_sw_read_rarely ∷ bo_use_sw_write_rarely
    ∷ bo_use_front_rendering ∷ [])

abbrev pub bo_use_texture_mask : ℕ
bo_use_texture_mask = any_of (
    bo_use_linear ∷ bo_use_renderscript ∷ bo_use_sw_read_often ∷ bo_use_sw_write_often
    ∷ bo_use_sw_read_rarely ∷ bo_use_sw_write_rarely ∷ bo_use_texture ∷ bo_use_front_rendering ∷ [])

abbrev pub bo_use_render_mask : ℕ
bo_use_render_mask = any_of (
    bo_use_linear ∷ bo_use_rendering ∷ bo_use_renderscript ∷ bo_use_sw_read_often
    ∷ bo_use_sw_write_often ∷ bo_use_sw_read_rarely ∷ bo_use_sw_write_rarely ∷ bo_use_texture
    ∷ bo_use_front_rendering ∷ [])

abbrev pub bo_use_gpu_hw : ℕ
bo_use_gpu_hw = any_of (bo_use_rendering ∷ bo_use_texture ∷ bo_use_gpu_data_buffer ∷ [])

abbrev pub bo_use_non_gpu_hw : ℕ
bo_use_non_gpu_hw = any_of (
    bo_use_scanout ∷ bo_use_camera_write ∷ bo_use_camera_read ∷ bo_use_hw_video_encoder
    ∷ bo_use_hw_video_decoder ∷ bo_use_sensor_direct_data ∷ [])

abbrev pub bo_use_hw_mask : ℕ
bo_use_hw_mask = bit_or bo_use_gpu_hw bo_use_non_gpu_hw
