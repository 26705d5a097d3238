-- ===== src/Bo.antt =====
-- drv_priv.h: a buffer object and its metadata.
use external_minigbm.Base.{ℕ, Bool, List, [], ◌∷◌}

-- `struct bo_metadata`. The arrays have one entry for each of the DRV_MAX_PLANES planes. The fields
-- that only the cross-domain backend reads (`blob_id` to `physical_device_idx`) are left out.
pub record BoMetadata : Type 0 where
  pub width : ℕ
  pub height : ℕ
  pub format : ℕ
  pub tiling : ℕ
  pub num_planes : ℕ
  pub offsets : List ℕ
  pub sizes : List ℕ
  pub strides : List ℕ
  pub format_modifier : ℕ
  pub use_flags : ℕ
  pub total_size : ℕ
  pub cached : Bool

-- `struct bo`, without its pointers to the driver and to the backend's data. The handle is the
-- `u32` member of its union.
pub record Bo : Type 0 where
  pub metadata : BoMetadata
  pub is_test_buffer : Bool
  pub handle : ℕ
  pub inode : ℕ

abbrev pub drv_max_planes : ℕ
drv_max_planes = 4

abbrev pub no_planes : List ℕ
no_planes = 0 ∷ 0 ∷ 0 ∷ 0 ∷ []
