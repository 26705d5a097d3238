-- ===== src/Rockchip/Shadow.antt =====
-- rockchip.c: mappings of a buffer, with a cached copy for RenderScript.
use external_minigbm.Base.{
  ℕ, Bool, not, ◌&&◌, ◌||◌, Option, none, some, ◌∷◌, ◌==◌, if◌then◌else◌, has_flag,
}
use external_minigbm.Drm.{drm_format_mod_rockchip_afbc}
use external_minigbm.Flags.{bo_use_renderscript, bo_map_write}
use external_minigbm.Bo.{BoMetadata}
use external_minigbm.Memory.{World, memcpy, cleared, drop, BackendVma, drv_get_prot}

-- `struct rockchip_private_map_data`, with the address of its own block.
pub record MapData : Type 0 where
  pub block : ℕ
  pub cached_addr : ℕ
  pub gem_addr : ℕ

-- What is answered: whether DRM_IOCTL_ROCKCHIP_GEM_MAP_OFFSET works, mmap's address for a length and a
-- protection, and the blocks of the two callocs.
pub record MapAnswers : Type 0 where
  pub map_offset : Bool
  pub mmap : ℕ → ℕ → Option ℕ
  pub calloc_priv : Option ℕ
  pub calloc_cached : Option ℕ

-- The labels at the end of `rockchip_bo_map`.
unfoldable pub out_unmap_addr : ℕ → World → World
unfolding drop
out_unmap_addr addr w = record w { maps = drop addr w.maps }

unfoldable pub out_free_priv : ℕ → ℕ → World → World
unfolding out_unmap_addr drop
out_free_priv addr priv w = out_unmap_addr addr (record w { blocks = drop priv w.blocks })

abbrev pub MapOutcome : Type 0
MapOutcome = World × Option (BackendVma MapData)

module _ (metadata : BoMetadata) (map_flags : ℕ) where
  -- The mapping of the object itself, and that of the copy.
  abbrev pub plain_vma : ℕ → BackendVma MapData
  plain_vma addr = record {
    addr = addr;
    length = metadata.total_size;
    map_flags = map_flags;
    priv = none;
  }

  abbrev pub shadow_vma : ℕ → ℕ → ℕ → BackendVma MapData
  shadow_vma addr priv cached = record {
    addr = cached;
    length = metadata.total_size;
    map_flags = map_flags;
    priv = some (record { block = priv; cached_addr = cached; gem_addr = addr });
  }

  -- The copy, from the calloc of the private data on.
  unfoldable pub map_cached : ℕ → Option ℕ → Option ℕ → World → MapOutcome
  unfolding out_free_priv out_unmap_addr cleared
  map_cached addr none cached w = (out_unmap_addr addr w, none)
  map_cached addr (some priv) none w =
      (out_free_priv addr priv (record w { blocks = priv ∷ w.blocks }), none)
  map_cached addr (some priv) (some cached) w = (
    record w {
      blocks = cached ∷ priv ∷ w.blocks;
      bytes = cleared w.bytes cached metadata.total_size;
    },
    some (shadow_vma addr priv cached),
  )

  -- From mmap on.
  unfoldable pub map_region : Option ℕ → Option ℕ → Option ℕ → World → MapOutcome
  unfolding map_cached
  map_region none priv cached w = (w, none)
  map_region (some addr) priv cached w =
      let held = record w { maps = addr ∷ w.maps } in
      if has_flag metadata.use_flags bo_use_renderscript
      then map_cached addr priv cached held
      else (held, some (plain_vma addr))

  -- `chromeos_afbc` is DRM_FORMAT_MOD_CHROMEOS_ROCKCHIP_AFBC.
  unfoldable pub rockchip_bo_map : ℕ → MapAnswers → World → MapOutcome
  unfolding map_region drv_get_prot
  rockchip_bo_map chromeos_afbc answers w =
      let compressed =
        metadata.format_modifier == chromeos_afbc
        || metadata.format_modifier == drm_format_mod_rockchip_afbc in
      if not compressed && answers.map_offset
      then map_region (answers.mmap metadata.total_size (drv_get_prot map_flags))
          answers.calloc_priv answers.calloc_cached w
      else (w, none)

unfoldable pub rockchip_bo_unmap : BackendVma MapData → World → World
unfolding drop
rockchip_bo_unmap vma w = elim vma.priv [
  | none ↦ record w { maps = drop vma.addr w.maps }
  | some priv ↦ record w {
    blocks = drop priv.block (drop priv.cached_addr w.blocks);
    maps = drop priv.gem_addr w.maps;
  }
]

unfoldable pub rockchip_bo_invalidate : BoMetadata → BackendVma MapData → World → World
unfolding memcpy
rockchip_bo_invalidate metadata vma w = elim vma.priv [
  | none ↦ w
  | some priv ↦ record w {
    bytes = memcpy w.bytes priv.cached_addr priv.gem_addr metadata.total_size;
  }
]

unfoldable pub rockchip_bo_flush : BoMetadata → BackendVma MapData → World → World
unfolding memcpy
rockchip_bo_flush metadata vma w = elim vma.priv [
  | none ↦ w
  | some priv ↦
      let published = memcpy w.bytes priv.gem_addr priv.cached_addr metadata.total_size in
      if has_flag vma.map_flags bo_map_write then record w { bytes = published } else w
]
