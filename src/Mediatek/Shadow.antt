-- ===== src/Mediatek/Shadow.antt =====
-- mediatek.c: mappings of a buffer, with a cached copy for RenderScript.
use external_minigbm.Base.{ℕ, Bool, Option, none, some, List, ◌∷◌, if◌then◌else◌, has_flag}
use external_minigbm.Flags.{bo_use_renderscript, bo_map_write}
use external_minigbm.Bo.{BoMetadata}
use external_minigbm.Memory.{World, memcpy, cleared, drop, BackendVma, drv_get_prot}

-- `struct mediatek_private_map_data`, with the address of its own block.
pub record MapData : Type 0 where
  pub block : ℕ
  pub cached_addr : Option ℕ
  pub gem_addr : ℕ
  pub prime_fd : ℕ

-- What is answered: whether DRM_IOCTL_MTK_GEM_MAP_OFFSET works, the file descriptor of the first plane,
-- mmap's address for a length and a protection, and the blocks of the two callocs.
pub record MapAnswers : Type 0 where
  pub map_offset : Bool
  pub plane_fd : Option ℕ
  pub mmap : ℕ → ℕ → Option ℕ
  pub calloc_priv : Option ℕ
  pub calloc_cached : Option ℕ

-- The labels at the end of `mediatek_bo_map`, each going on to the next.
unfoldable pub out_close_prime_fd : ℕ → World → World
unfolding drop
out_close_prime_fd prime_fd w = record w { fds = drop prime_fd w.fds }

unfoldable pub out_unmap_addr : ℕ → ℕ → World → World
unfolding out_close_prime_fd drop
out_unmap_addr prime_fd addr w = out_close_prime_fd prime_fd (record w { maps = drop addr w.maps })

unfoldable pub out_free_priv : ℕ → ℕ → ℕ → World → World
unfolding out_unmap_addr drop
out_free_priv prime_fd addr priv w =
    out_unmap_addr prime_fd addr (record w { blocks = drop priv w.blocks })

abbrev pub MapOutcome : Type 0
MapOutcome = World × Option (BackendVma MapData)

module _ (metadata : BoMetadata) (map_flags : ℕ) where
  -- The mapping of the copy.
  abbrev pub shadow_vma : ℕ → ℕ → ℕ → ℕ → BackendVma MapData
  shadow_vma prime_fd addr priv cached = record {
    addr = cached;
    length = metadata.total_size;
    map_flags = map_flags;
    priv =
        some (record {
          block = priv;
          cached_addr = some cached;
          gem_addr = addr;
          prime_fd = prime_fd;
        });
  }

  -- From the calloc of the cached copy on.
  unfoldable pub map_cached : ℕ → ℕ → ℕ → Option ℕ → World → MapOutcome
  unfolding out_free_priv cleared
  map_cached prime_fd addr priv none w = (out_free_priv prime_fd addr priv w, none)
  map_cached prime_fd addr priv (some cached) w = (
    record w { blocks = cached ∷ w.blocks; bytes = cleared w.bytes cached metadata.total_size },
    some (shadow_vma prime_fd addr priv cached),
  )

  -- From the calloc of the private data on.
  unfoldable pub map_private : ℕ → ℕ → Option ℕ → Option ℕ → World → MapOutcome
  unfolding out_unmap_addr map_cached
  map_private prime_fd addr none cached w = (out_unmap_addr prime_fd addr w, none)
  map_private prime_fd addr (some priv) cached w =
      let held = record w { blocks = priv ∷ w.blocks } in
      if has_flag metadata.use_flags bo_use_renderscript
      then map_cached prime_fd addr priv cached held
      else (
        held,
        some (record {
          addr = addr;
          length = metadata.total_size;
          map_flags = map_flags;
          priv =
              some (record { block = priv; cached_addr = none; gem_addr = 0; prime_fd = prime_fd });
        }),
      )

  -- From mmap on.
  unfoldable pub map_region : ℕ → Option ℕ → Option ℕ → Option ℕ → World → MapOutcome
  unfolding out_close_prime_fd map_private
  map_region prime_fd none priv cached w = (out_close_prime_fd prime_fd w, none)
  map_region prime_fd (some addr) priv cached w =
      map_private prime_fd addr priv cached (record w { maps = addr ∷ w.maps })

  -- From the file descriptor of the first plane on.
  unfoldable pub map_plane : Option ℕ → Option ℕ → Option ℕ → Option ℕ → World → MapOutcome
  unfolding map_region
  map_plane none region priv cached w = (w, none)
  map_plane (some prime_fd) region priv cached w =
      map_region prime_fd region priv cached (record w { fds = prime_fd ∷ w.fds })

  unfoldable pub mediatek_bo_map : MapAnswers → World → MapOutcome
  unfolding map_plane drv_get_prot
  mediatek_bo_map answers w =
      if answers.map_offset
      then map_plane answers.plane_fd (answers.mmap metadata.total_size (drv_get_prot map_flags))
          answers.calloc_priv answers.calloc_cached w
      else (w, none)

-- The address to unmap, and the blocks without the copy.
unfoldable pub mapped_addr : Option ℕ → ℕ → ℕ → ℕ
mapped_addr none gem_addr addr = addr
mapped_addr (some cached) gem_addr addr = gem_addr

unfoldable pub free_cached : Option ℕ → List ℕ → List ℕ
unfolding drop
free_cached none blocks = blocks
free_cached (some cached) blocks = drop cached blocks

unfoldable pub mediatek_bo_unmap : BackendVma MapData → World → World
unfolding mapped_addr free_cached drop
mediatek_bo_unmap vma w = elim vma.priv [
  | none ↦ record w { maps = drop vma.addr w.maps }
  | some priv ↦ record w {
    fds = drop priv.prime_fd w.fds;
    blocks = drop priv.block (free_cached priv.cached_addr w.blocks);
    maps = drop (mapped_addr priv.cached_addr priv.gem_addr vma.addr) w.maps;
  }
]

-- The wait for the fence of `prime_fd` changes nothing here.
unfoldable pub mediatek_bo_invalidate : BoMetadata → BackendVma MapData → World → World
unfolding memcpy
mediatek_bo_invalidate metadata vma w = elim vma.priv [
  | none ↦ w
  | some priv ↦ elim priv.cached_addr [
    | none ↦ w
    | some cached ↦ record w { bytes = memcpy w.bytes cached priv.gem_addr metadata.total_size }
  ]
]

unfoldable pub mediatek_bo_flush : BoMetadata → BackendVma MapData → World → World
unfolding memcpy
mediatek_bo_flush metadata vma w = elim vma.priv [
  | none ↦ w
  | some priv ↦ elim priv.cached_addr [
    | none ↦ w
    | some cached ↦
        let published = memcpy w.bytes priv.gem_addr cached metadata.total_size in
        if has_flag vma.map_flags bo_map_write then record w { bytes = published } else w
  ]
]
