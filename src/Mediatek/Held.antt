-- ===== src/Mediatek/Held.antt =====
-- A mapping gives back what it took.
use external_minigbm.Base.{ℕ, refl, Option, none, some, inl, inr, Bool-cases, has_flag, ◌∷◌}
use external_minigbm.Flags.{bo_use_renderscript}
use external_minigbm.Bo.{BoMetadata}
use external_minigbm.Memory.{World, cleared, drop-latest, drv_get_prot}
use external_minigbm.Mediatek.Shadow.{
  MapAnswers, MapOutcome, out_close_prime_fd, out_unmap_addr, out_free_priv, map_cached,
  map_private, map_region, map_plane, mediatek_bo_map, mediatek_bo_unmap, mapped_addr, free_cached,
}
use external_minigbm.Memory.Held.{SameHeld, held_again}

-- A mapping that fails holds nothing more; one that works does not after it is unmapped.
abbrev pub GivenBack : World → MapOutcome → Type 0
GivenBack w (w', none) = SameHeld w w'
GivenBack w (w', some vma) = SameHeld w (mediatek_bo_unmap vma w')

module _ (metadata : BoMetadata) (map_flags : ℕ) where
  private_GivenBack :
      (prime_fd addr : ℕ) (priv cached : Option ℕ) (w : World)
      → GivenBack w (
          map_private metadata map_flags prime_fd addr priv cached
            (record w { maps = addr ∷ w.maps; fds = prime_fd ∷ w.fds }))
  unfolding map_private map_cached out_close_prime_fd out_unmap_addr out_free_priv mediatek_bo_unmap
      mapped_addr free_cached
  private_GivenBack prime_fd addr none cached w = held_again prime_fd addr w w.bytes w.blocks refl
  private_GivenBack prime_fd addr (some priv) cached w =
      elim (Bool-cases (has_flag metadata.use_flags bo_use_renderscript)) [
        | inl copied ↦ rw copied (with_copy cached)
        | inr plain ↦ rw plain (held_again prime_fd addr w w.bytes _ (drop-latest priv w.blocks))
      ]
    where
      with_copy :
          (cached : Option ℕ)
          → GivenBack w (
              map_cached metadata map_flags prime_fd addr priv cached (record w {
                maps = addr ∷ w.maps;
                fds = prime_fd ∷ w.fds;
                blocks = priv ∷ w.blocks;
              }))
      with_copy none = held_again prime_fd addr w w.bytes _ (drop-latest priv w.blocks)
      with_copy (some c) =
          held_again prime_fd addr w (cleared w.bytes c metadata.total_size) _
            (rw (drop-latest c (priv ∷ w.blocks)) (drop-latest priv w.blocks))

  plane_GivenBack :
      (prime_fd region priv cached : Option ℕ) (w : World)
      → GivenBack w (map_plane metadata map_flags prime_fd region priv cached w)
  unfolding map_plane map_region out_close_prime_fd
  plane_GivenBack none region priv cached w = record {
    same_fds = refl;
    same_maps = refl;
    same_blocks = refl;
  }
  plane_GivenBack (some fd) none priv cached w = record {
    same_fds = drop-latest fd w.fds;
    same_maps = refl;
    same_blocks = refl;
  }
  plane_GivenBack (some fd) (some addr) priv cached w = private_GivenBack fd addr priv cached w

  -- Whatever the kernel and the heap answer: a mapping that fails holds no file descriptor, region or
  -- block more than before, and neither does one that works once mediatek_bo_unmap has undone it.
  pub map-GivenBack :
      (answers : MapAnswers) (w : World)
      → GivenBack w (mediatek_bo_map metadata map_flags answers w)
  unfolding mediatek_bo_map
  map-GivenBack answers w = elim (Bool-cases answers.map_offset) [
    | inl mapped ↦
        rw (mediatek_bo_map, mapped)
          (plane_GivenBack answers.plane_fd
            (answers.mmap metadata.total_size (drv_get_prot map_flags)) answers.calloc_priv
            answers.calloc_cached w)
    | inr unmapped ↦
        rw (mediatek_bo_map, unmapped)
          (record { same_fds = refl; same_maps = refl; same_blocks = refl })
  ]
