-- ===== src/Rockchip/Mapped.antt =====
-- A mapping gives back what it took, and the copy and the object carry the same bytes.
use external_minigbm.Base.{
  ℕ, ◌<◌, ◌≡◌, refl, true, not, ◌&&◌, ◌||◌, Option, none, some, inl, inr, ◌∷◌, Bool-cases, has_flag,
  ◌==◌,
}
use external_minigbm.Drm.{drm_format_mod_rockchip_afbc}
use external_minigbm.Flags.{bo_use_renderscript, bo_map_write}
use external_minigbm.Bo.{BoMetadata}
use external_minigbm.Memory.{World, drop-latest, drv_get_prot}
use external_minigbm.Memory.Copy.{Apart, Carried, Apart-sym, memcpy-copied, memcpy-kept}
use external_minigbm.Memory.Held.{SameHeld}
use external_minigbm.Rockchip.Shadow.{
  MapAnswers, MapOutcome, out_unmap_addr, out_free_priv, shadow_vma, map_cached, map_region,
  rockchip_bo_map, rockchip_bo_unmap, rockchip_bo_invalidate, rockchip_bo_flush,
}

-- A mapping that fails holds nothing more; one that works does not after it is unmapped.
abbrev pub GivenBack : World → MapOutcome → Type 0
GivenBack w (w', none) = SameHeld w w'
GivenBack w (w', some vma) = SameHeld w (rockchip_bo_unmap vma w')

module _ (metadata : BoMetadata) (map_flags : ℕ) where
  -- The bytes of the mapping, where there is one, and those of the object at `object`, at offset `i`.
  abbrev pub Carries : Option ℕ → World → ℕ → MapOutcome → Type 0
  Carries region later i (w', none) = Unit
  Carries region later i (w', some vma) =
      (object : ℕ) × (region ≡ some object)
      × Carried later (rockchip_bo_flush metadata vma later)
          (rockchip_bo_invalidate metadata vma later) vma.addr object i

  -- The copy is a block of its own.
  abbrev pub IsApart : Option ℕ → Option ℕ → Type 0
  IsApart (some object) (some cached) = Apart cached object metadata.total_size
  IsApart object cached = Unit

  -- Both promises of a mapping.
  abbrev pub Sound : Option ℕ → World → World → ℕ → MapOutcome → Type 0
  Sound region w later i m = GivenBack w m × Carries region later i m

  shadow-Carried :
      (later : World) (priv cached object i : ℕ)
      → has_flag map_flags bo_map_write ≡ true
      → Apart cached object metadata.total_size
      → i < metadata.total_size
      → let vma = shadow_vma metadata map_flags object priv cached in
        Carried later
          (rockchip_bo_flush metadata vma later)
          (rockchip_bo_invalidate metadata vma later)
          cached
          object
          i
  unfolding rockchip_bo_flush rockchip_bo_invalidate
  shadow-Carried later priv cached object i writes apart lt =
      let n = metadata.total_size in
      rw writes (record {
        published = memcpy-copied later.bytes object cached n i lt;
        kept =
            memcpy-kept later.bytes object cached n cached i (Apart-sym cached object n apart) lt;
        fetched = memcpy-copied later.bytes cached object n i lt;
        untouched = memcpy-kept later.bytes cached object n object i apart lt;
      })

  cached-Sound :
      (w later : World) (i object : ℕ) (priv cached : Option ℕ)
      → has_flag map_flags bo_map_write ≡ true
      → IsApart (some object) cached
      → i < metadata.total_size
      → Sound
          (some object)
          w
          later
          i
          (map_cached metadata map_flags object priv cached (record w { maps = object ∷ w.maps }))
  unfolding map_cached out_unmap_addr out_free_priv rockchip_bo_unmap
  cached-Sound w later i object none cached writes apart lt =
      (record { same_fds = refl; same_maps = drop-latest object w.maps; same_blocks = refl }, tt)
  cached-Sound w later i object (some priv) none writes apart lt = (
    record {
      same_fds = refl;
      same_maps = drop-latest object w.maps;
      same_blocks = drop-latest priv w.blocks;
    },
    tt,
  )
  cached-Sound w later i object (some priv) (some cached) writes apart lt = (
    record {
      same_fds = refl;
      same_maps = drop-latest object w.maps;
      same_blocks = rw (drop-latest cached (priv ∷ w.blocks)) (drop-latest priv w.blocks);
    },
    (object, refl, shadow-Carried later priv cached object i writes apart lt),
  )

  region-Sound :
      (w later : World) (i : ℕ) (region priv cached : Option ℕ)
      → has_flag map_flags bo_map_write ≡ true
      → IsApart region cached
      → i < metadata.total_size
      → Sound region w later i (map_region metadata map_flags region priv cached w)
  unfolding map_region rockchip_bo_unmap rockchip_bo_flush rockchip_bo_invalidate
  region-Sound w later i none priv cached writes apart lt =
      (record { same_fds = refl; same_maps = refl; same_blocks = refl }, tt)
  region-Sound w later i (some object) priv cached writes apart lt =
      elim (Bool-cases (has_flag metadata.use_flags bo_use_renderscript)) [
        | inl copied ↦ rw copied (cached-Sound w later i object priv cached writes apart lt)
        | inr plain ↦ rw plain (
          record { same_fds = refl; same_maps = drop-latest object w.maps; same_blocks = refl },
          (
            object,
            refl,
            record { published = refl; kept = refl; fetched = refl; untouched = refl },
          ),
        )
      ]

  -- Whatever the kernel and the heap answer, for a mapping for writing whose copy, if it has one, is
  -- apart from the object: a mapping that fails holds no region or block more than before, and neither
  -- does one that works once rockchip_bo_unmap has undone it; after rockchip_bo_flush the object has
  -- every byte that the client sees, after rockchip_bo_invalidate the client sees every byte of the
  -- object, and neither changes the side that it copies from. `later` is any state that the memory has
  -- come to.
  pub map-Sound :
      (chromeos_afbc : ℕ) (answers : MapAnswers) (w later : World) (i : ℕ)
      → has_flag map_flags bo_map_write ≡ true
      → IsApart (answers.mmap metadata.total_size (drv_get_prot map_flags)) answers.calloc_cached
      → i < metadata.total_size
      → Sound
          (answers.mmap metadata.total_size (drv_get_prot map_flags))
          w
          later
          i
          (rockchip_bo_map metadata map_flags chromeos_afbc answers w)
  unfolding rockchip_bo_map
  map-Sound chromeos_afbc answers w later i writes apart lt =
      let region = answers.mmap metadata.total_size (drv_get_prot map_flags) in
      let compressed =
        metadata.format_modifier == chromeos_afbc
        || metadata.format_modifier == drm_format_mod_rockchip_afbc in
      elim (Bool-cases (not compressed && answers.map_offset)) [
        | inl mapped ↦
            rw (rockchip_bo_map, mapped)
              (region-Sound w later i region answers.calloc_priv answers.calloc_cached writes apart
                lt)
        | inr unmapped ↦
            rw (rockchip_bo_map, unmapped)
              (record { same_fds = refl; same_maps = refl; same_blocks = refl }, tt)
      ]
