-- ===== src/Mediatek/Copies.antt =====
-- The copy and the object carry the same bytes across flush and invalidate.
use external_minigbm.Base.{
  ℕ, ◌<◌, ◌≡◌, refl, true, Option, none, some, inl, inr, Bool-cases, has_flag, ◌∷◌,
}
use external_minigbm.Flags.{bo_use_renderscript, bo_map_write}
use external_minigbm.Bo.{BoMetadata}
use external_minigbm.Memory.{World, drv_get_prot}
use external_minigbm.Memory.Copy.{Apart, Carried, Apart-sym, memcpy-copied, memcpy-kept}
use external_minigbm.Mediatek.Shadow.{
  MapAnswers, MapOutcome, shadow_vma, map_cached, map_private, map_region, map_plane,
  mediatek_bo_map, mediatek_bo_invalidate, mediatek_bo_flush,
}

module _ (metadata : BoMetadata) (map_flags : ℕ) where
  -- The bytes of the mapping, where there is one, and those of the object behind it, at offset `i`.
  abbrev pub Carries : MapAnswers → World → ℕ → MapOutcome → Type 0
  Carries answers later i (w', none) = Unit
  Carries answers later i (w', some vma) =
      (object : ℕ) × (answers.mmap metadata.total_size (drv_get_prot map_flags) ≡ some object)
      × Carried later (mediatek_bo_flush metadata vma later)
          (mediatek_bo_invalidate metadata vma later) vma.addr object i

  -- The copy is a block of its own.
  abbrev pub IsApart : Option ℕ → Option ℕ → Type 0
  IsApart (some object) (some cached) = Apart cached object metadata.total_size
  IsApart object cached = Unit

  shadow-Carried :
      (later : World) (prime_fd priv cached object i : ℕ)
      → has_flag map_flags bo_map_write ≡ true
      → Apart cached object metadata.total_size
      → i < metadata.total_size
      → let vma = shadow_vma metadata map_flags prime_fd object priv cached in
        Carried later
          (mediatek_bo_flush metadata vma later)
          (mediatek_bo_invalidate metadata vma later)
          cached
          object
          i
  unfolding mediatek_bo_flush mediatek_bo_invalidate
  shadow-Carried later prime_fd priv cached object i writes apart lt =
      let n = metadata.total_size in
      rw writes (record {
        published = memcpy-copied later.bytes object cached n i lt;
        kept =
            memcpy-kept later.bytes object cached n cached i (Apart-sym cached object n apart) lt;
        fetched = memcpy-copied later.bytes cached object n i lt;
        untouched = memcpy-kept later.bytes cached object n object i apart lt;
      })

  private_Carries :
      (answers : MapAnswers) (later w : World) (i prime_fd object : ℕ) (priv cached : Option ℕ)
      → answers.mmap metadata.total_size (drv_get_prot map_flags) ≡ some object
      → has_flag map_flags bo_map_write ≡ true
      → IsApart (some object) cached
      → i < metadata.total_size
      → Carries answers later i (map_private metadata map_flags prime_fd object priv cached w)
  unfolding map_private map_cached mediatek_bo_flush mediatek_bo_invalidate
  private_Carries answers later w i prime_fd object none cached e writes apart lt = tt
  private_Carries answers later w i prime_fd object (some priv) cached e writes apart lt =
      elim (Bool-cases (has_flag metadata.use_flags bo_use_renderscript)) [
        | inl copied ↦ rw copied (with_copy cached apart)
        | inr plain ↦
            rw plain (
              object,
              e,
              record { published = refl; kept = refl; fetched = refl; untouched = refl },
            )
      ]
    where
      with_copy :
          (cached : Option ℕ)
          → IsApart (some object) cached
          → Carries answers later i (
              map_cached metadata map_flags prime_fd object priv cached
                (record w { blocks = priv ∷ w.blocks }))
      with_copy none apart = tt
      with_copy (some c) apart =
          (object, e, shadow-Carried later prime_fd priv c object i writes apart lt)

  plane_Carries :
      (answers : MapAnswers) (later w : World) (i : ℕ) (prime_fd region priv cached : Option ℕ)
      → answers.mmap metadata.total_size (drv_get_prot map_flags) ≡ region
      → has_flag map_flags bo_map_write ≡ true
      → IsApart region cached
      → i < metadata.total_size
      → Carries answers later i (map_plane metadata map_flags prime_fd region priv cached w)
  unfolding map_plane map_region
  plane_Carries answers later w i none region priv cached e writes apart lt = tt
  plane_Carries answers later w i (some fd) none priv cached e writes apart lt = tt
  plane_Carries answers later w i (some fd) (some object) priv cached e writes apart lt =
      private_Carries answers later _ i fd object priv cached e writes apart lt

  -- Of a mapping for writing, whose copy, if it has one, is apart from the object, with RenderScript or
  -- without: after mediatek_bo_flush the object has every byte that the client sees in the mapping,
  -- after mediatek_bo_invalidate the client sees every byte of the object, and neither changes the side
  -- that it copies from. `later` is any state that the memory has come to.
  pub map-Carries :
      (answers : MapAnswers) (w later : World) (i : ℕ)
      → has_flag map_flags bo_map_write ≡ true
      → IsApart (answers.mmap metadata.total_size (drv_get_prot map_flags)) answers.calloc_cached
      → i < metadata.total_size
      → Carries answers later i (mediatek_bo_map metadata map_flags answers w)
  unfolding mediatek_bo_map
  map-Carries answers w later i writes apart lt = elim (Bool-cases answers.map_offset) [
    | inl mapped ↦ mapped_eq mapped (
        plane_Carries answers later w i answers.plane_fd
          (answers.mmap metadata.total_size (drv_get_prot map_flags)) answers.calloc_priv
          answers.calloc_cached refl writes apart lt)
    | inr unmapped ↦ simp unmapped tt
  ]
    where
      mapped_eq :
          answers.map_offset ≡ true
          → Carries answers later i (
              map_plane metadata map_flags answers.plane_fd
                (answers.mmap metadata.total_size (drv_get_prot map_flags))
                answers.calloc_priv
                answers.calloc_cached
                w)
          → Carries answers later i (mediatek_bo_map metadata map_flags answers w)
      mapped_eq mapped c = simp mapped c
