-- ===== src/Mediatek/Outcome.antt =====
-- What a creation comes to: an error, or a buffer with its planes and an object with room for them.
use external_minigbm.Base.{ℕ, ◌≡◌, ◌≢◌, Bool, true, false, Option, some, ◌⊎◌, inl, List}
use external_minigbm.Drm.{drm_format_yvu420_android, drm_format_mod_linear}
use external_minigbm.Errors.{einval}
use external_minigbm.Layout.{PlanarLayout, layout_from_format}
use external_minigbm.Bo.{BoMetadata, Bo}
use external_minigbm.Planes.Contiguous.{HasArrays}
use external_minigbm.Modifiers.{drv_has_modifier}
use external_minigbm.Mediatek.{Platform}
use external_minigbm.Mediatek.Create.{ObjectAnswers}
use external_minigbm.Mediatek.Allocated.{Allocated}
use external_minigbm.Mediatek.Planned.{Planned}

module _ (p : Platform) (has_heap : Bool) (answers : ObjectAnswers) (dma_heap : Option ℕ) (bo : Bo)
    (width height format : ℕ) (modifiers : List ℕ) {layout : PlanarLayout}
    (known : layout_from_format format ≡ some layout) (room : HasArrays bo.metadata)
    (other : format ≢ drm_format_yvu420_android)
    (planes : bo.metadata.num_planes ≡ layout.num_planes) where
  -- EINVAL where the client does not offer the linear layout; else what the allocation of some layout
  -- of the buffer comes to.
  abbrev pub MediatekOutcome : Option ℕ × (ℕ ⊎ Bo) → Type 0
  MediatekOutcome (after, result) =
      ((drv_has_modifier modifiers drm_format_mod_linear ≡ false)
        × (after ≡ dma_heap)
        × (result ≡ inl einval))
      ⊎ ((drv_has_modifier modifiers drm_format_mod_linear ≡ true)
          × ((laid : BoMetadata) × Planned p bo.metadata width height format known room other planes
                laid
              × Allocated has_heap answers dma_heap bo laid format (after, result)))
