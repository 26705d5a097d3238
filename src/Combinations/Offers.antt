-- ===== src/Combinations/Offers.antt =====
-- Where a table has the format with at least these uses, a search finds a combination.
use external_minigbm.Base.{
  ℕ, ◌≡◌, ◌≢◌, refl, Bool, true, false, ◌&&◌, ◌||◌, Option, none, some, [], ◌∷◌, arith, ◌==◌,
  bit_and, bit_and_inside,
}
use external_minigbm.Drm.{drm_format_none}
use external_minigbm.Flags.{bo_use_none}
use external_minigbm.Combinations.{Combination, Combinations, supports, drv_get_combination}
use external_minigbm.Combinations.Best.{Finds, missing, found, Unsupported, get_combination-Finds}

module _ (format mask : ℕ) where
  -- Whether some combination of the format has all uses of the mask.
  abbrev pub offers : Combinations → Bool
  offers [] = false
  offers (c ∷ combos) = c.format == format && bit_and c.use_flags mask == mask || offers combos

  offers-supported :
      (combos : Combinations) (use_flags : ℕ)
      → offers combos ≡ true
      → bit_and mask use_flags ≡ use_flags
      → Unsupported format use_flags combos
      → ⊥
  unfolding supports
  offers-supported [] use_flags offered inside none_there = ground arith
  offers-supported (c ∷ combos) use_flags offered inside none_there = ground (
    arith,
    offers-supported combos use_flags,
    bit_and_inside use_flags mask c.use_flags inside,
    none_there,
  )

  found_in :
      (combos : Combinations) (use_flags : ℕ) (o : Option Combination)
      → offers combos ≡ true
      → bit_and mask use_flags ≡ use_flags
      → drv_get_combination combos format use_flags ≡ o
      → Finds format use_flags combos o
      → (c : Combination) × (drv_get_combination combos format use_flags ≡ some c)
        × (supports format use_flags c ≡ true)
  found_in combos use_flags none offered inside e (missing all) =
      absurd (offers-supported combos use_flags offered inside all)
  found_in combos use_flags (some c) offered inside e (found best) = (c, e, best.supported)

  pub get_combination-offered :
      (combos : Combinations) (use_flags : ℕ)
      → offers combos ≡ true
      → bit_and mask use_flags ≡ use_flags
      → format ≢ drm_format_none
      → use_flags ≢ bo_use_none
      → (c : Combination) × (drv_get_combination combos format use_flags ≡ some c)
        × (supports format use_flags c ≡ true)
  get_combination-offered combos use_flags offered inside named used =
      found_in combos use_flags (drv_get_combination combos format use_flags) offered inside refl
        (get_combination-Finds combos format use_flags named used)
