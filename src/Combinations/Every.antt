-- ===== src/Combinations/Every.antt =====
-- A property of the layouts of a table goes with the table's operations to the result of a search.
use external_minigbm.Base.{
  ℕ, ◌&&◌, ◌||◌, Option, none, some, List, [], ◌∷◌, ◌==◌, Bool-cases, inl, inr,
}
use external_minigbm.Drm.{drm_format_none}
use external_minigbm.Flags.{bo_use_none}
use external_minigbm.Combinations.{
  FormatMetadata, Combination, Combinations, drv_add_combination, drv_add_combinations, same_layout,
  drv_modify_combination, drv_modify_linear_combinations, supports, is_better, best_of,
  drv_get_combination,
}

module _ (P : FormatMetadata → Type 0) where
  pub data Every : Combinations → Type 0 where
    nil : Every []
    cons :
        {c : Combination} {combos : Combinations} → P c.metadata → Every combos → Every (c ∷ combos)

  -- A search that finds something finds a layout with the property.
  abbrev pub Found : Option Combination → Type 0
  Found none = Unit
  Found (some c) = P c.metadata

  pub add_combination-Every :
      (combos : Combinations) (format : ℕ) {metadata : FormatMetadata} (use_flags : ℕ)
      → P metadata
      → Every combos
      → Every (drv_add_combination combos format metadata use_flags)
  unfolding drv_add_combination
  add_combination-Every [] format use_flags p nil = cons p nil
  add_combination-Every (c ∷ combos) format use_flags p (cons q all) =
      cons q (add_combination-Every combos format use_flags p all)

  pub add_combinations-Every :
      (combos : Combinations) (formats : List ℕ) {metadata : FormatMetadata} (use_flags : ℕ)
      → P metadata
      → Every combos
      → Every (drv_add_combinations combos formats metadata use_flags)
  unfolding drv_add_combinations
  add_combinations-Every combos [] use_flags p all = all
  add_combinations-Every combos (format ∷ formats) {metadata} use_flags p all =
      add_combinations-Every (drv_add_combination combos format metadata use_flags) formats
        use_flags p (add_combination-Every combos format use_flags p all)

  pub modify_combination-Every :
      (combos : Combinations) (format : ℕ) (metadata : FormatMetadata) (use_flags : ℕ)
      → Every combos
      → Every (drv_modify_combination combos format metadata use_flags)
  unfolding drv_modify_combination
  modify_combination-Every [] format metadata use_flags nil = nil
  modify_combination-Every (c ∷ combos) format metadata use_flags (cons q all) =
      elim (Bool-cases (same_layout format metadata c)) [
        | inl on ↦ rw on (cons q (modify_combination-Every combos format metadata use_flags all))
        | inr off ↦ rw off (cons q (modify_combination-Every combos format metadata use_flags all))
      ]

  pub modify_linear-Every :
      (combos : Combinations) → Every combos → Every (drv_modify_linear_combinations combos)
  unfolding drv_modify_linear_combinations
  modify_linear-Every combos all =
      modify_combination-Every _ _ _ _ (modify_combination-Every combos _ _ _ all)

  best_of-Found :
      (format use_flags : ℕ) (best : Option Combination) (combos : Combinations)
      → Found best
      → Every combos
      → Found (best_of format use_flags best combos)
  unfolding best_of
  best_of-Found format use_flags best [] p all = p
  best_of-Found format use_flags best (c ∷ combos) p (cons q all) =
      elim (Bool-cases (supports format use_flags c && is_better best c)) [
        | inl on ↦ rw on (best_of-Found format use_flags (some c) combos q all)
        | inr off ↦ rw off (best_of-Found format use_flags best combos p all)
      ]

  pub get_combination-Found :
      (combos : Combinations) (format use_flags : ℕ)
      → Every combos
      → Found (drv_get_combination combos format use_flags)
  unfolding drv_get_combination
  get_combination-Found combos format use_flags all =
      elim (Bool-cases (format == drm_format_none || use_flags == bo_use_none)) [
        | inl on ↦ rw on tt
        | inr off ↦ rw off (best_of-Found format use_flags none combos tt all)
      ]
