-- ===== src/Combinations.antt =====
-- drv_helpers.c and drv.c: the table of the format, tiling, modifier and use flags that a driver
-- supports. The table is a `drv_array`; here it is the list of the items that the array holds.
mod Tests
pub mod All
pub mod Best
pub mod Every
pub mod Modify
pub mod Offers
use external_minigbm.Base.{
  ℕ, Bool, true, false, ◌&&◌, ◌||◌, Option, none, some, List, [], ◌∷◌, ◌++◌, bit_and, bit_or, ltb,
  ◌==◌, if◌then◌else◌,
}
use external_minigbm.Drm.{
  drm_format_none, drm_format_mod_linear, drm_format_xrgb8888, drm_format_argb8888,
}
use external_minigbm.Flags.{bo_use_none, bo_use_cursor, bo_use_scanout}

-- `struct format_metadata`
pub record FormatMetadata : Type 0 where
  pub priority : ℕ
  pub tiling : ℕ
  pub modifier : ℕ

-- `struct combination`
pub record Combination : Type 0 where
  pub format : ℕ
  pub metadata : FormatMetadata
  pub use_flags : ℕ

abbrev pub Combinations : Type 0
Combinations = List Combination

-- `LINEAR_METADATA`
abbrev pub linear_metadata : FormatMetadata
linear_metadata = record { priority = 1; tiling = 0; modifier = drm_format_mod_linear }

abbrev pub combination : ℕ → FormatMetadata → ℕ → Combination
combination format metadata use_flags = record {
  format = format;
  metadata = metadata;
  use_flags = use_flags;
}

unfoldable pub drv_add_combination : Combinations → ℕ → FormatMetadata → ℕ → Combinations
drv_add_combination combos format metadata use_flags =
    combos ++ (combination format metadata use_flags ∷ [])

unfoldable pub drv_add_combinations : Combinations → List ℕ → FormatMetadata → ℕ → Combinations
unfolding drv_add_combination
drv_add_combinations combos [] metadata use_flags = combos
drv_add_combinations combos (format ∷ formats) metadata use_flags =
    drv_add_combinations (drv_add_combination combos format metadata use_flags) formats metadata
      use_flags

-- The condition of `drv_modify_combination`.
unfoldable pub same_layout : ℕ → FormatMetadata → Combination → Bool
same_layout format metadata combo =
    combo.format == format
    && combo.metadata.tiling == metadata.tiling
    && combo.metadata.modifier == metadata.modifier

unfoldable pub drv_modify_combination : Combinations → ℕ → FormatMetadata → ℕ → Combinations
unfolding same_layout
drv_modify_combination [] format metadata use_flags = []
drv_modify_combination (combo ∷ combos) format metadata use_flags =
    (if same_layout format metadata combo
      then record combo { use_flags = bit_or combo.use_flags use_flags }
      else combo)
    ∷ drv_modify_combination combos format metadata use_flags

unfoldable pub drv_modify_linear_combinations : Combinations → Combinations
unfolding drv_modify_combination
drv_modify_linear_combinations combos =
    let flags = bit_or bo_use_cursor bo_use_scanout in
    drv_modify_combination (drv_modify_combination combos drm_format_xrgb8888 linear_metadata flags)
      drm_format_argb8888 linear_metadata flags

-- The condition of the loop of `drv_get_combination`.
unfoldable pub supports : ℕ → ℕ → Combination → Bool
supports format use_flags curr =
    format == curr.format && use_flags == bit_and curr.use_flags use_flags

-- `!best || best->metadata.priority < curr->metadata.priority`
unfoldable pub is_better : Option Combination → Combination → Bool
is_better none curr = true
is_better (some best) curr = ltb best.metadata.priority curr.metadata.priority

-- The loop, with the best combination so far.
unfoldable pub best_of : ℕ → ℕ → Option Combination → Combinations → Option Combination
unfolding supports is_better
best_of format use_flags best [] = best
best_of format use_flags best (curr ∷ combos) =
    best_of format use_flags
      (if supports format use_flags curr && is_better best curr then some curr else best) combos

unfoldable pub drv_get_combination : Combinations → ℕ → ℕ → Option Combination
unfolding best_of
drv_get_combination combos format use_flags =
    if format == drm_format_none || use_flags == bo_use_none
    then none
    else best_of format use_flags none combos
