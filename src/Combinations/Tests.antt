-- ===== src/Combinations/Tests.antt =====
-- Runs of the combination table.
use external_minigbm.Base.{[], ◌∷◌, arith}
use external_minigbm.Drm.{drm_format_xrgb8888, drm_format_nv12, drm_format_mod_linear}
use external_minigbm.Flags.{bo_use_scanout, bo_use_texture}
use external_minigbm.Combinations.{
  Combinations, combination, linear_metadata, FormatMetadata, drv_get_combination,
}
use external_minigbm.Combinations.Best.{Finds, get_combination-Finds}

abbrev tiled : FormatMetadata
tiled = record { priority = 2; tiling = 1; modifier = drm_format_mod_linear }

abbrev two_layouts : Combinations
two_layouts =
    combination drm_format_xrgb8888 linear_metadata bo_use_scanout
    ∷ combination drm_format_nv12 linear_metadata bo_use_texture
    ∷ combination drm_format_xrgb8888 tiled bo_use_scanout
    ∷ []

get_combination-Finds_example :
    Finds drm_format_xrgb8888 bo_use_scanout two_layouts
      (drv_get_combination two_layouts drm_format_xrgb8888 bo_use_scanout)
get_combination-Finds_example =
    get_combination-Finds two_layouts drm_format_xrgb8888 bo_use_scanout (omega arith) (omega arith)
