-- ===== src/Mappings/Tests.antt =====
-- Runs of the mappings: one buffer mapped twice, in two parts.
use external_minigbm.Base.{
  ℕ, ◌≡◌, refl, none, some, [], ◌∷◌, false, arith, ◌==◌, Returns, if◌then◌else◌,
}
use external_minigbm.Bo.{Bo}
use external_minigbm.Mappings.{
  Vma, Mapping, Rectangle, MapState, MapCall, first_match, find_or_map, drv_bo_unmap,
  drv_bo_mapping_destroy,
}
use external_minigbm.Mappings.Sound.{uses}
use external_minigbm.Mappings.Map.{Counted, find_or_map-Counted}
use external_minigbm.Mappings.Unmap.{unmap-Counted}
use external_minigbm.Mappings.Destroy.{Cleared, mapping_destroy-Cleared}

abbrev rectangle : ℕ → ℕ → Rectangle
rectangle width height = record { x = 0; y = 0; width = width; height = height }

abbrev shared_vma : Vma
shared_vma = record {
  addr = 4096;
  length = 65536;
  inode = 11;
  map_flags = 3;
  refcount = 2;
  map_strides = 256 ∷ [];
}

abbrev whole : Mapping
whole = record { self = 1; vma = 7; rect = rectangle 64 64; refcount = 1 }

abbrev corner : Mapping
corner = record { self = 2; vma = 7; rect = rectangle 8 8; refcount = 1 }

abbrev two_parts : MapState
two_parts = record {
  mappings = whole ∷ corner ∷ [];
  vmas = λ w. if w == 7 then some shared_vma else none;
  unmapped = [];
}

abbrev mapped_bo : Bo
mapped_bo = record {
  metadata = record {
    width = 64;
    height = 64;
    format = 875713112;
    tiling = 0;
    num_planes = 1;
    offsets = 0 ∷ 0 ∷ 0 ∷ 0 ∷ [];
    sizes = 16384 ∷ 0 ∷ 0 ∷ 0 ∷ [];
    strides = 256 ∷ 0 ∷ 0 ∷ 0 ∷ [];
    format_modifier = 0;
    use_flags = 1;
    total_size = 16384;
    cached = false;
  };
  is_test_buffer = false;
  handle = 3;
  inode = 11;
}

two_parts-Counted : Counted two_parts
unfolding uses
two_parts-Counted w = ground arith

-- Another part shares the vma.
abbrev third_part : MapCall
third_part = record { new_mapping = 3; new_vma = some 8; backend_map = none }

find_or_map-Counted_example :
    Counted (find_or_map third_part two_parts mapped_bo (rectangle 16 16) 3).0
find_or_map-Counted_example =
    find_or_map-Counted third_part two_parts mapped_bo (rectangle 16 16) 3 two_parts-Counted
      (omega arith) refl

corner_found : first_match (λ k. k.self == 2) two_parts.mappings ≡ some corner
unfolding first_match
corner_found = refl

unmap-Counted_example :
    Returns (λ (after : MapState × ℕ). Counted after.0) (drv_bo_unmap (λ addr. 0) two_parts 2)
unmap-Counted_example =
    unmap-Counted (λ addr. 0) two_parts 2 two_parts-Counted (omega arith) corner_found

mapping_destroy-Cleared_example :
    Returns (Cleared 11) (drv_bo_mapping_destroy (λ addr. 0) two_parts mapped_bo)
mapping_destroy-Cleared_example =
    mapping_destroy-Cleared (λ addr. 0) two_parts mapped_bo (λ addr. refl) two_parts-Counted
      (omega arith) (omega arith)
