-- ===== src/Lifecycle/Tests.antt =====
-- Runs of the end of a buffer: the only buffer of an inode that is mapped twice.
use external_minigbm.Base.{
  ℕ, refl, Option, none, some, false, [], ◌∷◌, arith, ◌==◌, ==_refl, ==_ne, if◌then◌else◌, Returns,
}
use external_minigbm.Bo.{Bo, no_planes}
use external_minigbm.References.{HashTable}
use external_minigbm.References.Counts.{IsCounted}
use external_minigbm.Mappings.{Vma, MapState}
use external_minigbm.Mappings.Sound.{uses}
use external_minigbm.Mappings.Map.{Counted}
use external_minigbm.Lifecycle.{DriverState, drv_bo_destroy}
use external_minigbm.Lifecycle.Last.{Destroyed, destroy-Destroyed}

abbrev function_table : HashTable
function_table = record {
  Table = ℕ → Option ℕ;
  lookup = λ t k. t k;
  insert = λ t k v j. if j == k then some v else t j;
  delete = λ t k j. if j == k then none else t j;
  lookup-insert = λ t k v absent. rw (==_refl k);
  lookup-insert_ne = λ t k v j ne. rw (==_ne j k ne);
  lookup-delete = λ t k. rw (==_refl k);
  lookup-delete_ne = λ t k j ne. rw (==_ne j k ne);
}

abbrev shared_vma : Vma
shared_vma = record {
  addr = 4096;
  length = 65536;
  inode = 11;
  map_flags = 3;
  refcount = 2;
  map_strides = 256 ∷ [];
}

abbrev mapped_twice : MapState
mapped_twice = record {
  mappings =
      record {
        self = 1;
        vma = 7;
        rect = record { x = 0; y = 0; width = 64; height = 64 };
        refcount = 1;
      }
      ∷ record {
        self = 2;
        vma = 7;
        rect = record { x = 0; y = 0; width = 8; height = 8 };
        refcount = 1;
      }
      ∷ [];
  vmas = λ w. if w == 7 then some shared_vma else none;
  unmapped = [];
}

mapped_twice-Counted : Counted mapped_twice
unfolding uses
mapped_twice-Counted w = ground arith

abbrev one_buffer : DriverState function_table
one_buffer = record {
  table = λ j. if j == 11 then some 1 else none;
  maps = mapped_twice;
  destroyed = [];
}

one_buffer-IsCounted : IsCounted function_table one_buffer.table
one_buffer-IsCounted inode = ground arith

abbrev only_bo : Bo
only_bo = record {
  metadata = record {
    width = 64;
    height = 64;
    format = 875713112;
    tiling = 0;
    num_planes = 1;
    offsets = no_planes;
    sizes = 16384 ∷ 0 ∷ 0 ∷ 0 ∷ [];
    strides = 256 ∷ 0 ∷ 0 ∷ 0 ∷ [];
    format_modifier = 0;
    use_flags = 1;
    total_size = 16384;
    cached = false;
  };
  is_test_buffer = false;
  handle = 3;
  inode = 11;
}

destroy-Destroyed_example :
    Returns
      (Destroyed function_table one_buffer only_bo)
      (drv_bo_destroy function_table (λ addr. 0) one_buffer only_bo)
destroy-Destroyed_example =
    destroy-Destroyed function_table (λ addr. 0) (λ addr. refl) one_buffer only_bo
      one_buffer-IsCounted mapped_twice-Counted (omega arith) (omega arith) refl
