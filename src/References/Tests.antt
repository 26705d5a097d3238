-- ===== src/References/Tests.antt =====
-- Runs of the reference counts, with a function for the table.
use external_minigbm.Base.{
  ℕ, ◌≡◌, ◌≢◌, Option, none, some, false, arith, ◌==◌, ==_refl, ==_ne, if◌then◌else◌, leb,
}
use external_minigbm.Bo.{Bo, no_planes}
use external_minigbm.References.{HashTable, drv_bo_acquire, drv_bo_release}
use external_minigbm.References.Counts.{count}
use external_minigbm.References.Lifetime.{Acquired, Released, acquire_counts, release_counts}
use external_minigbm.References.Roundtrip.{acquire-release}

abbrev function_table : HashTable
function_table = record {
  Table = ℕ → Option ℕ;
  lookup = λ t k. t k;
  insert = λ t k v j. if j == k then some v else t j;
  delete = λ t k j. if j == k then none else t j;
  lookup-insert = λ t k v absent. rw (==_refl k);
  lookup-insert_ne = λ t k v j ne. rw (==_ne j k ne);
  lookup-delete = λ t k. rw (==_refl k);
  lookup-delete_ne = λ t k j ne. rw (==_ne j k ne);
}

-- The inode 11 has one buffer of two planes.
abbrev one_buffer : ℕ → Option ℕ
one_buffer j = if j == 11 then some 2 else none

one_buffer-IsCounted : (inode : ℕ) → one_buffer inode ≢ some 0
one_buffer-IsCounted inode = ground arith

abbrev nv12_buffer : ℕ → Bo
nv12_buffer inode = record {
  metadata = record {
    width = 640;
    height = 480;
    format = 842094158;
    tiling = 0;
    num_planes = 2;
    offsets = no_planes;
    sizes = no_planes;
    strides = no_planes;
    format_modifier = 0;
    use_flags = 1;
    total_size = 460800;
    cached = false;
  };
  is_test_buffer = false;
  handle = 3;
  inode = inode;
}

-- A second buffer of the inode, which it reads from its descriptor.
acquire_counts_example :
    let (t', bo') = drv_bo_acquire function_table (λ p. 11) one_buffer (nv12_buffer 0) in
    (bo' ≡ nv12_buffer 11) × Acquired function_table one_buffer 11 2 t'
acquire_counts_example =
    acquire_counts function_table (λ p. 11) one_buffer (nv12_buffer 0) one_buffer-IsCounted
      (omega arith) (omega arith) (omega arith)

release_counts_example :
    let (t', last) = drv_bo_release function_table one_buffer (nv12_buffer 11) in
    Released function_table one_buffer 11 2 t' × (last ≡ leb (count function_table one_buffer 11) 2)
release_counts_example =
    release_counts function_table one_buffer (nv12_buffer 11) one_buffer-IsCounted (omega arith)

acquire-release_example :
    let (t', bo') = drv_bo_acquire function_table (λ p. 12) one_buffer (nv12_buffer 0) in
    let (t'', last) = drv_bo_release function_table t' bo' in
    ((j : ℕ) → t'' j ≡ one_buffer j) × (last ≡ (count function_table one_buffer 12 == 0))
acquire-release_example =
    acquire-release function_table (λ p. 12) one_buffer (nv12_buffer 0) one_buffer-IsCounted
      (omega arith) (omega arith) (omega arith)
