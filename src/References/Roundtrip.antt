-- ===== src/References/Roundtrip.antt =====
-- A buffer that comes and goes leaves the table as it was.
use external_minigbm.Base.{ℕ, ◌+◌, ◌^◌, ◌≤◌, ◌<◌, ◌≡◌, ◌≢◌, sym, ◌∙◌, ap, arith, ◌==◌}
use native.Mathlib.Decide.{ℕ_discrete}
use external_minigbm.Bo.{Bo}
use external_minigbm.References.{HashTable, drv_bo_acquire, drv_bo_release}
use external_minigbm.References.Counts.{count, entry, entry-count_of, IsCounted}
use external_minigbm.References.Lifetime.{inode_of, acquire_counts, release_counts}

module _ (h : HashTable) where
  open h use {Table, lookup}

  -- Tables of the same counts have the same entries.
  lookup_eq :
      (t t' : Table) (j : ℕ)
      → IsCounted h t
      → IsCounted h t'
      → count h t' j ≡ count h t j
      → lookup t' j ≡ lookup t j
  lookup_eq t t' j counted counted' e =
      entry-count_of (lookup t' j) (counted' j)
      ∙ ap entry e
      ∙ sym (entry-count_of (lookup t j) (counted j))

  -- On a table without an entry of 0, where a buffer of at least one plane and of an inode other than
  -- 0 is acquired without overflow and released at once, every entry of the table is again what it
  -- was, and the release says that the buffer was the last one exactly if the inode had no entry.
  pub acquire-release :
      (plane_inode : ℕ → ℕ) (t : Table) (bo : Bo)
      → IsCounted h t
      → 1 ≤ bo.metadata.num_planes
      → inode_of plane_inode bo ≢ 0
      → count h t (inode_of plane_inode bo) + bo.metadata.num_planes < 2 ^ 64
      → let (t', bo') = drv_bo_acquire h plane_inode t bo in
        let (t'', last) = drv_bo_release h t' bo' in
        ((j : ℕ) → lookup t'' j ≡ lookup t j) × (last ≡ (count h t (inode_of plane_inode bo) == 0))
  acquire-release plane_inode t bo counted some_planes ne fits =
      let (same, up) = acquire_counts h plane_inode t bo counted some_planes ne fits in
      let t' = (drv_bo_acquire h plane_inode t bo).0 in
      let inode = inode_of plane_inode bo in
      let (down, last) = release_counts h t' (record bo { inode = inode }) up.kept some_planes in
      rw same (
        (λ j. elim (ℕ_discrete j inode) [
          | yes e ↦ lookup_eq t _ j counted down.kept (rw e (omega (arith, up.up, down.down)))
          | no other ↦ down.others j other ∙ up.others j other
        ]),
        last ∙ ground (arith, up.up),
      )
