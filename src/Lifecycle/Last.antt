-- ===== src/Lifecycle/Last.antt =====
-- The kernel's object and the mappings go with the last buffer.
use external_minigbm.Base.{
  ℕ, ◌^◌, ◌≤◌, ◌<◌, ◌≡◌, refl, true, false, some, inl, inr, ◌∷◌, arith, ◌∙◌, length, leb,
  Bool-cases, Returns,
}
use external_minigbm.Bo.{Bo}
use external_minigbm.References.{HashTable, drv_bo_release}
use external_minigbm.References.Counts.{count, IsCounted}
use external_minigbm.References.Lifetime.{Released, release_counts}
use external_minigbm.Mappings.{MapState, drv_bo_mapping_destroy}
use external_minigbm.Mappings.Map.{Counted}
use external_minigbm.Mappings.Destroy.{Cleared, mapping_destroy-Cleared}
use external_minigbm.Lifecycle.{DriverState, drv_bo_destroy}

module _ (h : HashTable) where
  open h use {Table}

  -- The references of the buffer are given back. While other planes hold the inode, nothing else
  -- changes; otherwise the object is destroyed, once, and no mapping of the inode is left.
  pub record Destroyed (s : DriverState h) (bo : Bo) (after : DriverState h) : Type 0 where
    pub released : Released h s.table bo.inode bo.metadata.num_planes after.table
    pub held :
        bo.metadata.num_planes < count h s.table bo.inode
        → (after.maps ≡ s.maps) × (after.destroyed ≡ s.destroyed)
    pub gone :
        count h s.table bo.inode ≤ bo.metadata.num_planes
        → Cleared bo.inode after.maps × (after.destroyed ≡ bo.handle ∷ s.destroyed)

  module _ (unmap : ℕ → ℕ) (works : (addr : ℕ) → unmap addr ≡ 0) (s : DriverState h) (bo : Bo)
      (counted : IsCounted h s.table) (maps : Counted s.maps)
      (few : length s.maps.mappings < 2 ^ 31) (some_planes : 1 ≤ bo.metadata.num_planes)
      (real : bo.is_test_buffer ≡ false) where
    abbrev table' : Table
    table' = (drv_bo_release h s.table bo).0

    destroyed_eq :
        (maps' : MapState)
        → (drv_bo_release h s.table bo).1 ≡ true
        → drv_bo_mapping_destroy unmap s.maps bo ≡ some maps'
        → drv_bo_destroy h unmap s bo
          ≡ some (record { table = table'; maps = maps'; destroyed = bo.handle ∷ s.destroyed })
    unfolding drv_bo_destroy
    destroyed_eq maps' last e = rw (real, last, e) refl

    last_one :
        Released h s.table bo.inode bo.metadata.num_planes table'
        → (drv_bo_release h s.table bo).1 ≡ true
        → count h s.table bo.inode ≤ bo.metadata.num_planes
        → Returns (Destroyed s bo) (drv_bo_destroy h unmap s bo)
    last_one released last none_left =
        let (maps', e, cleared) =
          mapping_destroy-Cleared unmap s.maps bo works maps few some_planes in
        (
          record { table = table'; maps = maps'; destroyed = bo.handle ∷ s.destroyed },
          destroyed_eq maps' last e,
          record {
            released = released;
            held = λ more. absurd (omega arith);
            gone = λ _. (cleared, refl);
          },
        )

    shared_one :
        Released h s.table bo.inode bo.metadata.num_planes table'
        → (drv_bo_release h s.table bo).1 ≡ false
        → bo.metadata.num_planes < count h s.table bo.inode
        → Returns (Destroyed s bo) (drv_bo_destroy h unmap s bo)
    unfolding drv_bo_destroy
    shared_one released last more = (
      record s { table = table' },
      rw (real, last) refl,
      record {
        released = released;
        held = λ _. (refl, refl);
        gone = λ none_left. absurd (omega arith);
      },
    )

    -- For a buffer of at least one plane that is no test buffer, in a state whose table has no count of
    -- 0 and whose vmas count their fewer than 2^31 mappings, where unmapping works: drv_bo_destroy
    -- returns and gives the buffer's references back. While other planes hold the inode, the mappings
    -- and the kernel's object stay; with the last ones the object is destroyed, once, no mapping of the
    -- inode is left, and the vmas count their mappings again.
    pub destroy-Destroyed : Returns (Destroyed s bo) (drv_bo_destroy h unmap s bo)
    destroy-Destroyed =
        let (released, last) = release_counts h s.table bo counted some_planes in
        elim (Bool-cases (leb (count h s.table bo.inode) bo.metadata.num_planes)) [
          | inl none_left ↦ last_one released (last ∙ none_left) (ground arith)
          | inr more ↦ shared_one released (last ∙ more) (ground arith)
        ]
