-- ===== src/References.antt =====
-- drv.c: the reference counts of the buffers' inodes in the driver's table, which libdrm's hash
-- table keeps.
mod Tests
pub mod Counts
pub mod Lifetime
pub mod Roundtrip
use external_minigbm.Base.{
  ℕ, zero, suc, ◌+◌, ◌-◌, ◌^◌, ◌≡◌, ◌≢◌, Bool, true, false, Option, none, some, ltb, ◌==◌,
  if◌then◌else◌, wrap64,
}
use external_minigbm.Bo.{Bo}

-- `drmHashLookup`, `drmHashInsert` and `drmHashDelete` of libdrm, as far as the driver relies on
-- them: an insertion under an absent key adds the entry, a deletion removes it, and both leave the
-- other keys alone. (An insertion under a key that is there fails, and none is made.)
pub record HashTable : Type 1 where
  pub Table : Type 0
  pub lookup : Table → ℕ → Option ℕ
  pub insert : Table → ℕ → ℕ → Table
  pub delete : Table → ℕ → Table
  pub lookup-insert : (t : Table) (k v : ℕ) → lookup t k ≡ none → lookup (insert t k v) k ≡ some v
  pub lookup-insert_ne : (t : Table) (k v j : ℕ) → j ≢ k → lookup (insert t k v) j ≡ lookup t j
  pub lookup-delete : (t : Table) (k : ℕ) → lookup (delete t k) k ≡ none
  pub lookup-delete_ne : (t : Table) (k j : ℕ) → j ≢ k → lookup (delete t k) j ≡ lookup t j

module _ (h : HashTable) where
  open h use {Table, lookup, insert, delete}

  -- One round of the loop of `drv_bo_acquire`: the count goes up, from 0 where there is none.
  unfoldable pub acquire_plane : Table → ℕ → Table
  acquire_plane t inode = elim (lookup t inode) [
    | none ↦ insert t inode (wrap64 (0 + 1))
    | some num ↦ insert (delete t inode) inode (wrap64 (num + 1))
  ]

  -- The loop over the planes from `p` on, with the buffer's inode, which an inode of 0 has read from
  -- the plane's file descriptor. `plane_inode` is what `drv_get_inode` reads there.
  unfoldable pub acquire_planes : (ℕ → ℕ) → ℕ → ℕ → Table → ℕ → Table × ℕ
  unfolding acquire_plane
  acquire_planes plane_inode zero p t inode = (t, inode)
  acquire_planes plane_inode (suc n) p t inode =
      let inode' = if inode == 0 then plane_inode p else inode in
      acquire_planes plane_inode n (p + 1) (acquire_plane t inode') inode'

  -- `drv_bo_acquire`
  unfoldable pub drv_bo_acquire : (ℕ → ℕ) → Table → Bo → Table × Bo
  unfolding acquire_planes
  drv_bo_acquire plane_inode t bo =
      let (t', inode) = acquire_planes plane_inode bo.metadata.num_planes 0 t bo.inode in
      (t', record bo { inode = inode })

  -- One round of the first loop of `drv_bo_release`.
  unfoldable pub release_plane : Table → ℕ → Table
  release_plane t inode = elim (lookup t inode) [
    | none ↦ t
    | some num ↦ let t' = delete t inode in if ltb 1 num then insert t' inode (num - 1) else t'
  ]

  unfoldable pub release_planes : ℕ → Table → ℕ → Table
  unfolding release_plane
  release_planes zero t inode = t
  release_planes (suc n) t inode = release_planes n (release_plane t inode) inode

  -- The second loop: false as soon as a plane's inode is still in the table.
  unfoldable pub all_gone : ℕ → Table → ℕ → Bool
  all_gone zero t inode = true
  all_gone (suc n) t inode =
      let rest = all_gone n t inode in elim (lookup t inode) [ none ↦ rest | some num ↦ false ]

  -- `drv_bo_release`, but for the backend's `bo_release`.
  unfoldable pub drv_bo_release : Table → Bo → Table × Bool
  unfolding release_planes all_gone
  drv_bo_release t bo =
      let t' = release_planes bo.metadata.num_planes t bo.inode in
      (t', all_gone bo.metadata.num_planes t' bo.inode)
