-- ===== src/Lifecycle.antt =====
-- drv.c: the end of a buffer, over the table of references (References), the mappings (Mappings) and
-- the kernel's objects, and what a client does with a mapping between map and unmap.
mod Tests
pub mod Last
use external_minigbm.Base.{
  ℕ, Bool, true, false, not, ◌&&◌, Option, none, some, ◌⊎◌, inl, inr, List, [], ◌∷◌, ltb, ◌==◌,
  if◌then◌else◌, ◌>>=◌, ◌>>◌, assert, has_flag,
}
use external_minigbm.Errors.{einval}
use external_minigbm.Flags.{bo_use_protected}
use external_minigbm.Bo.{Bo}
use external_minigbm.References.{HashTable, drv_bo_release}
use external_minigbm.Mappings.{
  MapState, Mapping, live_mapping, drv_bo_unmap, drv_bo_mapping_destroy,
}

module _ (h : HashTable) where
  open h use {Table}

  -- The driver's table and mappings, and the handles of the objects that the backend was told to
  -- destroy, the last one first.
  pub record DriverState : Type 0 where
    pub table : Table
    pub maps : MapState
    pub destroyed : List ℕ

  -- `drv_bo_destroy`. `unmap` is what the backend's `bo_unmap` returns for an address.
  unfoldable pub drv_bo_destroy : (ℕ → ℕ) → DriverState → Bo → Option DriverState
  unfolding drv_bo_release drv_bo_mapping_destroy
  drv_bo_destroy unmap s bo =
      if bo.is_test_buffer
      then some s
      else (let (table', last) = drv_bo_release h s.table bo in
          if last
          then (do
            maps' ← drv_bo_mapping_destroy unmap s.maps bo
            some (record { table = table'; maps = maps'; destroyed = bo.handle ∷ s.destroyed }))
          else some (record s { table = table' }))

-- `drv_bo_invalidate`, and `drv_bo_flush`, which is the same with the backend's other function, if the
-- backend has one.
unfoldable pub drv_bo_invalidate : Option (Bo → Mapping → ℕ) → MapState → Bo → ℕ → Option ℕ
unfolding live_mapping
drv_bo_invalidate backend_invalidate s bo self = do
  mapping ← live_mapping s self
  some (elim backend_invalidate [ none ↦ 0 | some f ↦ f bo mapping ])

unfoldable pub drv_bo_flush : Option (Bo → Mapping → ℕ) → MapState → Bo → ℕ → Option ℕ
unfolding live_mapping
drv_bo_flush backend_flush s bo self = do
  mapping ← live_mapping s self
  some (elim backend_flush [ none ↦ 0 | some f ↦ f bo mapping ])

unfoldable pub drv_bo_flush_or_unmap :
    Option (Bo → Mapping → ℕ) → (ℕ → ℕ) → MapState → Bo → ℕ → Option (MapState × ℕ)
unfolding live_mapping drv_bo_unmap
drv_bo_flush_or_unmap backend_flush unmap s bo self = do
  mapping ← live_mapping s self
  assert (not (has_flag bo.metadata.use_flags bo_use_protected))
  elim backend_flush [ none ↦ drv_bo_unmap unmap s self | some f ↦ some (s, f bo mapping) ]

-- `drv_bo_get_plane_fd`: an error number or a descriptor. `backend_fd` is the backend's function, if it
-- has one; `to_fd` is the kernel's answer, for reading and writing and without.
unfoldable pub drv_bo_get_plane_fd :
    Option (Bo → ℕ → ℕ ⊎ ℕ) → (Bool → ℕ ⊎ ℕ) → Bo → ℕ → Option (ℕ ⊎ ℕ)
drv_bo_get_plane_fd backend_fd to_fd bo plane = do
  assert (ltb plane bo.metadata.num_planes)
  some (
      if bo.is_test_buffer then inl einval else elim backend_fd [
        | some f ↦ f bo plane
        | none ↦ elim (to_fd true) [ inr fd ↦ inr fd | inl errno ↦ to_fd false ]
      ])
