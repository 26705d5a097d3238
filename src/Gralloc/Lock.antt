-- ===== src/Gralloc/Lock.antt =====
-- cros_gralloc_buffer.cc: lock, unlock, invalidate and flush of a buffer, over the driver's mappings.
use external_minigbm.Base.{
  ℕ, zero, suc, ◌+◌, ◌^◌, Bool, not, wrap32, sub32, ◌&&◌, Option, none, some, ◌⊎◌, inl, inr, List,
  [], ◌∷◌, ◌==◌, get_or, if◌then◌else◌, ◌>>=◌, ◌>>◌, assert, ltb, wrap64,
}
use external_minigbm.Errors.{einval, efault}
use external_minigbm.Bo.{Bo}
use external_minigbm.Mappings.{
  Mapping, Rectangle, MapState, MapCall, refused, failed, mapped, address_of, drv_bo_map,
}
use external_minigbm.Lifecycle.{drv_bo_invalidate, drv_bo_flush, drv_bo_flush_or_unmap}

-- `lockcount_` and `lock_data_[0]` of `cros_gralloc_buffer`; the `int32_t` is its 32-bit word.
pub record Lock : Type 0 where
  pub lockcount : ℕ
  pub lock_data : Option ℕ

-- `lockcount_ > 0`: the word is not 0, and its sign bit is not set.
unfoldable pub is_locked : ℕ → Bool
is_locked lockcount = ltb 0 lockcount && ltb lockcount (2 ^ 31)

-- A rectangle of zeros stands for the whole buffer.
unfoldable pub whole_rect : Bo → Rectangle → Rectangle
whole_rect bo rect =
    if rect.width == 0 && rect.height == 0 && rect.x == 0 && rect.y == 0
    then record rect { width = bo.metadata.width; height = bo.metadata.height }
    else rect

-- The addresses of the planes `p` to `p + n - 1`.
unfoldable pub plane_addrs : Bo → ℕ → ℕ → ℕ → Option (List ℕ)
plane_addrs bo vaddr zero p = some []
plane_addrs bo vaddr (suc n) p = do
  assert (ltb p bo.metadata.num_planes)
  rest ← plane_addrs bo vaddr n (p + 1)
  some (wrap64 (vaddr + get_or bo.metadata.offsets p 0) ∷ rest)

-- `invalidates`, `flushes` and `unmap` are the backend's functions; `planes` is the handle's number of
-- planes.
module _ (invalidates flushes : Option (Bo → Mapping → ℕ)) (unmap : ℕ → ℕ) (bo : Bo) where
  -- The mapping for a lock: its address, or none where the mapping failed.
  unfoldable pub map_for_lock :
      MapCall → MapState → Lock → Rectangle → ℕ → Option (MapState × Option ℕ × Option ℕ)
  unfolding drv_bo_invalidate drv_bo_map whole_rect address_of
  map_for_lock call s l rect map_flags = elim l.lock_data [
    | some self ↦ do
      ret ← drv_bo_invalidate invalidates s bo self
      addr ← address_of s self
      some (s, some addr, some self)
    | none ↦ do
      (s', result) ← drv_bo_map call s bo (whole_rect bo rect) map_flags 0
      some (elim result [
        | refused ↦ (s', none, none)
        | failed ↦ (s', none, none)
        | mapped addr self ↦ (s', some addr, some self)
      ])
  ]

  -- `cros_gralloc_buffer::lock`: an error number, or the addresses of the planes.
  unfoldable pub lock :
      ℕ → MapCall → MapState → Lock → Rectangle → ℕ → Option (MapState × Lock × (ℕ ⊎ List ℕ))
  unfolding map_for_lock plane_addrs
  lock planes call s l rect map_flags =
      if map_flags == 0
      then (do
        addrs ← plane_addrs bo 0 planes 0
        some (s, record l { lockcount = wrap32 (l.lockcount + 1) }, inr addrs))
      else (do
        (s', vaddr, self) ← map_for_lock call s l rect map_flags
        elim vaddr [
          | none ↦ some (s', record l { lock_data = self }, inl efault)
          | some addr ↦ do
            addrs ← plane_addrs bo addr planes 0
            some (s', record { lockcount = wrap32 (l.lockcount + 1); lock_data = self }, inr addrs)
        ])

  unfoldable pub unlock : MapState → Lock → Option (MapState × Lock × ℕ)
  unfolding is_locked drv_bo_flush_or_unmap
  unlock s l =
      let left = sub32 l.lockcount 1 in
      if not (is_locked l.lockcount)
      then some (s, l, einval)
      else if left == 0
      then elim l.lock_data [
        | none ↦ some (s, record { lockcount = 0; lock_data = none }, 0)
        | some self ↦ do
          (s', ret) ← drv_bo_flush_or_unmap flushes unmap s bo self
          some (s', record { lockcount = 0; lock_data = none }, 0)
      ]
      else some (s, record l { lockcount = left }, 0)

  -- `cros_gralloc_buffer::invalidate` and `cros_gralloc_buffer::flush`.
  unfoldable pub invalidate : MapState → Lock → Option ℕ
  unfolding is_locked drv_bo_invalidate
  invalidate s l =
      if not (is_locked l.lockcount)
      then some einval
      else elim l.lock_data [ none ↦ some 0 | some self ↦ drv_bo_invalidate invalidates s bo self ]

  unfoldable pub flush : MapState → Lock → Option ℕ
  unfolding is_locked drv_bo_flush
  flush s l =
      if not (is_locked l.lockcount)
      then some einval
      else elim l.lock_data [ none ↦ some 0 | some self ↦ drv_bo_flush flushes s bo self ]
