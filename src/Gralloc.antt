-- ===== src/Gralloc.antt =====
-- cros_gralloc: the buffers and handles of a process. A handle is a native handle at an address; a
-- buffer is known by the id that its handles carry, and lives as long as a handle refers to it.
pub mod Counted
pub mod Drained
pub mod Kept
pub mod Live
pub mod Lock
pub mod Locked
pub mod Locks
pub mod Mapped
pub mod Refs
pub mod Runs
pub mod Shrunk
mod Tests
use external_minigbm.Base.{
  ℕ, ◌+◌, Bool, true, false, not, ◌&&◌, ◌||◌, Option, none, some, List, [], ◌∷◌, ltb, ◌==◌,
  if◌then◌else◌, ◌>>=◌, ◌>>◌, assert, wrap32, sub32,
}
use external_minigbm.Errors.{einval, efault}

-- `struct cros_gralloc_handle` with its base, as far as the driver looks at it here.
pub record NativeHandle : Type 0 where
  pub num_fds : ℕ
  pub num_ints : ℕ
  pub magic : ℕ
  pub id : ℕ
  pub num_planes : ℕ
  pub reserved_region_size : ℕ

abbrev pub cros_gralloc_magic : ℕ
cros_gralloc_magic = 2882395322

-- The words of `struct cros_gralloc_handle` behind those of `native_handle_t`.
abbrev pub handle_words : ℕ
handle_words = 36

-- `cros_gralloc_convert_handle` of a pointer that is not null: whether it is a handle of gralloc.
unfoldable pub cros_gralloc_convert_handle : NativeHandle → Bool
cros_gralloc_convert_handle native =
    native.num_fds + native.num_ints == handle_words
    && native.magic == cros_gralloc_magic
    && native.num_fds
      == wrap32 (native.num_planes + (if ltb 0 native.reserved_region_size then 1 else 0))

-- `struct cros_gralloc_imported_handle_info`, with the handle's address and, for the pointer to the
-- buffer, the buffer's id.
pub record HandleInfo : Type 0 where
  pub handle : ℕ
  pub buffer : ℕ
  pub refcount : ℕ

-- The entries of `handles_`, the reference count of the buffer that `buffers_` has under each id, and
-- `next_buffer_id`.
pub record Registry : Type 0 where
  pub handles : List HandleInfo
  pub buffers : ℕ → Option ℕ
  pub next_buffer_id : ℕ

unfoldable pub set_buffer : (ℕ → Option ℕ) → ℕ → Option ℕ → ℕ → Option ℕ
set_buffer buffers id b j = if j == id then b else buffers j

-- `handles_.find`
unfoldable pub find_handle : ℕ → List HandleInfo → Option HandleInfo
find_handle handle [] = none
find_handle handle (info ∷ handles) =
    let rest = find_handle handle handles in if info.handle == handle then some info else rest

-- `++handles_[hnd].refcount`
unfoldable pub raise_handle : ℕ → List HandleInfo → List HandleInfo
raise_handle handle [] = []
raise_handle handle (info ∷ handles) =
    let rest = raise_handle handle handles in
    if info.handle == handle
    then record info { refcount = wrap32 (info.refcount + 1) } ∷ handles
    else info ∷ rest

-- `if (!--handles_[hnd].refcount) handles_.erase(hnd)`
unfoldable pub lower_handle : ℕ → List HandleInfo → List HandleInfo
lower_handle handle [] = []
lower_handle handle (info ∷ handles) =
    let rest = lower_handle handle handles in
    if info.handle == handle
    then (if sub32 info.refcount 1 == 0
        then handles
        else record info { refcount = sub32 info.refcount 1 } ∷ handles)
    else info ∷ rest

-- A handle that is not in the list yet.
abbrev pub new_handle : ℕ → ℕ → HandleInfo
new_handle handle id = record { handle = handle; buffer = id; refcount = 1 }

-- `cros_gralloc_driver::retain`: `imports` is whether drv_bo_import returns a buffer, `creates` whether
-- `cros_gralloc_buffer::create` does. `none` is a dangling buffer.
unfoldable pub retain : Bool → Bool → Registry → ℕ → NativeHandle → Option (Registry × ℕ)
unfolding cros_gralloc_convert_handle find_handle raise_handle set_buffer
retain imports creates s handle native =
    if not (cros_gralloc_convert_handle native)
    then some (s, einval)
    else elim (find_handle handle s.handles) [
      | some info ↦ do
        count ← s.buffers info.buffer
        some (
          record s {
            handles = raise_handle handle s.handles;
            buffers = set_buffer s.buffers info.buffer (some (wrap32 (count + 1)));
          },
          0,
        )
      | none ↦ elim (s.buffers native.id) [
        | some count ↦ some (
          record s {
            handles = new_handle handle native.id ∷ s.handles;
            buffers = set_buffer s.buffers native.id (some (wrap32 (count + 1)));
          },
          0,
        )
        | none ↦ some (
            if not imports then (s, efault) else if not creates then (s, 1) else (
              record s {
                handles = new_handle handle native.id ∷ s.handles;
                buffers = set_buffer s.buffers native.id (some 1);
              },
              0,
            ))
      ]
    ]

-- `cros_gralloc_driver::release`. `none` is a dangling buffer, or the failed assertion of
-- `decrease_refcount`.
unfoldable pub release : Registry → ℕ → NativeHandle → Option (Registry × ℕ)
unfolding cros_gralloc_convert_handle find_handle lower_handle set_buffer
release s handle native =
    if not (cros_gralloc_convert_handle native)
    then some (s, einval)
    else elim (find_handle handle s.handles) [
      | none ↦ some (s, einval)
      | some info ↦ do
        count ← s.buffers info.buffer
        assert (ltb 0 count)
        let left = sub32 count 1
        some (
          record s {
            handles = lower_handle handle s.handles;
            buffers = set_buffer s.buffers info.buffer (if left == 0 then none else some left);
          },
          0,
        )
    ]

-- What `allocate` is answered, in its order: `get_resolved_format_and_use_flags`, `drv_bo_create`, the
-- file descriptors of the planes, the reserved region, if one is asked for, and
-- `cros_gralloc_buffer::create`. An error number is 0 for success.
pub record AllocateAnswers : Type 0 where
  pub resolves : Bool
  pub create_bo : ℕ
  pub plane_fds : ℕ
  pub reserved_region : ℕ
  pub creates : Bool

-- `cros_gralloc_driver::allocate`, for the address of the new native handle. `emplace` enters nothing
-- under a key that is there already.
unfoldable pub allocate : AllocateAnswers → Registry → ℕ → Registry × ℕ
unfolding find_handle set_buffer
allocate a s handle =
    if not a.resolves
    then (s, einval)
    else if not (a.create_bo == 0)
    then (s, a.create_bo)
    else if not (a.plane_fds == 0)
    then (s, a.plane_fds)
    else if not (a.reserved_region == 0)
    then (s, a.reserved_region)
    else (let id = s.next_buffer_id in
        let next = record s { next_buffer_id = wrap32 (id + 1) } in
        if not a.creates then (next, 1) else (
          record next {
            handles = elim (find_handle handle s.handles) [
              | none ↦ new_handle handle id ∷ s.handles
              | some info ↦ s.handles
            ];
            buffers = elim (s.buffers id) [
              | none ↦ set_buffer s.buffers id (some 1)
              | some count ↦ s.buffers
            ];
          },
          0,
        ))
