-- ===== src/Handles.antt =====
-- drv_helpers.c: handles of kernel objects. The kernel keeps the set of the open handles of the
-- driver's descriptor; a handle is not counted, so one close is enough.
mod Tests
pub mod Import
use external_minigbm.Base.{
  ℕ, zero, suc, ◌+◌, Bool, true, false, not, ◌&&◌, ◌⊎◌, inl, inr, ◌==◌, ltb, if◌then◌else◌,
}
use external_minigbm.Errors.{einval}

-- The open handles.
abbrev pub Handles : Type 0
Handles = ℕ → Bool

unfoldable pub set_open : Handles → ℕ → Bool → Handles
set_open handles h b j = if j == h then b else handles j

-- `drv_gem_close`: the handles, and the error number that `close`, the kernel, answers for a handle.
unfoldable pub drv_gem_close : (ℕ → ℕ) → Handles → ℕ → Handles × ℕ
unfolding set_open
drv_gem_close close handles h =
    (if close h == 0 then set_open handles h false else handles, close h)

-- What `drv_prime_bo_import` leaves: the open handles, the buffer's handle and tiling, and the error
-- number.
pub record Imported : Type 0 where
  pub handles : Handles
  pub handle : ℕ
  pub tiling : ℕ
  pub ret : ℕ

-- The way out of the loop of `drv_prime_bo_import` at a plane that failed.
unfoldable pub give_up : (ℕ → ℕ) → ℕ → Handles → ℕ → ℕ → ℕ → Imported
unfolding drv_gem_close
give_up close tiling handles handle plane ret = record {
  handles = if ltb 0 plane then (drv_gem_close close handles handle).0 else handles;
  handle = handle;
  tiling = tiling;
  ret = ret;
}

-- The loop over the planes from `plane` on. `fd_to_handle` is the kernel's answer for the plane's
-- descriptor, an error number or a handle, which is open from then on. The
-- buffer's tiling changes from `old` to `new` where all planes succeed.
module _ (fd_to_handle : ℕ → ℕ ⊎ ℕ) (close : ℕ → ℕ) (old new : ℕ) where
  unfoldable pub import_handles : ℕ → ℕ → Handles → ℕ → Imported
  unfolding drv_gem_close give_up set_open
  import_handles zero plane handles handle = record {
    handles = handles;
    handle = handle;
    tiling = new;
    ret = 0;
  }
  import_handles (suc n) plane handles handle = elim (fd_to_handle plane) [
    | inl errno ↦ give_up close old handles handle plane errno
    | inr h ↦
        let opened = set_open handles h true in
        elim (ltb 0 plane && not (handle == h)) [
          | true ↦ give_up close old (drv_gem_close close opened h).0 handle plane einval
          | false ↦ import_handles n (plane + 1) opened h
        ]
  ]

  -- `drv_prime_bo_import` of a buffer of `num_planes` planes, whose handle is 0 before.
  unfoldable pub drv_prime_bo_import : ℕ → Handles → Imported
  unfolding import_handles
  drv_prime_bo_import num_planes handles = import_handles num_planes 0 handles 0
