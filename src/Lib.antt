-- ===== src/Lib.antt =====
-- minigbm: the allocation of graphics buffers.
--
-- The program. A client asks drv.c for a buffer of a width, a height, a format and a set of use
-- flags. The driver of the kernel's device answers for the formats, the memory layouts and the uses
-- that it supports (the table of combinations); helpers of drv_helpers.c compute the strides, sizes
-- and offsets of the planes. drv.c counts, for each kernel object (by its inode), the planes of the
-- live buffers that stand on it, and keeps one mapping into memory for each object and set of map
-- flags, which clients share.
--
-- The files.
--   Base        equality tests, lists, options, bits, and the words of util.h (ALIGN, DIV_ROUND_UP);
--               a 32-bit or 64-bit result is taken modulo 2^32 or 2^64 (wrap32, wrap64, sub32)
--   Drm, Flags  the constants of drv.h and drv_priv.h, and the codes of libdrm's drm_fourcc.h that
--               the sources name
--   Array       drv_array_helpers.c: the growing array, refined to a list in Array/Refine
--   Layout      drv_helpers.c: the table of planar layouts, strides and sizes of a plane
--   Bo          drv_priv.h: struct bo and struct bo_metadata
--   Planes      drv_helpers.c: subsample_stride, drv_bo_from_format, drv_bo_from_format_and_padding
--   Combinations  drv_helpers.c and drv.c: the table of supported combinations and its search
--   Modifiers   drv_helpers.c: drv_has_modifier, drv_pick_modifier
--   Resolve     drv_helpers.c and drv.c: what a client's format and use flags stand for
--   References  drv.c: drv_bo_acquire and drv_bo_release, over libdrm's hash table
--   Mappings    drv.c: drv_bo_map, drv_bo_unmap and drv_bo_mapping_destroy, over an explicit store of
--               mappings and vmas
--   Lifecycle   drv.c: drv_bo_destroy over the references, the mappings and the kernel's objects, and
--               drv_bo_invalidate, drv_bo_flush, drv_bo_flush_or_unmap and drv_bo_get_plane_fd
--   Lru         drv_helpers.c: the ring of struct lru, refined to a list in Lru/Refine
--   Start       drv.c: drv_create, drv_destroy and drv_get_backend, as what they take and give back
--   Handles     drv_helpers.c: drv_gem_close and drv_prime_bo_import, over the set of open handles
--   Dumb        drv_helpers.c: drv_dumb_bo_create_ex and drv_dumb_bo_create
--   Buffers     drv.c: drv_bo_new, drv_bo_create, drv_bo_create_with_modifiers and drv_bo_import up to
--               the reference on the inode, and what is read from a buffer
--   I915        i915.c: the device (I915, I915/Ids), the table of combinations (I915/Tables), the
--               alignment (I915/Align), the choice of the modifier (I915/Choice), and the layout of
--               the planes for each modifier (I915/Metadata)
--   Msm         msm.c: the table (Msm/Tables), the layout with Qualcomm's compression, and the creation
--               of buffers
--   Memory      the memory, the regions, the blocks and the file descriptors that mappings work on
--   Rockchip    rockchip.c: the table, the linear and the AFBC layout, the creation of buffers, and the
--               mappings with a cached copy (Rockchip/Shadow)
--   Mediatek    mediatek.c: the platforms of the build, the table and the resolution of a request, the
--               layout and the object of a buffer (Mediatek/Create), and the mappings with a cached copy
--               (Mediatek/Shadow)
--   Vc4, DumbDriver  vc4.c and dumb_driver.c: the tables and the creation of buffers
--   Gralloc     cros_gralloc/cros_gralloc_driver.cc: retain, release and allocate, over the handles and
--               the buffers of a process, and the handle's check of cros_gralloc_helpers.cc;
--               cros_gralloc_buffer.cc: lock and unlock (Gralloc/Lock) over the mappings of drv.c
--   Errors      the error numbers
--
-- Conventions. A failed assertion and a read through a null pointer are `none`. Answers of the
-- allocator, of the kernel and of a backend's functions are arguments. libdrm's hash table is a
-- record of operations and laws (References.HashTable). Arrays of the source that have
-- DRV_MAX_PLANES entries are lists. Every loop runs over a list or a counted number of rounds, so no
-- definition has fuel of its own, but for the loop of i915_align_dimensions that doubles an alignment:
-- 32 rounds are enough, since the alignment passes every stride up to 2^31 by then; and for the loop
-- of lru_find, for which as many rounds as the ring counts entries are enough. Locks are left
-- out: each operation holds its lock from the first access to the last, so an operation is one step.
--
-- Not modelled: logging, the system calls themselves, and the backends that are not named above,
-- which work on the tables and helpers modelled here.
pub mod Array
pub mod Base
pub mod Bo
pub mod Buffers
pub mod Combinations
pub mod Drm
pub mod Dumb
pub mod DumbDriver
pub mod Errors
pub mod Flags
pub mod Gralloc
pub mod Handles
pub mod I915
pub mod Layout
pub mod Lifecycle
pub mod Lru
pub mod Mappings
pub mod Mediatek
pub mod Memory
pub mod Modifiers
pub mod Msm
pub mod Planes
pub mod References
pub mod Resolve
pub mod Rockchip
pub mod Start
pub mod Vc4
