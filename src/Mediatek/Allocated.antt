-- ===== src/Mediatek/Allocated.antt =====
-- The object that the kernel or the DMA heap gives for a layout.
use external_minigbm.Base.{
  ℕ, ◌*◌, ◌≤◌, ◌≡◌, refl, Bool, true, false, ◌&&◌, Option, none, some, ◌⊎◌, inl, inr, arith, ◌==◌,
  Bool-cases, if◌then◌else◌, has_flag,
}
use external_minigbm.Drm.{drm_format_p010}
use external_minigbm.Flags.{bo_use_protected, bo_use_linear, bo_use_scanout}
use external_minigbm.Bo.{BoMetadata, Bo}
use external_minigbm.Mediatek.Create.{
  ObjectAnswers, heap_fd, heap_object, pack_p010, mediatek_allocate, handle_of,
}

module _ (has_heap : Bool) (answers : ObjectAnswers) (dma_heap : Option ℕ) (bo : Bo)
    (laid : BoMetadata) (format : ℕ) where
  -- The heap's file descriptor: the driver's own, or the one that `open` gives.
  abbrev pub Opened : ℕ → Type 0
  Opened fd = (dma_heap ≡ some fd) ⊎ ((dma_heap ≡ none) × (answers.open_heap ≡ inr fd))

  -- The heap has no memory of that size, or its file descriptor gets no handle.
  abbrev pub HeapRefused : ℕ → Type 0
  HeapRefused errno =
      (answers.heap_alloc laid.total_size ≡ inl errno)
      ⊎ ((prime : ℕ) × (answers.heap_alloc laid.total_size ≡ inr prime)
          × (answers.prime_fd_to_handle prime ≡ inl errno))

  -- The layout as it is, or P010 packed, with ten sixteenths of the bytes.
  abbrev pub IsKeptOrPacked : BoMetadata → Type 0
  IsKeptOrPacked final =
      (((format == drm_format_p010) ≡ false) × (final ≡ laid))
      ⊎ (((format == drm_format_p010) ≡ true)
          × (final ≡ pack_p010 laid)
          × (final.total_size * 16 ≤ laid.total_size * 10))

  -- The heap's descriptor afterwards and an error, or the buffer with its object's handle. A protected
  -- buffer is of the heap, any other of the kernel; each is asked for exactly the layout's size.
  pub data Allocated : Option ℕ × (ℕ ⊎ Bo) → Type 0 where
    no_heap :
        has_flag laid.use_flags bo_use_protected ≡ true
        → has_heap ≡ false
        → Allocated (dma_heap, inl 1)
    not_open :
        (errno : ℕ)
        → has_flag laid.use_flags bo_use_protected ≡ true
        → has_heap ≡ true
        → dma_heap ≡ none
        → answers.open_heap ≡ inl errno
        → Allocated (none, inl errno)
    heap_refused :
        (fd errno : ℕ)
        → has_flag laid.use_flags bo_use_protected ≡ true
        → has_heap ≡ true
        → Opened fd
        → HeapRefused errno
        → Allocated (some fd, inl errno)
    heap_made :
        (fd prime handle : ℕ) (final : BoMetadata)
        → has_flag laid.use_flags bo_use_protected ≡ true
        → has_heap ≡ true
        → Opened fd
        → answers.heap_alloc laid.total_size ≡ inr prime
        → answers.prime_fd_to_handle prime ≡ inr handle
        → IsKeptOrPacked final
        → Allocated (some fd, inr (record bo { metadata = final; handle = handle }))
    gem_refused :
        (errno : ℕ)
        → has_flag laid.use_flags bo_use_protected ≡ false
        → answers.gem_create laid.total_size
            (has_flag laid.use_flags bo_use_linear && has_flag laid.use_flags bo_use_scanout)
          ≡ inl errno
        → Allocated (dma_heap, inl errno)
    gem_made :
        (handle : ℕ)
        → has_flag laid.use_flags bo_use_protected ≡ false
        → answers.gem_create laid.total_size
            (has_flag laid.use_flags bo_use_linear && has_flag laid.use_flags bo_use_scanout)
          ≡ inr handle
        → Allocated (dma_heap, inr (record bo { metadata = laid; handle = handle }))

  gem-Allocated :
      has_flag laid.use_flags bo_use_protected ≡ false
      → (answer : ℕ ⊎ ℕ)
      → answers.gem_create laid.total_size
          (has_flag laid.use_flags bo_use_linear && has_flag laid.use_flags bo_use_scanout)
        ≡ answer
      → Allocated (dma_heap, handle_of bo laid answer)
  gem-Allocated plain (inl errno) e = gem_refused errno plain e
  gem-Allocated plain (inr handle) e = gem_made handle plain e

  -- The packing of P010, before the heap is asked.
  abbrev final_metadata : BoMetadata
  final_metadata = if format == drm_format_p010 then pack_p010 laid else laid

  packed_size : (pack_p010 laid).total_size * 16 ≤ laid.total_size * 10
  unfolding pack_p010
  packed_size = omega arith

  final_metadata-IsKeptOrPacked : IsKeptOrPacked final_metadata
  final_metadata-IsKeptOrPacked = elim (Bool-cases (format == drm_format_p010)) [
    | inl packed ↦ rw packed (inr (refl, refl, packed_size))
    | inr plain ↦ rw plain (inl (refl, refl))
  ]

  module _ (prot : has_flag laid.use_flags bo_use_protected ≡ true) (built : has_heap ≡ true)
      (fd : ℕ) (opened : Opened fd) where
    prime-Allocated :
        (prime : ℕ)
        → answers.heap_alloc laid.total_size ≡ inr prime
        → (answer : ℕ ⊎ ℕ) → answers.prime_fd_to_handle prime ≡ answer
        → Allocated (some fd, handle_of bo final_metadata answer)
    prime-Allocated prime given (inl errno) e =
        heap_refused fd errno prot built opened (inr (prime, given, e))
    prime-Allocated prime given (inr handle) e =
        heap_made fd prime handle final_metadata prot built opened given e
          final_metadata-IsKeptOrPacked

    heap-Allocated :
        (answer : ℕ ⊎ ℕ)
        → answers.heap_alloc laid.total_size ≡ answer
        → Allocated (some fd, handle_of bo final_metadata (heap_object answers laid.total_size))
    unfolding heap_object
    heap-Allocated (inl errno) e =
        rw (heap_object, e) (heap_refused fd errno prot built opened (inl e))
    heap-Allocated (inr prime) e =
        rw (heap_object, e) (prime-Allocated prime e (answers.prime_fd_to_handle prime) refl)

pub allocate-Allocated :
    (has_heap : Bool) (answers : ObjectAnswers) (dma_heap : Option ℕ) (bo : Bo) (laid : BoMetadata)
    (format : ℕ)
    → Allocated has_heap answers dma_heap bo laid format
        (mediatek_allocate has_heap answers dma_heap bo laid format)
unfolding mediatek_allocate heap_fd
allocate-Allocated has_heap answers dma_heap bo laid format =
    elim (Bool-cases (has_flag laid.use_flags bo_use_protected)) [
      | inl prot ↦ by_heap has_heap dma_heap prot
      | inr plain ↦ rw plain (gem-Allocated has_heap answers dma_heap bo laid format plain _ refl)
    ]
  where
    by_open :
        has_flag laid.use_flags bo_use_protected ≡ true
        → (opened : ℕ ⊎ ℕ) → answers.open_heap ≡ opened
        → Allocated true answers none bo laid format (elim opened [
          | inl errno ↦ (none, inl errno)
          | inr fd ↦ (
            some fd,
            handle_of bo
                (if format == drm_format_p010 then pack_p010 laid else laid)
                (heap_object answers laid.total_size),
          )
        ])
    by_open prot (inl errno) e = not_open errno prot refl refl e
    by_open prot (inr fd) e =
        heap-Allocated true answers none bo laid format prot refl fd (inr (refl, e))
          (answers.heap_alloc laid.total_size) refl

    by_heap :
        (has_heap : Bool) (dma_heap : Option ℕ)
        → has_flag laid.use_flags bo_use_protected ≡ true
        → Allocated has_heap answers dma_heap bo laid format
            (mediatek_allocate has_heap answers dma_heap bo laid format)
    by_heap false dma_heap prot = rw prot (no_heap prot refl)
    by_heap true (some fd) prot = rw prot (
        heap-Allocated true answers (some fd) bo laid format prot refl fd (inl refl)
          (answers.heap_alloc laid.total_size) refl)
    by_heap true none prot = rw prot (by_open prot answers.open_heap refl)
