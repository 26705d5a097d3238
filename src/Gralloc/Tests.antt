-- ===== src/Gralloc/Tests.antt =====
-- Runs of gralloc: one buffer of one plane with a reserved region of a page.
use external_minigbm.Base.{
  false, inr, refl, arith, true, none, some, [], ◌∷◌, Returns, ◌==◌, if◌then◌else◌, List,
}
use external_minigbm.Drm.{drm_format_r8}
use external_minigbm.Flags.{bo_map_read, bo_map_read_write}
use external_minigbm.Bo.{Bo, no_planes}
use external_minigbm.Mappings.{Rectangle, MapState, MapCall, may_map}
use external_minigbm.Mappings.Sound.{uses}
use external_minigbm.Gralloc.Lock.{Lock, whole_rect}
use external_minigbm.Gralloc.Locked.{Locked}
use external_minigbm.Gralloc.Locks.{
  LockCall, locks, unlocks, lock_calls, EndsWell, AllAllowed, done, next, lock_calls-Locked,
}
use external_minigbm.Gralloc.{
  NativeHandle, Registry, AllocateAnswers, new_handle, find_handle, cros_gralloc_convert_handle,
}
use external_minigbm.Gralloc.Refs.{refs, total}
use external_minigbm.Gralloc.Counted.{Counted}
use external_minigbm.Gralloc.Runs.{
  Call, cons, nil, allocates, retains, releases, run, empty, Distinct, run-Counted,
}
use external_minigbm.Gralloc.Drained.{drain, Empty, drain-Empty}

abbrev native : NativeHandle
native = record {
  num_fds = 2;
  num_ints = 34;
  magic = 2882395322;
  id = 1;
  num_planes = 1;
  reserved_region_size = 4096;
}

abbrev answers : AllocateAnswers
answers = record {
  resolves = true;
  create_bo = 0;
  plane_fds = 0;
  reserved_region = 0;
  creates = true;
}

abbrev calls : List Call
calls = allocates answers 4096 ∷ retains true true 4096 native ∷ releases 4096 native ∷ []

calls-Distinct : Distinct calls empty
unfolding find_handle
calls-Distinct = cons (refl, refl) (λ s ret e. cons tt (λ s ret e. cons tt (λ s ret e. nil)))

run-Counted_example : Returns Counted (run calls empty)
run-Counted_example = run-Counted calls calls-Distinct (omega arith)

abbrev shared : Registry
shared = record {
  handles = record { handle = 4096; buffer = 1; refcount = 2 } ∷ new_handle 8192 1 ∷ [];
  buffers = λ id. if 1 == id then some 3 else none;
  next_buffer_id = 2;
}

shared-Counted : Counted shared
unfolding refs
shared-Counted = record {
  counted = λ id. ground arith;
  live = λ id e. ground arith;
  held = ground arith;
}

drain-Empty_example : Returns Empty (drain native 3 shared)
unfolding cros_gralloc_convert_handle total
drain-Empty_example = drain-Empty native 3 shared refl shared-Counted refl (omega arith)

-- Two locks, the second one inside of the first, and their unlocks.
abbrev locked_bo : Bo
locked_bo = record {
  metadata = record {
    width = 64;
    height = 4;
    format = drm_format_r8;
    tiling = 0;
    num_planes = 1;
    offsets = no_planes;
    sizes = 256 ∷ 0 ∷ 0 ∷ 0 ∷ [];
    strides = 64 ∷ 0 ∷ 0 ∷ 0 ∷ [];
    format_modifier = 0;
    use_flags = 1;
    total_size = 256;
    cached = false;
  };
  is_test_buffer = false;
  handle = 1;
  inode = 5;
}

abbrev everything : Rectangle
everything = record { x = 0; y = 0; width = 0; height = 0 }

abbrev first_answers : MapCall
first_answers = record { new_mapping = 100; new_vma = some 200; backend_map = some (4096, 256) }

abbrev no_answers : MapCall
no_answers = record { new_mapping = 100; new_vma = none; backend_map = none }

abbrev lock_run : List LockCall
lock_run =
    locks 1 first_answers everything bo_map_read_write
    ∷ locks 1 no_answers everything bo_map_read
    ∷ unlocks
    ∷ unlocks
    ∷ []

abbrev no_maps : MapState
no_maps = record { mappings = []; vmas = λ v. none; unmapped = [] }

abbrev unlocked : Lock
unlocked = record { lockcount = 0; lock_data = none }

run-Allowed : AllAllowed none none (λ addr. 0) locked_bo lock_run no_maps unlocked
unfolding may_map whole_rect
run-Allowed =
    next (refl, omega arith, omega arith, inr refl)
      (λ s l e.
        next (tt, omega arith, omega arith, inr refl)
          (λ s l e. next tt (λ s l e. next tt (λ s l e. done))))

unlocked-Locked : Locked 0 no_maps unlocked
unfolding uses
unlocked-Locked = record {
  bounded = record { counted = λ v. refl; few = omega arith; live = tt };
  few_locks = omega arith;
  has_data = tt;
}

lock_calls-Locked_example :
    Returns (EndsWell 4) (lock_calls none none (λ addr. 0) locked_bo lock_run no_maps unlocked)
lock_calls-Locked_example =
    lock_calls-Locked none none (λ addr. 0) locked_bo refl lock_run 0 no_maps unlocked run-Allowed
      unlocked-Locked (omega arith)
