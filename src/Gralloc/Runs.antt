-- ===== src/Gralloc/Runs.antt =====
-- The registry stays consistent through any sequence of calls.
use external_minigbm.Base.{
  ℕ, ◌+◌, ◌^◌, ◌<◌, ◌≡◌, refl, Bool, Option, none, some, List, [], ◌∷◌, arith, length, ◌>>=◌,
  Returns,
}
use external_minigbm.Gralloc.{
  NativeHandle, Registry, find_handle, retain, release, AllocateAnswers, allocate,
}
use external_minigbm.Gralloc.Refs.{refs, total, no_count}
use external_minigbm.Gralloc.Counted.{Counted, Kept}
use external_minigbm.Gralloc.Kept.{retain-Kept, release-Kept, allocate-Kept}

-- A client's call, with what the driver is answered below it.
pub data Call : Type 0 where
  retains : Bool → Bool → ℕ → NativeHandle → Call
  releases : ℕ → NativeHandle → Call
  allocates : AllocateAnswers → ℕ → Call

unfoldable pub call : Call → Registry → Option (Registry × ℕ)
unfolding retain release allocate
call (retains imports creates handle native) s = retain imports creates s handle native
call (releases handle native) s = release s handle native
call (allocates answers handle) s = some (allocate answers s handle)

-- The calls in their order, whether they succeed or not.
unfoldable pub run : List Call → Registry → Option Registry
unfolding call
run [] s = some s
run (c ∷ calls) s = do (s', ret) ← call c s; run calls s'

-- A process that has just started.
abbrev pub empty : Registry
empty = record { handles = []; buffers = λ id. none; next_buffer_id = 1 }

-- No buffer that another process has allocated has the id that this one gives next, and a new native
-- handle is not at the address of one in the list.
abbrev pub NoClash : Call → Registry → Type 0
NoClash (retains imports creates handle native) s = Unit
NoClash (releases handle native) s = Unit
NoClash (allocates answers handle) s =
    (s.buffers s.next_buffer_id ≡ none) × (find_handle handle s.handles ≡ none)

pub data Distinct : List Call → Registry → Type 0 where
  nil : {s : Registry} → Distinct [] s
  cons :
      {c : Call} {calls : List Call} {s : Registry}
      → NoClash c s
      → ((s' : Registry) (ret : ℕ) → call c s ≡ some (s', ret) → Distinct calls s')
      → Distinct (c ∷ calls) s

call-Kept :
    (c : Call) (s : Registry)
    → NoClash c s
    → Counted s
    → total s.handles < 2 ^ 31
    → Returns (Kept s) (call c s)
unfolding call
call-Kept (retains imports creates handle native) s clash c few =
    retain-Kept imports creates s handle native c few
call-Kept (releases handle native) s clash c few = release-Kept s handle native c few
call-Kept (allocates answers handle) s (fresh, unknown) c few =
    (allocate answers s handle, refl, allocate-Kept answers s handle c few fresh unknown)

run_from :
    (calls : List Call) (s : Registry)
    → Distinct calls s
    → Counted s
    → total s.handles + length calls < 2 ^ 31
    → Returns Counted (run calls s)
unfolding run
run_from [] s distinct c few = (s, refl, c)
run_from (first ∷ calls) s (cons clash later) c few =
    let ((s', ret), e, kept) = call-Kept first s clash c (omega arith) in
    let (after, end, counted) =
      run_from calls s' (later s' ret e) kept.counted (omega (arith, kept.few)) in
    (after, rw e end, counted)

-- In a run of fewer than 2^31 calls of retain, release and allocate from the start of the process,
-- in which no allocation meets an id that is taken or a handle's address that is in the list, no
-- call touches a dangling buffer or fails an assertion, and at the end each buffer counts the
-- references of the handles that refer to it, and there is at least one.
pub run-Counted :
    (calls : List Call)
    → Distinct calls empty
    → length calls < 2 ^ 31
    → Returns Counted (run calls empty)
unfolding total refs
run-Counted calls distinct few =
    run_from calls empty distinct
      (record { counted = λ id. refl; live = λ id e. absurd (no_count e); held = tt }) (omega arith)
