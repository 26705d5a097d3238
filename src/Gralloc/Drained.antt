-- ===== src/Gralloc/Drained.antt =====
-- Every buffer can be let go: the releases of all handles destroy all buffers.
use external_minigbm.Base.{
  ℕ, zero, suc, ◌+◌, ◌^◌, ◌<◌, ◌≡◌, refl, sym, true, Option, none, some, List, [], ◌∷◌, arith, ◌==◌,
  ==_refl, ◌>>=◌, ◌>>◌, assert, ◌≤◌, ◌∙◌, Returns,
}
use external_minigbm.Gralloc.{
  NativeHandle, HandleInfo, Registry, cros_gralloc_convert_handle, find_handle, release,
}
use external_minigbm.Gralloc.Refs.{total, refs, lower_handle-Lowered}
use external_minigbm.Gralloc.Counted.{Counted, found_buffer, release_found}

-- The first entry of the process's handles.
unfoldable pub first_handle : List HandleInfo → Option HandleInfo
first_handle [] = none
first_handle (first ∷ handles) = some first

-- `n` releases, each of the first handle that the process still has; `none` where one fails.
unfoldable pub drain : NativeHandle → ℕ → Registry → Option Registry
unfolding release first_handle
drain native zero s = some s
drain native (suc n) s = do
  first ← first_handle s.handles
  (s', ret) ← release s first.handle native
  assert (ret == 0)
  drain native n s'

-- Nothing is left.
pub record Empty (s : Registry) : Type 0 where
  pub no_handles : s.handles ≡ []
  pub no_buffers : (id : ℕ) → s.buffers id ≡ none

-- A release of a handle in the list succeeds, and one reference less is held.
release_one :
    (s : Registry) (handle : ℕ) (native : NativeHandle) (info : HandleInfo)
    → cros_gralloc_convert_handle native ≡ true
    → find_handle handle s.handles ≡ some info
    → Counted s
    → total s.handles < 2 ^ 31
    → (s' : Registry) × (release s handle native ≡ some (s', 0))
      × Counted s'
      × (total s.handles ≡ total s'.handles + 1)
unfolding release
release_one s handle native info valid e c few =
    let (count, found) = found_buffer s handle info e c few in
    let (pos, kept) = release_found s handle info count e found c few in
    let lower = lower_handle-Lowered handle s.handles e c.held few in
    (_, rw (valid, e, found, pos) refl, kept.counted, lower.total_lowered)

-- Where no handle is left, no buffer is.
none_left :
    (s : Registry) (handles : List HandleInfo)
    → s.handles ≡ handles
    → Counted s
    → total handles ≡ 0
    → Empty s
unfolding refs total
none_left s [] e c done = record { no_handles = e; no_buffers = λ id. gone id (s.buffers id) refl }
  where
    gone : (id : ℕ) (b : Option ℕ) → s.buffers id ≡ b → s.buffers id ≡ none
    gone id none found = found
    gone id (some count) found =
        let no_refs : count ≡ 0 = rw (found, e) at (c.counted id) in
        absurd (c.live id (rw (sym no_refs) found))
none_left s (info ∷ handles) e c done = let held = rw e at c.held in absurd (omega (arith, held.0))

-- While references are held, there is a first handle, and it is found under its address.
first_found :
    (handles : List HandleInfo)
    → 1 ≤ total handles
    → (first : HandleInfo) × (first_handle handles ≡ some first)
      × (find_handle first.handle handles ≡ some first)
unfolding first_handle find_handle total
first_found [] some_left = absurd (omega (arith, some_left))
first_found (first ∷ handles) some_left = (first, refl, rw (==_refl first.handle) refl)

drain_eq :
    (native : NativeHandle) (n : ℕ) (s s' : Registry) (first : HandleInfo)
    → first_handle s.handles ≡ some first
    → release s first.handle native ≡ some (s', 0)
    → drain native (suc n) s ≡ drain native n s'
unfolding drain
drain_eq native n s s' first e run = rw (e, run) refl

-- In a consistent registry of fewer than 2^31 references, releasing the handles as often as they hold
-- references succeeds every time, and leaves no handle and no buffer: every buffer is destroyed.
pub drain-Empty :
    (native : NativeHandle) (n : ℕ) (s : Registry)
    → cros_gralloc_convert_handle native ≡ true
    → Counted s
    → total s.handles ≡ n
    → n < 2 ^ 31
    → Returns Empty (drain native n s)
unfolding drain
drain-Empty native zero s valid c e few = (s, refl, none_left s s.handles refl c e)
drain-Empty native (suc n) s valid c e few =
    let (first, is_first, found) = first_found s.handles (omega (arith, e)) in
    let (s', run, c', one) =
      release_one s first.handle native first valid found c (omega (arith, e)) in
    let (after, end, done) =
      drain-Empty native n s' valid c' (omega (arith, one, e)) (omega arith) in
    (after, drain_eq native n s s' first is_first run ∙ end, done)
