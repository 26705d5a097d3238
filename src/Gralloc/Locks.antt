-- ===== src/Gralloc/Locks.antt =====
-- Any calls of lock and unlock end well.
use external_minigbm.Base.{
  ℕ, ◌+◌, ◌^◌, ◌≤◌, ◌<◌, ◌≡◌, refl, ◌⊎◌, true, false, Option, some, List, [], ◌∷◌, arith, length,
  ◌>>=◌, Returns, has_flag,
}
use external_minigbm.Bo.{Bo}
use external_minigbm.Flags.{bo_use_protected}
use external_minigbm.Mappings.{Mapping, Rectangle, MapState, MapCall, may_map}
use external_minigbm.Mappings.Map.{IsFree}
use external_minigbm.Gralloc.Lock.{Lock, whole_rect, lock, unlock}
use external_minigbm.Gralloc.Locked.{Locked, Locked-more, lock_at, unlock_at}

-- A client's call: `lock` of the handle's planes with a rectangle and map flags, and what the mapping is
-- answered, or `unlock`.
pub data LockCall : Type 0 where
  locks : ℕ → MapCall → Rectangle → ℕ → LockCall
  unlocks : LockCall

-- Lock and mappings are consistent after the calls.
abbrev pub EndsWell : ℕ → MapState × Lock → Type 0
EndsWell n (s, l) = Locked n s l

module _ (invalidates flushes : Option (Bo → Mapping → ℕ)) (unmap : ℕ → ℕ) (bo : Bo) where
  unfoldable pub lock_call : LockCall → MapState → Lock → Option (MapState × Lock)
  unfolding lock unlock
  lock_call (locks planes answers rect map_flags) s l = do
    (s', l', result) ← lock invalidates flushes unmap bo planes answers s l rect map_flags
    some (s', l')
  lock_call unlocks s l = do (s', l', ret) ← unlock invalidates flushes unmap bo s l; some (s', l')

  -- The calls in their order, whether they succeed or not.
  unfoldable pub lock_calls : List LockCall → MapState → Lock → Option (MapState × Lock)
  unfolding lock_call
  lock_calls [] s l = some (s, l)
  lock_calls (c ∷ calls) s l = do (s', l') ← lock_call c s l; lock_calls calls s' l'

  -- A new vma is at a free address; the planes are the buffer's; and where something is mapped, the
  -- rectangle is inside of the buffer, and the flags are for reading or writing.
  abbrev pub Allowed : LockCall → MapState → Type 0
  Allowed (locks planes answers rect map_flags) s =
      IsFree s answers.new_vma
      × (1 ≤ planes)
      × (planes ≤ bo.metadata.num_planes)
      × ((map_flags ≡ 0) ⊎ (may_map bo (whole_rect bo rect) map_flags ≡ true))
  Allowed unlocks s = Unit

  pub data AllAllowed : List LockCall → MapState → Lock → Type 0 where
    done : {s : MapState} {l : Lock} → AllAllowed [] s l
    next :
        {c : LockCall} {calls : List LockCall} {s : MapState} {l : Lock}
        → Allowed c s
        → ((s' : MapState) (l' : Lock) → lock_call c s l ≡ some (s', l') → AllAllowed calls s' l')
        → AllAllowed (c ∷ calls) s l

  module _ (unprotected : has_flag bo.metadata.use_flags bo_use_protected ≡ false) where
    call-Locked :
        (n : ℕ) (c : LockCall) (s : MapState) (l : Lock)
        → n + 1 < 2 ^ 31
        → Allowed c s
        → Locked n s l
        → Returns (EndsWell (n + 1)) (lock_call c s l)
    unfolding lock_call
    call-Locked n (locks planes answers rect map_flags) s l small (free, some_plane, fits, asked)
          k =
        let ((s', l', result), e, k') =
          lock_at invalidates flushes unmap bo unprotected n planes answers s l.lockcount
            l.lock_data rect map_flags small k.few_locks k.bounded k.has_data free some_plane fits
            asked in
        ((s', l'), rw e refl, k')
    call-Locked n unlocks s l small allowed k =
        let ((s', l', ret), e, k') =
          unlock_at invalidates flushes unmap bo unprotected n s l.lockcount l.lock_data
            (omega arith) k.few_locks k.bounded k.has_data in
        ((s', l'), rw e refl, Locked-more n s' l' k')

    -- For an unprotected buffer whose lock and mappings are consistent, where the lock is held at
    -- most n times, there are at most n mappings, each counted at most n times, and n and the
    -- number of calls are together below 2^31: calls of lock and unlock in any order, each with
    -- arguments that the assertions of drv_bo_map allow and fresh addresses from calloc, all
    -- return, whatever the backend answers: no assertion fails and no dangling mapping is touched.
    -- Afterwards lock and mappings are consistent again, with the bound grown by the number of
    -- calls: the mapping that the lock keeps is in the list and counted, and the lock is held.
    pub lock_calls-Locked :
        (calls : List LockCall) (n : ℕ) (s : MapState) (l : Lock)
        → AllAllowed calls s l
        → Locked n s l
        → n + length calls < 2 ^ 31
        → Returns (EndsWell (n + length calls)) (lock_calls calls s l)
    unfolding lock_calls
    lock_calls-Locked [] n s l allowed k small =
        let e : n + length {A = LockCall} [] ≡ n = omega arith in ((s, l), refl, rw e k)
    lock_calls-Locked (c ∷ calls) n s l (next allowed later) k small =
        let ((s', l'), e, k') = call-Locked n c s l (omega arith) allowed k in
        let (after, end, k'') =
          lock_calls-Locked calls (n + 1) s' l' (later s' l' e) k' (omega arith) in
        let up : n + length (c ∷ calls) ≡ n + 1 + length calls = omega arith in
        (after, rw e end, rw up k'')
