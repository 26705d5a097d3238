-- ===== src/Gralloc/Locked.antt =====
-- Any calls of lock and unlock keep a buffer's mapping alive while it is locked, and end well.
use external_minigbm.Base.{
  ℕ, zero, suc, ◌+◌, ◌^◌, ◌≤◌, ◌<◌, ◌≡◌, refl, ◌⊎◌, inl, inr, true, false, Option, none, some, List,
  [], ◌∷◌, arith, ◌==◌, ◌>>=◌, ltb, wrap32, sub32, Bool-cases, Option-cases, Returns, Total,
  has_flag, wrap64, get_or,
}
use external_minigbm.Errors.{efault}
use external_minigbm.Bo.{Bo}
use external_minigbm.Flags.{bo_use_protected}
use external_minigbm.Mappings.{
  Mapping, Rectangle, MapState, MapCall, MapResult, refused, failed, mapped, first_match, may_map,
  drv_bo_map,
}
use external_minigbm.Mappings.Map.{IsFree}
use external_minigbm.Mappings.Unmap.{unmap-Shrunk}
use external_minigbm.Lifecycle.{drv_bo_invalidate, drv_bo_flush_or_unmap}
use external_minigbm.Gralloc.Lock.{
  Lock, whole_rect, plane_addrs, map_for_lock, is_locked, lock, unlock,
}
use external_minigbm.Gralloc.Live.{AllLive-more, live_returns}
use external_minigbm.Gralloc.Shrunk.{Shrunk-Bounded}
use external_minigbm.Gralloc.Mapped.{IsListed, Bounded, IsLeft, map_returns}

-- The mapping that the lock keeps is in the list, and the buffer is locked then.
abbrev pub HasData : MapState → ℕ → Option ℕ → Type 0
HasData s lockcount none = Unit
HasData s lockcount (some self) = (1 ≤ lockcount) × IsListed s.mappings (some self)

pub record Locked (n : ℕ) (s : MapState) (l : Lock) : Type 0 where
  pub bounded : Bounded n s
  pub few_locks : l.lockcount ≤ n
  pub has_data : HasData s l.lockcount l.lock_data

Bounded-more : (n : ℕ) (s : MapState) → Bounded n s → Bounded (n + 1) s
Bounded-more n s b = record {
  counted = b.counted;
  few = omega (arith, b.few);
  live = AllLive-more n (n + 1) s.mappings (omega arith) b.live;
}

pub Locked-more : (n : ℕ) (s : MapState) (l : Lock) → Locked n s l → Locked (n + 1) s l
Locked-more n s l k = record {
  bounded = Bounded-more n s k.bounded;
  few_locks = omega (arith, k.few_locks);
  has_data = k.has_data;
}

-- How a lock ends.
abbrev pub EndsLocked : ℕ → MapState × Lock × (ℕ ⊎ List ℕ) → Type 0
EndsLocked n (s, l, result) = Locked n s l

addrs_return :
    (bo : Bo) (vaddr n p : ℕ) → p + n ≤ bo.metadata.num_planes → Total (plane_addrs bo vaddr n p)
unfolding plane_addrs
addrs_return bo vaddr zero p fits = ([], refl)
addrs_return bo vaddr (suc n) p fits =
    let (rest, e) = addrs_return bo vaddr n (p + 1) (omega arith) in
    let inside : ltb p bo.metadata.num_planes ≡ true = ground (arith, fits) in
    (wrap64 (vaddr + get_or bo.metadata.offsets p 0) ∷ rest, rw (inside, e) refl)

module _ (invalidates flushes : Option (Bo → Mapping → ℕ)) (unmap : ℕ → ℕ) (bo : Bo)
    (unprotected : has_flag bo.metadata.use_flags bo_use_protected ≡ false) where
  -- The end of the last lock.
  last_unlock :
      (n self : ℕ) (s : MapState) {m : Mapping}
      → n < 2 ^ 31
      → Bounded n s
      → first_match (λ k. k.self == self) s.mappings ≡ some m
      → Returns (λ after. Bounded n after.0) (drv_bo_flush_or_unmap flushes unmap s bo self)
  unfolding drv_bo_flush_or_unmap
  last_unlock n self s {m} small b found =
      let (alive, _) = live_returns n self s {m = m} b.counted b.live found in
      elim (Option-cases flushes) [
        | inr (f, e) ↦ ((s, f bo m), rw (alive, unprotected, e) refl, b)
        | inl e ↦
            let (after, e', (counted, shrunk)) =
              unmap-Shrunk unmap s self {m = m} b.counted (omega (arith, b.few)) found in
            (
              after,
              rw (alive, unprotected, e) e',
              Shrunk-Bounded n self s after.0 {m = m} small b found counted shrunk,
            )
      ]

  pub unlock_at :
      (n : ℕ) (s : MapState) (count : ℕ) (kept : Option ℕ)
      → n < 2 ^ 31
      → count ≤ n
      → Bounded n s
      → HasData s count kept
      → Returns
          (λ after. Locked n after.0 after.1)
          (unlock invalidates flushes unmap bo s (record { lockcount = count; lock_data = kept }))
  unfolding unlock
  unlock_at n s zero none small few b d =
      (_, refl, record { bounded = b; few_locks = few; has_data = tt })
  unlock_at n s zero (some self) small few b d = absurd (omega (arith, d.0))
  unlock_at n s (suc zero) none small few b d =
      (_, refl, record { bounded = b; few_locks = omega arith; has_data = tt })
  unlock_at n s (suc zero) (some self) small few b (some_left, (m, found)) =
      let ((s', ret), e, b') = last_unlock n self s {m = m} small b found in
      (
        (s', record { lockcount = 0; lock_data = none }, 0),
        rw e refl,
        record { bounded = b'; few_locks = omega arith; has_data = tt },
      )
  unlock_at n s (suc (suc count)) kept small few b d =
      let held : is_locked (suc (suc count)) ≡ true = ground (arith, small, few) in
      let left : sub32 (suc (suc count)) 1 ≡ suc count = omega (arith, small, few) in
      let more : (suc count == 0) ≡ false = ground arith in
      (
        (s, record { lockcount = suc count; lock_data = kept }, 0),
        rw (held, left, more) refl,
        record { bounded = b; few_locks = omega arith; has_data = fewer kept d },
      )
    where
      fewer : (kept : Option ℕ) → HasData s (suc (suc count)) kept → HasData s (suc count) kept
      fewer none d = tt
      fewer (some self) d = (omega arith, d.1)

  -- The end of a lock that works.
  abbrev addressed : ℕ → ℕ → ℕ → MapState → Option ℕ → Option (MapState × Lock × (ℕ ⊎ List ℕ))
  addressed planes count addr s kept = do
    addrs ← plane_addrs bo addr planes 0
    some (s, record { lockcount = wrap32 (count + 1); lock_data = kept }, inr addrs)

  -- With a mapping at hand, the addresses are returned.
  counted_up :
      (n planes count addr : ℕ) (s : MapState) (kept : Option ℕ)
      → count + 1 ≤ n
      → n < 2 ^ 31
      → Bounded n s
      → IsListed s.mappings kept
      → planes ≤ bo.metadata.num_planes
      → Returns (EndsLocked n) (addressed planes count addr s kept)
  counted_up n planes count addr s kept few small b listed fits =
      let (addrs, e) = addrs_return bo addr planes 0 (omega arith) in
      let up : wrap32 (count + 1) ≡ count + 1 = omega (arith, few, small) in
      (
        (s, record { lockcount = count + 1; lock_data = kept }, inr addrs),
        rw (e, up) refl,
        record { bounded = b; few_locks = few; has_data = data_of kept listed },
      )
    where
      data_of : (kept : Option ℕ) → IsListed s.mappings kept → HasData s (count + 1) kept
      data_of none listed = tt
      data_of (some self) listed = (omega arith, listed)

  kept_mapping :
      (s : MapState) (count : ℕ) (kept : Option ℕ) → HasData s count kept → IsListed s.mappings kept
  kept_mapping s count none d = tt
  kept_mapping s count (some self) d = d.1

  lock_zero :
      (n planes count : ℕ) (call : MapCall) (s : MapState) (kept : Option ℕ) (rect : Rectangle)
      (map_flags : ℕ)
      → (map_flags == 0) ≡ true
      → count + 1 ≤ n
      → n < 2 ^ 31
      → Bounded n s
      → HasData s count kept
      → planes ≤ bo.metadata.num_planes
      → Returns (EndsLocked n) (
          lock invalidates flushes unmap bo planes call s
            (record { lockcount = count; lock_data = kept })
            rect
            map_flags)
  unfolding lock
  lock_zero n planes count call s kept rect map_flags none_asked few small b d fits =
      rw none_asked
        (counted_up n planes count 0 s kept few small b (kept_mapping s count kept d) fits)

  lock_again :
      (n planes count self : ℕ) (call : MapCall) (s : MapState) (rect : Rectangle) (map_flags : ℕ)
      → (map_flags == 0) ≡ false
      → count + 1 ≤ n
      → n < 2 ^ 31
      → Bounded n s
      → HasData s count (some self)
      → planes ≤ bo.metadata.num_planes
      → Returns (EndsLocked n) (
          lock invalidates flushes unmap bo planes call s
            (record { lockcount = count; lock_data = some self })
            rect
            map_flags)
  unfolding lock map_for_lock drv_bo_invalidate
  lock_again n planes count self call s rect map_flags flags few small b (some_left, (m, found))
        fits =
      let (alive, (addr, there)) = live_returns n self s {m = m} b.counted b.live found in
      rw (flags, alive, there)
        (counted_up n planes count addr s (some self) few small b (m, found) fits)

  first_lock :
      (n planes : ℕ) (call : MapCall) (s : MapState) (count : ℕ) (rect : Rectangle) (map_flags : ℕ)
      (s' : MapState) (result : MapResult)
      → (map_flags == 0) ≡ false
      → count + 1 ≤ n
      → n < 2 ^ 31
      → drv_bo_map call s bo (whole_rect bo rect) map_flags 0 ≡ some (s', result)
      → IsLeft n (s', result)
      → planes ≤ bo.metadata.num_planes
      → Returns (EndsLocked n) (
          lock invalidates flushes unmap bo planes call s
            (record { lockcount = count; lock_data = none })
            rect
            map_flags)
  unfolding lock map_for_lock
  first_lock n planes call s count rect map_flags s' refused flags few small e b fits = (
    (s', record { lockcount = count; lock_data = none }, inl efault),
    rw (flags, e) refl,
    record { bounded = b; few_locks = omega (arith, few); has_data = tt },
  )
  first_lock n planes call s count rect map_flags s' failed flags few small e b fits = (
    (s', record { lockcount = count; lock_data = none }, inl efault),
    rw (flags, e) refl,
    record { bounded = b; few_locks = omega (arith, few); has_data = tt },
  )
  first_lock n planes call s count rect map_flags s' (mapped addr self) flags few small e
        (b, listed) fits =
      rw (flags, e) (counted_up n planes count addr s' (some self) few small b listed fits)

  -- What a lock meets: a rectangle inside of the buffer and map flags for reading or writing, or no map
  -- flags; and no more planes than the buffer has.
  pub lock_at :
      (n planes : ℕ) (call : MapCall) (s : MapState) (count : ℕ) (kept : Option ℕ)
      (rect : Rectangle) (map_flags : ℕ)
      → n + 1 < 2 ^ 31
      → count ≤ n
      → Bounded n s
      → HasData s count kept
      → IsFree s call.new_vma
      → 1 ≤ planes
      → planes ≤ bo.metadata.num_planes
      → (map_flags ≡ 0) ⊎ (may_map bo (whole_rect bo rect) map_flags ≡ true)
      → Returns (EndsLocked (n + 1)) (
          lock invalidates flushes unmap bo planes call s
            (record { lockcount = count; lock_data = kept })
            rect
            map_flags)
  unfolding lock
  lock_at n planes call s count kept rect map_flags small few b d free some_plane fits asked =
      elim (Bool-cases (map_flags == 0)) [
        | inl zero_flags ↦
            lock_zero (n + 1) planes count call s kept rect map_flags zero_flags
              (omega (arith, few)) small (Bounded-more n s b) d fits
        | inr flags ↦ by_kept kept d flags
      ]
    where
      may : (map_flags == 0) ≡ false → may_map bo (whole_rect bo rect) map_flags ≡ true
      may flags = elim asked [ inl e ↦ absurd (ground (arith, flags, e)) | inr e ↦ e ]

      by_kept :
          (kept : Option ℕ)
          → HasData s count kept
          → (map_flags == 0) ≡ false
          → Returns (EndsLocked (n + 1)) (
              lock invalidates flushes unmap bo planes call s
                (record { lockcount = count; lock_data = kept })
                rect
                map_flags)
      by_kept none d flags =
          let ((s', result), e, left) =
            map_returns n call s bo (whole_rect bo rect) map_flags b (omega arith) free (may flags)
              (omega arith) in
          first_lock (n + 1) planes call s count rect map_flags s' result flags (omega (arith, few))
            small e left fits
      by_kept (some self) d flags =
          lock_again (n + 1) planes count self call s rect map_flags flags (omega (arith, few))
            small (Bounded-more n s b) d fits
