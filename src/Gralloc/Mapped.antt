-- ===== src/Gralloc/Mapped.antt =====
-- What `drv_bo_map` leaves for a lock: a mapping that can be used.
use external_minigbm.Base.{
  ℕ, ◌+◌, ◌^◌, ◌≤◌, ◌<◌, ◌≡◌, refl, inl, inr, true, false, ◌&&◌, Option, none, some, List, [], ◌∷◌,
  ◌++◌, arith, length, ◌==◌, ltb, Bool-cases, Option-cases, Returns, get_or, wrap64,
}
use external_minigbm.Bo.{Bo}
use external_minigbm.Mappings.{
  Mapping, Rectangle, MapState, MapCall, MapResult, refused, failed, mapped, shares, same_rect,
  first_match, update_mapping, raise_mapping, find_or_map, may_map, drv_bo_map,
}
use external_minigbm.Mappings.Map.{Counted, IsFree, find_or_map-Counted}
use external_minigbm.Gralloc.Live.{
  AllLive, AllLive-more, AllLive-push, AllLive-raise, found_raised, found_pushed, live_returns,
}

-- The mapping at this address, if one is named, is in the list.
abbrev pub IsListed : List Mapping → Option ℕ → Type 0
IsListed ms none = Unit
IsListed ms (some self) = (m : Mapping) × (first_match (λ k. k.self == self) ms ≡ some m)

-- At most `n` mappings, each counted and at most `n` times, and vmas that count them.
pub record Bounded (n : ℕ) (s : MapState) : Type 0 where
  pub counted : Counted s
  pub few : length s.mappings ≤ n
  pub live : AllLive n s.mappings

length-update :
    (self : ℕ) (f : Mapping → Mapping) (ms : List Mapping)
    → length (update_mapping self f ms) ≡ length ms
unfolding update_mapping
length-update self f [] = refl
length-update self f (m ∷ ms) = ground (arith, length-update self f ms)

length-push : (ms : List Mapping) (m : Mapping) → length (ms ++ (m ∷ [])) ≡ length ms + 1
length-push [] m = refl
length-push (k ∷ ms) m = omega (arith, length-push ms m)

abbrev Listed : ℕ → MapState × Option ℕ → Type 0
Listed n (s, self) = (length s.mappings ≤ n) × AllLive n s.mappings × IsListed s.mappings self

-- A new mapping at the end of the list.
pushed :
    (n : ℕ) (s : MapState)
    → Bounded n s
    → (m : Mapping) → m.refcount ≡ 1
    → Listed (n + 1) (record s { mappings = s.mappings ++ (m ∷ []) }, some m.self)
pushed n s b m one =
    let grown = AllLive-more n (n + 1) s.mappings (omega arith) b.live in
    (
      omega (arith, length-push s.mappings m, b.few),
      AllLive-push (n + 1) s.mappings m grown (omega (arith, one)) (omega (arith, one)),
      found_pushed s.mappings m,
    )

find_or_map-Listed :
    (n : ℕ) (call : MapCall) (s : MapState) (bo : Bo) (rect : Rectangle) (map_flags : ℕ)
    → Bounded n s
    → n < 2 ^ 31
    → Listed (n + 1) (find_or_map call s bo rect map_flags)
unfolding find_or_map
find_or_map-Listed n call s bo rect map_flags b small =
    let grown = AllLive-more n (n + 1) s.mappings (omega arith) b.live in
    let push = pushed n s b in
    elim (Option-cases
      (first_match (λ m. shares s.vmas bo.inode map_flags m && same_rect rect m.rect) s.mappings)) [
        | inr (prior, e) ↦
            rw (e, find_or_map)
              (
                omega (arith, length-update prior.self raise_mapping s.mappings, b.few),
                AllLive-raise n prior.self s.mappings small b.live,
                found_raised (λ m. shares s.vmas bo.inode map_flags m && same_rect rect m.rect)
                    s.mappings {prior = prior} e,
              )
        | inl no_exact ↦
            elim (Option-cases (first_match (shares s.vmas bo.inode map_flags) s.mappings)) [
              | inr (prior, e) ↦ rw (no_exact, e, find_or_map) (push _ refl)
              | inl no_vma ↦ elim (Option-cases call.new_vma) [
                | inl e ↦ rw (no_exact, no_vma, e, find_or_map) (omega (arith, b.few), grown, tt)
                | inr (v, e) ↦ elim (Option-cases call.backend_map) [
                  | inl no_map ↦
                      rw (no_exact, no_vma, e, no_map, find_or_map)
                        (omega (arith, b.few), grown, tt)
                  | inr (answer, is_mapped) ↦
                      rw (no_exact, no_vma, e, is_mapped, find_or_map) (push _ refl)
                ]
              ]
            ]
      ]

-- How a call of `drv_bo_map` may end.
abbrev pub IsLeft : ℕ → MapState × MapResult → Type 0
IsLeft n (s, refused) = Bounded n s
IsLeft n (s, failed) = Bounded n s
IsLeft n (s, mapped addr self) = Bounded n s × IsListed s.mappings (some self)

module _ (n : ℕ) (call : MapCall) (s : MapState) (bo : Bo) (rect : Rectangle) (map_flags : ℕ) where
  -- The end of `drv_bo_map`, after the mapping was found or made.
  ended :
      (s' : MapState) (found : Option ℕ)
      → (find_or_map call s bo rect map_flags).0 ≡ s'
      → (find_or_map call s bo rect map_flags).1 ≡ found
      → may_map bo rect map_flags ≡ true
      → bo.is_test_buffer ≡ false
      → 1 ≤ bo.metadata.num_planes
      → Bounded n s'
      → IsListed s'.mappings found
      → Returns (IsLeft n) (drv_bo_map call s bo rect map_flags 0)
  unfolding drv_bo_map
  ended s' none e e' may real planes b listed =
      ((s', failed), rw (drv_bo_map, may, real, e', e) refl, b)
  ended s' (some self) e e' may real planes b (m, found) =
      let (alive, (addr, there)) = live_returns n self s' {m = m} b.counted b.live found in
      let pos : ltb 0 bo.metadata.num_planes ≡ true = ground (arith, planes) in
      (
        (s', mapped (wrap64 (addr + get_or bo.metadata.offsets 0 0)) self),
        rw (drv_bo_map, may, real, e', e, alive, there, pos) refl,
        (b, (m, found)),
      )

-- `drv_bo_map` returns, whatever it is answered.
pub map_returns :
    (n : ℕ) (call : MapCall) (s : MapState) (bo : Bo) (rect : Rectangle) (map_flags : ℕ)
    → Bounded n s
    → n < 2 ^ 31
    → IsFree s call.new_vma
    → may_map bo rect map_flags ≡ true
    → 1 ≤ bo.metadata.num_planes
    → Returns (IsLeft (n + 1)) (drv_bo_map call s bo rect map_flags 0)
unfolding drv_bo_map
map_returns n call s bo rect map_flags b small free may planes =
    elim (Bool-cases bo.is_test_buffer) [
      | inl test ↦ (
        (s, refused),
        rw (drv_bo_map, may, test) refl,
        record {
          counted = b.counted;
          few = omega (arith, b.few);
          live = AllLive-more n (n + 1) s.mappings (omega arith) b.live;
        },
      )
      | inr real ↦
          let found = find_or_map call s bo rect map_flags in
          let (few, live, listed) = find_or_map-Listed n call s bo rect map_flags b small in
          let counted =
            find_or_map-Counted call s bo rect map_flags b.counted (omega (arith, b.few)) free in
          ended (n + 1) call s bo rect map_flags found.0 found.1 refl refl may real planes
            (record { counted = counted; few = few; live = live }) listed
    ]
