-- ===== src/Lru/Tests.antt =====
-- Runs of the ring: two entries, room for two.
use external_minigbm.Base.{◌≡◌, refl, [], ◌∷◌, arith, Returns, ◌==◌}
use external_minigbm.Lru.{Lru, lru_init, lru_insert, lru_find}
use external_minigbm.Lru.Refine.{
  IsRing, init-IsRing, insert-IsRing, inserted, Answered, find-Answered,
}

abbrev empty_ring : Lru
unfolding lru_init
empty_ring = lru_init (λ q. 0) (λ q. 0) 2

abbrev two_entries : Lru
unfolding lru_insert
two_entries = lru_insert (lru_insert empty_ring 16) 32

two_entries-IsRing : IsRing two_entries (32 ∷ 16 ∷ [])
unfolding lru_init lru_insert
two_entries-IsRing =
    insert-IsRing 32 (16 ∷ [])
      (insert-IsRing 16 [] (init-IsRing (λ q. 0) (λ q. 0) 2) (omega arith) (ground arith))
      (omega arith) (ground arith)

-- The third entry takes the place of the one that was not used for longest.
insert-IsRing_example : IsRing (lru_insert two_entries 48) (inserted 2 48 (32 ∷ 16 ∷ []))
unfolding lru_init lru_insert
insert-IsRing_example =
    insert-IsRing 48 (32 ∷ 16 ∷ []) two_entries-IsRing (omega arith) (ground arith)

evicted : inserted 2 48 (32 ∷ 16 ∷ []) ≡ 48 ∷ 32 ∷ []
evicted = refl

find-Answered_example :
    Returns (Answered (λ q. q == 16) 2 (32 ∷ 16 ∷ [])) (lru_find (λ q. q == 16) two_entries)
unfolding lru_init lru_insert
find-Answered_example = find-Answered (λ q. q == 16) (32 ∷ 16 ∷ []) two_entries-IsRing
