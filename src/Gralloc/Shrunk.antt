-- ===== src/Gralloc/Shrunk.antt =====
-- Unmapping keeps the mappings counted and bounded.
use external_minigbm.Base.{
  ℕ, ◌^◌, ◌≤◌, ◌<◌, ◌≡◌, refl, inl, inr, false, some, List, [], ◌∷◌, arith, length, ◌==◌,
  Bool-cases, sub32,
}
use external_minigbm.Mappings.{
  Mapping, MapState, first_match, update_mapping, lower_mapping, remove_mapping,
}
use external_minigbm.Mappings.Map.{Counted}
use external_minigbm.Mappings.Unmap.{Shrunk, lowered_here, lowered_there}
use external_minigbm.Gralloc.Live.{AllLive}
use external_minigbm.Gralloc.Mapped.{Bounded}

some_injective : {a b : Mapping} → some a ≡ some b → a ≡ b
some_injective e = cc

AllLive-remove :
    (n self : ℕ) (ms : List Mapping)
    → AllLive n ms
    → AllLive n (remove_mapping self (update_mapping self lower_mapping ms))
unfolding update_mapping remove_mapping
AllLive-remove n self [] all = tt
AllLive-remove n self (m ∷ ms) (low, high, all) = elim (Bool-cases (m.self == self)) [
  | inl here ↦ rw (lowered_here self m ms here) all
  | inr there ↦ rw (lowered_there self m ms there) (low, high, AllLive-remove n self ms all)
]

AllLive-lower :
    (n self : ℕ) (ms : List Mapping) {m : Mapping}
    → n < 2 ^ 31
    → AllLive n ms
    → first_match (λ k. k.self == self) ms ≡ some m
    → (sub32 m.refcount 1 == 0) ≡ false
    → AllLive n (update_mapping self lower_mapping ms)
unfolding update_mapping first_match
AllLive-lower n self [] small all e more = tt
AllLive-lower n self (k ∷ ms) {m} small (low, high, all) e more =
    elim (Bool-cases (k.self == self)) [
      | inl here ↦
          let same : k ≡ m = some_injective (rw (here, first_match) at e) in
          let left : (sub32 k.refcount 1 == 0) ≡ false = rw same more in
          rw here (ground (arith, left), omega arith, all)
      | inr there ↦
          rw there (
            low,
            high,
            AllLive-lower n self ms {m = m} small all (rw (there, first_match) at e) more,
          )
    ]

length-remove :
    (self : ℕ) (ms : List Mapping)
    → length (remove_mapping self (update_mapping self lower_mapping ms)) ≤ length ms
unfolding update_mapping remove_mapping
length-remove self [] = omega arith
length-remove self (m ∷ ms) = elim (Bool-cases (m.self == self)) [
  | inl here ↦ rw (lowered_here self m ms here) (omega arith)
  | inr there ↦ rw (lowered_there self m ms there) (omega (arith, length-remove self ms))
]

length-lower :
    (self : ℕ) (ms : List Mapping) → length (update_mapping self lower_mapping ms) ≡ length ms
unfolding update_mapping
length-lower self [] = refl
length-lower self (m ∷ ms) = ground (arith, length-lower self ms)

pub Shrunk-Bounded :
    (n self : ℕ) (s s' : MapState) {m : Mapping}
    → n < 2 ^ 31
    → Bounded n s
    → first_match (λ k. k.self == self) s.mappings ≡ some m
    → Counted s'
    → Shrunk self m s.mappings s'.mappings
    → Bounded n s'
Shrunk-Bounded n self s s' {m} small b found counted (inl (e, more)) = record {
  counted = counted;
  few = rw e (omega (arith, length-lower self s.mappings, b.few));
  live = rw e (AllLive-lower n self s.mappings {m = m} small b.live found more);
}
Shrunk-Bounded n self s s' {m} small b found counted (inr e) = record {
  counted = counted;
  few = rw e (omega (arith, length-remove self s.mappings, b.few));
  live = rw e (AllLive-remove n self s.mappings b.live);
}
