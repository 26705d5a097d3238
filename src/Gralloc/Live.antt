-- ===== src/Gralloc/Live.antt =====
-- A mapping that is in the list and counted can be used.
use external_minigbm.Base.{
  ℕ, ◌+◌, ◌^◌, ◌≤◌, ◌<◌, ◌≡◌, refl, sym, ap, ◌∙◌, inl, inr, Bool, true, false, some, List, [], ◌∷◌,
  ◌++◌, arith, ◌==◌, ltb, Bool-cases, Option-cases, ==_refl,
}
use external_minigbm.Mappings.{
  Mapping, MapState, first_match, update_mapping, raise_mapping, live_mapping, address_of,
}
use external_minigbm.Mappings.Sound.{uses, refs}
use external_minigbm.Mappings.Map.{Counted}
use external_minigbm.Mappings.Unmap.{uses-found}

-- Every mapping of the list is counted, at most `n` times.
abbrev pub AllLive : ℕ → List Mapping → Type 0
AllLive n [] = Unit
AllLive n (m ∷ ms) = (1 ≤ m.refcount) × (m.refcount ≤ n) × AllLive n ms

pub AllLive-more : (n k : ℕ) (ms : List Mapping) → n ≤ k → AllLive n ms → AllLive k ms
AllLive-more n k [] le all = tt
AllLive-more n k (m ∷ ms) le (some_left, few, all) =
    (some_left, omega arith, AllLive-more n k ms le all)

pub AllLive-push :
    (n : ℕ) (ms : List Mapping) (m : Mapping)
    → AllLive n ms
    → 1 ≤ m.refcount
    → m.refcount ≤ n
    → AllLive n (ms ++ (m ∷ []))
AllLive-push n [] m all low high = (low, high, tt)
AllLive-push n (k ∷ ms) m (some_left, few, all) low high =
    (some_left, few, AllLive-push n ms m all low high)

pub AllLive-raise :
    (n self : ℕ) (ms : List Mapping)
    → n < 2 ^ 31
    → AllLive n ms
    → AllLive (n + 1) (update_mapping self raise_mapping ms)
unfolding update_mapping
AllLive-raise n self [] small all = tt
AllLive-raise n self (m ∷ ms) small (some_left, few, all) = elim (Bool-cases (m.self == self)) [
  | inl here ↦ rw here (omega arith, omega arith, AllLive-more n (n + 1) ms (omega arith) all)
  | inr there ↦ rw there (some_left, omega arith, AllLive-raise n self ms small all)
]

some_injective : {a b : Mapping} → some a ≡ some b → a ≡ b
some_injective e = cc

not_both : true ≡ false → ⊥
not_both e = cc

-- A mapping that some search finds is found by its address, before and after it is raised.
pub found_raised :
    (test : Mapping → Bool) (ms : List Mapping) {prior : Mapping}
    → first_match test ms ≡ some prior
    → (m : Mapping) × (first_match
          (λ k. k.self == prior.self)
          (update_mapping prior.self raise_mapping ms)
        ≡ some m)
unfolding first_match update_mapping
found_raised test [] e = cc
found_raised test (k ∷ ms) {prior} e = elim (Bool-cases (k.self == prior.self)) [
  | inl here ↦ (raise_mapping k, rw (here, first_match, here) refl)
  | inr there ↦ elim (Bool-cases (test k)) [
    | inl on ↦
        let same : k ≡ prior = some_injective (rw (on, first_match) at e) in
        let here : (k.self == prior.self) ≡ true = rw same (==_refl prior.self) in
        absurd (not_both (sym here ∙ there))
    | inr off ↦
        let (m, found) = found_raised test ms {prior = prior} (rw (off, first_match) at e) in
        (m, rw (there, first_match, there) found)
  ]
]

pub found_pushed :
    (ms : List Mapping) (m : Mapping)
    → (k : Mapping) × (first_match (λ k. k.self == m.self) (ms ++ (m ∷ [])) ≡ some k)
unfolding first_match
found_pushed [] m = (m, rw (==_refl m.self) refl)
found_pushed (k ∷ ms) m = elim (Bool-cases (k.self == m.self)) [
  | inl here ↦ (k, rw here refl)
  | inr there ↦ let (x, e) = found_pushed ms m in (x, rw there e)
]

found_live :
    (n self : ℕ) (ms : List Mapping) {m : Mapping}
    → AllLive n ms
    → first_match (λ k. k.self == self) ms ≡ some m
    → 1 ≤ m.refcount
unfolding first_match
found_live n self [] all e = cc
found_live n self (k ∷ ms) {m} (low, high, all) e = elim (Bool-cases (k.self == self)) [
  | inl here ↦ let same : k ≡ m = some_injective (rw (here, first_match) at e) in rw (sym same) low
  | inr there ↦ found_live n self ms {m = m} all (rw (there, first_match) at e)
]

-- The assertions on a mapping hold.
pub live_returns :
    (n self : ℕ) (s : MapState) {m : Mapping}
    → Counted s
    → AllLive n s.mappings
    → first_match (λ k. k.self == self) s.mappings ≡ some m
    → (live_mapping s self ≡ some m) × ((addr : ℕ) × (address_of s self ≡ some addr))
unfolding live_mapping address_of
live_returns n self s {m} counted all e =
    let alive : ltb 0 m.refcount ≡ true =
      ground (arith, found_live n self s.mappings {m = m} all e) in
    let used = uses-found self s.mappings {m = m} e in
    elim (Option-cases (s.vmas m.vma)) [
      | inl gone ↦
          let none_left : 0 ≡ uses m.vma s.mappings = sym (ap refs gone) ∙ counted m.vma in
          absurd (omega (arith, none_left, used))
      | inr (vma, there) ↦
          let count : vma.refcount ≡ uses m.vma s.mappings = sym (ap refs there) ∙ counted m.vma in
          let held : ltb 0 vma.refcount ≡ true = ground (arith, count, used) in
          (rw (e, there, alive, held) refl, (vma.addr, rw (e, there) refl))
    ]
