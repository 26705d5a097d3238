-- ===== src/Mappings/Unmap.antt =====
-- `drv_bo_unmap` keeps the counts of the vmas.
use external_minigbm.Base.{
  ℕ, ◌+◌, ◌^◌, ◌≤◌, ◌<◌, ◌≡◌, refl, sym, ◌∙◌, ap, ◌⊎◌, inl, inr, Bool, true, false, Option, some,
  List, [], ◌∷◌, arith, length, ◌==◌, if◌then◌else◌, ◌>>=◌, Bool-cases, sub32, Returns,
}
use external_minigbm.Mappings.{
  Mapping, MapState, first_match, update_mapping, lower_mapping, remove_mapping, release_vma,
  drv_bo_unmap,
}
use external_minigbm.Mappings.Sound.{uses, uses-le-length, uses-update_mapping}
use external_minigbm.Mappings.Map.{Counted}
use external_minigbm.Mappings.Release.{Released, release_vma-Released}

-- The test of the loop that looks for a mapping's address.
abbrev pub is_at : ℕ → Mapping → Bool
is_at self m = m.self == self

some_injective : {a b : Mapping} → some a ≡ some b → a ≡ b
some_injective e = cc

pub lowered_here :
    (self : ℕ) (n : Mapping) (ms : List Mapping)
    → (n.self == self) ≡ true
    → remove_mapping self (update_mapping self lower_mapping (n ∷ ms)) ≡ ms
unfolding update_mapping remove_mapping
lowered_here self n ms here = ap (remove_mapping self) (updated here) ∙ removed here
  where
    updated :
        (n.self == self) ≡ true → update_mapping self lower_mapping (n ∷ ms) ≡ lower_mapping n ∷ ms
    updated here = rw here

    removed : (n.self == self) ≡ true → remove_mapping self (lower_mapping n ∷ ms) ≡ ms
    removed here = rw here

pub lowered_there :
    (self : ℕ) (n : Mapping) (ms : List Mapping)
    → (n.self == self) ≡ false
    → remove_mapping self (update_mapping self lower_mapping (n ∷ ms))
      ≡ n ∷ remove_mapping self (update_mapping self lower_mapping ms)
unfolding update_mapping remove_mapping
lowered_there self n ms there = ap (remove_mapping self) (updated there) ∙ removed there
  where
    updated :
        (n.self == self) ≡ false
        → update_mapping self lower_mapping (n ∷ ms) ≡ n ∷ update_mapping self lower_mapping ms
    updated there = rw there

    removed :
        (n.self == self) ≡ false
        → remove_mapping self (n ∷ update_mapping self lower_mapping ms)
          ≡ n ∷ remove_mapping self (update_mapping self lower_mapping ms)
    removed there = rw there

-- Without the mapping, its vma has one user less.
uses-remove_mapping :
    (w self : ℕ) (ms : List Mapping) {m : Mapping}
    → first_match (is_at self) ms ≡ some m
    → uses w (remove_mapping self (update_mapping self lower_mapping ms))
        + (if m.vma == w then 1 else 0)
      ≡ uses w ms
unfolding uses first_match
uses-remove_mapping w self [] h = cc
uses-remove_mapping w self (n ∷ ms) {m} h = elim (Bool-cases (n.self == self)) [
  | inl here ↦
      let e : n ≡ m = some_injective (rw (here, first_match) at h) in
      omega (
        arith,
        ap (uses w) (lowered_here self n ms here),
        ap {B = ℕ} (λ (k : Mapping). if k.vma == w then 1 else 0) e,
      )
  | inr there ↦
      let ih = uses-remove_mapping w self ms {m = m} (rw (there, first_match) at h) in
      omega (arith, ih, ap (uses w) (lowered_there self n ms there))
]

-- A mapping that is in the list uses its vma.
pub uses-found :
    (self : ℕ) (ms : List Mapping) {m : Mapping}
    → first_match (is_at self) ms ≡ some m
    → 1 ≤ uses m.vma ms
unfolding uses first_match
uses-found self [] h = cc
uses-found self (n ∷ ms) {m} h = elim (Bool-cases (n.self == self)) [
  | inl here ↦
      let e : n.vma ≡ m.vma =
        ap (λ (k : Mapping). k.vma) (some_injective (rw (here, first_match) at h)) in
      ground (arith, e)
  | inr there ↦
      let ih = uses-found self ms {m = m} (rw (there, first_match) at h) in omega (arith, ih)
]

-- The list after an unmap: the mapping counts one less and still counts, or it is gone.
abbrev pub Shrunk : ℕ → Mapping → List Mapping → List Mapping → Type 0
Shrunk self m ms ms' =
    ((ms' ≡ update_mapping self lower_mapping ms) × ((sub32 m.refcount 1 == 0) ≡ false))
    ⊎ (ms' ≡ remove_mapping self (update_mapping self lower_mapping ms))

-- What follows the release: the mapping leaves the list.
remove-Counted :
    (unmap : ℕ → ℕ) (s : MapState) (self v : ℕ) (o : Option (MapState × ℕ))
    → Returns (Released unmap s v (λ w. uses w (remove_mapping self s.mappings))) o
    → Returns
        (λ (after : MapState × ℕ).
          Counted after.0 × (after.0.mappings ≡ remove_mapping self s.mappings))
        (do (s', ret) ← o; some (record s' { mappings = remove_mapping self s'.mappings }, ret))
remove-Counted unmap s self v o ((s', ret), e, r) = (
  (record s' { mappings = remove_mapping self s'.mappings }, ret),
  rw e,
  (rw r.kept r.counted, ap (remove_mapping self) r.kept),
)

pub unmap-Shrunk :
    (unmap : ℕ → ℕ) (s : MapState) (self : ℕ) {m : Mapping}
    → Counted s
    → length s.mappings < 2 ^ 31
    → first_match (λ k. k.self == self) s.mappings ≡ some m
    → Returns
        (λ (after : MapState × ℕ). Counted after.0 × Shrunk self m s.mappings after.0.mappings)
        (drv_bo_unmap unmap s self)
unfolding drv_bo_unmap
unmap-Shrunk unmap s self {m} counted few found =
    let lowered = update_mapping self lower_mapping s.mappings in
    let same : (w : ℕ) → uses w lowered ≡ uses w s.mappings =
      λ w. uses-update_mapping w self lower_mapping s.mappings (λ k. refl) in
    elim (Bool-cases (sub32 m.refcount 1 == 0)) [
      | inr more ↦ (
        (record s { mappings = lowered }, 0),
        rw (found, more),
        ((λ w. counted w ∙ sym (same w)), inl (refl, more)),
      )
      | inl last ↦
          let released =
            release_vma-Released unmap (record s { mappings = lowered }) m.vma
              (λ w. uses w s.mappings) (λ w. uses w (remove_mapping self lowered)) counted
              (λ w. uses-remove_mapping w self s.mappings found) (uses-found self s.mappings found)
              (omega (arith, uses-le-length m.vma s.mappings)) in
          let (after, e, (c, gone)) =
            remove-Counted unmap (record s { mappings = lowered }) self m.vma
              (release_vma unmap (record s { mappings = lowered }) m.vma) released in
          (after, rw (found, last) e, (c, inr gone))
    ]

-- Where each vma counts the mappings that refer to it and there are fewer than 2^31 mappings,
-- `drv_bo_unmap` of a mapping in the list returns, and the vmas count their mappings again, whether
-- the mapping, and with it perhaps its vma, went or not.
pub unmap-Counted :
    (unmap : ℕ → ℕ) (s : MapState) (self : ℕ) {m : Mapping}
    → Counted s
    → length s.mappings < 2 ^ 31
    → first_match (λ k. k.self == self) s.mappings ≡ some m
    → Returns (λ (after : MapState × ℕ). Counted after.0) (drv_bo_unmap unmap s self)
unmap-Counted unmap s self {m} counted few found =
    let (after, e, (c, _)) = unmap-Shrunk unmap s self {m = m} counted few found in (after, e, c)
