-- ===== src/Mappings/Sound.antt =====
-- How many mappings refer to a vma.
use external_minigbm.Base.{
  ℕ, ◌+◌, ◌≤◌, ◌≡◌, refl, Option, none, some, List, [], ◌∷◌, ◌++◌, arith, length, ◌==◌,
  if◌then◌else◌,
}
use external_minigbm.Mappings.{Vma, Mapping, update_mapping}

-- The number of mappings that refer to the vma `v`.
unfoldable pub uses : ℕ → List Mapping → ℕ
uses v [] = 0
uses v (m ∷ ms) = (if m.vma == v then 1 else 0) + uses v ms

-- The references that a vma counts; a freed one counts none.
abbrev pub refs : Option Vma → ℕ
refs none = 0
refs (some vma) = vma.refcount

pub uses-le-length : (v : ℕ) (ms : List Mapping) → uses v ms ≤ length ms
unfolding uses
uses-le-length v [] = omega arith
uses-le-length v (m ∷ ms) = ground (arith, uses-le-length v ms)

pub uses-append : (v : ℕ) (ms ns : List Mapping) → uses v (ms ++ ns) ≡ uses v ms + uses v ns
unfolding uses
uses-append v [] ns = omega arith
uses-append v (m ∷ ms) ns = omega (arith, uses-append v ms ns)

-- A change of a reference count leaves the users of every vma as they are.
pub uses-update_mapping :
    (v self : ℕ) (f : Mapping → Mapping) (ms : List Mapping)
    → ((m : Mapping) → (f m).vma ≡ m.vma)
    → uses v (update_mapping self f ms) ≡ uses v ms
unfolding uses update_mapping
uses-update_mapping v self f [] keeps = refl
uses-update_mapping v self f (m ∷ ms) keeps =
    ground (arith, keeps m, uses-update_mapping v self f ms keeps)
