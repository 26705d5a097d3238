-- ===== src/Array/Tests.antt =====
-- Runs of the array's operations.
use external_minigbm.Base.{ℕ, refl, none, some, [], ◌∷◌, arith, inl, inr, Returns}
use external_minigbm.Array.{DrvArray, plenty, append, remove}
use external_minigbm.Array.Refine.{Holds, append-Holds, remove-Holds}

-- Two items in two slots.
abbrev two_items : DrvArray ℕ
two_items = record { items = some 7 ∷ some 8 ∷ []; size = 2; item_size = 4; allocations = 2 }

-- Two items in four slots.
abbrev half_full : DrvArray ℕ
half_full = record {
  items = some 7 ∷ some 8 ∷ none ∷ none ∷ [];
  size = 2;
  item_size = 4;
  allocations = 4;
}

two_items-Holds : Holds two_items (7 ∷ 8 ∷ [])
two_items-Holds = record {
  held = record { rest = []; slots = refl; counted = refl; capacity = refl };
  least = omega arith;
  dense = inl refl;
  word = omega arith;
}

half_full-Holds : Holds half_full (7 ∷ 8 ∷ [])
half_full-Holds = record {
  held = record { rest = none ∷ none ∷ []; slots = refl; counted = refl; capacity = refl };
  least = omega arith;
  dense = inr (omega arith);
  word = omega arith;
}

append-Holds_example : Returns (λ array'. Holds array' (7 ∷ 8 ∷ 9 ∷ [])) (append plenty two_items 9)
append-Holds_example = append-Holds 9 two_items-Holds (omega arith)

remove-Holds_example : Returns (λ array'. Holds array' (8 ∷ [])) (remove plenty half_full 0)
remove-Holds_example = remove-Holds [] 7 (8 ∷ []) half_full-Holds
