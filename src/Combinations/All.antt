-- ===== src/Combinations/All.antt =====
-- A test that every entry of a table passes holds of what a search finds.
use external_minigbm.Base.{
  ℕ, ◌≡◌, sym, Bool, true, ◌&&◌, ◌||◌, Option, none, some, [], ◌∷◌, ◌++◌, arith, ◌==◌, Bool-cases,
  inl, inr,
}
use external_minigbm.Drm.{drm_format_none}
use external_minigbm.Flags.{bo_use_none}
use external_minigbm.Combinations.{Combination, Combinations, supports, drv_get_combination}
use external_minigbm.Combinations.Best.{Finds, found, get_combination-Finds}

module _ (test : Combination → Bool) where
  abbrev pub all : Combinations → Bool
  all [] = true
  all (c ∷ combos) = test c && all combos

  all-append :
      (before : Combinations) (c : Combination) (after : Combinations)
      → all (before ++ (c ∷ after)) ≡ true
      → test c ≡ true
  all-append [] c after passed = ground arith
  all-append (b ∷ before) c after passed = all-append before c after (ground arith)

  nothing : {c : Combination} → none ≡ some c → ⊥
  nothing e = cc

  some_injective : {a b : Combination} → some a ≡ some b → a ≡ b
  some_injective e = cc

  found_passes :
      (format use_flags : ℕ) (combos : Combinations) (c : Combination) (o : Option Combination)
      → all combos ≡ true
      → o ≡ some c
      → Finds format use_flags combos o
      → (test c ≡ true) × (supports format use_flags c ≡ true)
  found_passes format use_flags combos c none passed e none_there = absurd (nothing e)
  found_passes format use_flags combos c (some best) passed e (found b) =
      let same : best ≡ c = some_injective e in
      rw (sym same) (all-append b.before best b.after (rw b.split at passed), b.supported)

  pub get_combination-passes :
      (combos : Combinations) (format use_flags : ℕ) (c : Combination)
      → all combos ≡ true
      → drv_get_combination combos format use_flags ≡ some c
      → (test c ≡ true) × (supports format use_flags c ≡ true)
  unfolding drv_get_combination
  get_combination-passes combos format use_flags c passed e =
      elim (Bool-cases (format == drm_format_none || use_flags == bo_use_none)) [
        | inl refused ↦ absurd (nothing (rw refused at e))
        | inr asked_for ↦
            found_passes format use_flags combos c (drv_get_combination combos format use_flags)
              passed e (get_combination-Finds combos format use_flags (ground arith) (ground arith))
      ]
