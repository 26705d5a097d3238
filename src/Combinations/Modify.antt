-- ===== src/Combinations/Modify.antt =====
-- `drv_modify_combination` adds use flags to exactly the combinations of one layout.
use external_minigbm.Base.{
  ℕ, ◌≡◌, refl, inl, inr, true, [], ◌∷◌, bit_and, bit_or, Bool-cases, bit_or_absorb, if◌then◌else◌,
}
use external_minigbm.Combinations.{
  FormatMetadata, Combination, Combinations, same_layout, drv_modify_combination,
}

module _ (format : ℕ) (metadata : FormatMetadata) (use_flags : ℕ) where
  -- An entry after the call: one of the layout has all of the flags, any other is as it was. The
  -- layout itself never changes.
  pub record Modified (before after : Combination) : Type 0 where
    pub same_format : after.format ≡ before.format
    pub same_metadata : after.metadata ≡ before.metadata
    pub flagged :
        same_layout format metadata before ≡ true → (bit_and after.use_flags use_flags ≡ use_flags)
    pub extended : after.use_flags ≡ (
        if same_layout format metadata before
        then bit_or before.use_flags use_flags
        else before.use_flags)

  abbrev pub AllModified : Combinations → Combinations → Type 0
  AllModified [] [] = Unit
  AllModified [] (d ∷ ds) = ⊥
  AllModified (c ∷ cs) [] = ⊥
  AllModified (c ∷ cs) (d ∷ ds) = Modified c d × AllModified cs ds

-- `drv_modify_combination` keeps the entries of the table in their order; one of the format, tiling
-- and modifier gets all of the flags beside its own, and every other stays as it is.
pub modify_combination_all :
    (combos : Combinations) (format : ℕ) (metadata : FormatMetadata) (use_flags : ℕ)
    → AllModified format metadata use_flags combos
        (drv_modify_combination combos format metadata use_flags)
unfolding drv_modify_combination
modify_combination_all [] format metadata use_flags = tt
modify_combination_all (c ∷ combos) format metadata use_flags =
    (modified, modify_combination_all combos format metadata use_flags)
  where
    modified : Modified format metadata use_flags c (
        if same_layout format metadata c
        then record c { use_flags = bit_or c.use_flags use_flags }
        else c)
    modified = elim (Bool-cases (same_layout format metadata c)) [
      | inl on ↦ rw on (record {
        same_format = refl;
        same_metadata = refl;
        flagged = λ _. bit_or_absorb c.use_flags use_flags;
        extended = rw on;
      })
      | inr off ↦ rw off (record {
        same_format = refl;
        same_metadata = refl;
        flagged = λ on. cc;
        extended = rw off;
      })
    ]
