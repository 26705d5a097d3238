-- ===== src/Modifiers/Pick.antt =====
-- `drv_pick_modifier` takes the first entry of the order that is on offer.
use external_minigbm.Base.{
  ℕ, ◌≡◌, refl, ap, ◌∙◌, ◌⊎◌, inl, inr, true, false, List, [], ◌∷◌, ◌++◌, arith, ◌==◌, Bool-cases,
}
use external_minigbm.Drm.{drm_format_mod_linear}
use external_minigbm.Modifiers.{drv_has_modifier, drv_pick_modifier}

-- None of `order` is among `modifiers`.
abbrev pub NoneOf : List ℕ → List ℕ → Type 0
NoneOf modifiers [] = Unit
NoneOf modifiers (m ∷ order) = (drv_has_modifier modifiers m ≡ false) × NoneOf modifiers order

-- The order is `before`, none of which is on offer, then the picked modifier, which is.
pub record Picked (modifiers order : List ℕ) (modifier : ℕ) : Type 0 where
  pub before : List ℕ
  pub after : List ℕ
  pub split : order ≡ before ++ (modifier ∷ after)
  pub offered : drv_has_modifier modifiers modifier ≡ true
  pub earlier : NoneOf modifiers before

-- What `drv_pick_modifier` returns is the first modifier of the order that the caller offers, or the
-- linear one where the two lists share none.
pub pick_first :
    (modifiers order : List ℕ)
    → Picked modifiers order (drv_pick_modifier modifiers order)
      ⊎ ((drv_pick_modifier modifiers order ≡ drm_format_mod_linear) × NoneOf modifiers order)
unfolding drv_pick_modifier
pick_first modifiers [] = inr (refl, tt)
pick_first modifiers (m ∷ order) = elim (Bool-cases (drv_has_modifier modifiers m)) [
  | inl on ↦
      rw on (inl (record { before = []; after = order; split = refl; offered = on; earlier = tt }))
  | inr off ↦
      later (drv_pick_modifier modifiers (m ∷ order)) (rw off) off (pick_first modifiers order)
]
  where
    rest : ℕ
    rest = drv_pick_modifier modifiers order

    later :
        (r : ℕ)
        → r ≡ rest
        → drv_has_modifier modifiers m ≡ false
        → Picked modifiers order rest ⊎ ((rest ≡ drm_format_mod_linear) × NoneOf modifiers order)
        → Picked modifiers (m ∷ order) r
          ⊎ ((r ≡ drm_format_mod_linear) × NoneOf modifiers (m ∷ order))
    later r e off (inl picked) = rw e (
        inl (record {
          before = m ∷ picked.before;
          after = picked.after;
          split = ap (λ zs. m ∷ zs) picked.split;
          offered = picked.offered;
          earlier = (off, picked.earlier);
        }))
    later r e off (inr (linear, none)) = inr (e ∙ linear, (off, none))

-- Where `drv_has_modifier` returns true, the modifier is an entry of the list.
pub has_modifier_splits :
    (list : List ℕ) (modifier : ℕ)
    → drv_has_modifier list modifier ≡ true
    → (before : List ℕ) × (after : List ℕ) × (list ≡ before ++ (modifier ∷ after))
unfolding drv_has_modifier
has_modifier_splits [] modifier h = cc
has_modifier_splits (m ∷ list) modifier h = elim (Bool-cases (m == modifier)) [
  | inl here ↦ ([], list, ground arith)
  | inr there ↦
      let (before, after, e) = has_modifier_splits list modifier (ground arith) in
      (m ∷ before, after, ap (λ zs. m ∷ zs) e)
]
