-- ===== src/Modifiers/Tests.antt =====
-- Runs of the modifier lists.
use external_minigbm.Base.{ℕ, ◌≡◌, refl, List, [], ◌∷◌}
use external_minigbm.Modifiers.{drv_pick_modifier}

abbrev offered : List ℕ
offered = 5 ∷ 3 ∷ 0 ∷ []

abbrev preferred : List ℕ
preferred = 9 ∷ 3 ∷ 5 ∷ []

picked_second : drv_pick_modifier offered preferred ≡ 3
unfolding drv_pick_modifier
picked_second = refl
