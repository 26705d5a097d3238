-- ===== src/Modifiers.antt =====
-- drv_helpers.c: choosing a format modifier from a list.
mod Tests
pub mod Pick
use external_minigbm.Base.{ℕ, Bool, true, false, ◌||◌, List, [], ◌∷◌, ◌==◌, if◌then◌else◌}
use external_minigbm.Drm.{drm_format_mod_linear}

-- `drv_has_modifier`. The list stands for the pointer and the count.
unfoldable pub drv_has_modifier : List ℕ → ℕ → Bool
drv_has_modifier [] modifier = false
drv_has_modifier (m ∷ list) modifier =
    let rest = drv_has_modifier list modifier in if m == modifier then true else rest

-- `drv_pick_modifier`. The inner loop looks for `modifier_order[i]` among the modifiers and returns
-- the entry that equals it.
unfoldable pub drv_pick_modifier : List ℕ → List ℕ → ℕ
unfolding drv_has_modifier
drv_pick_modifier modifiers [] = drm_format_mod_linear
drv_pick_modifier modifiers (m ∷ modifier_order) =
    let rest = drv_pick_modifier modifiers modifier_order in
    if drv_has_modifier modifiers m then m else rest
