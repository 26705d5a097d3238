-- ===== src/Msm/Choice.antt =====
-- A request that software or the display's front buffer takes part in gets a linear layout.
use external_minigbm.Base.{
  ℕ, ◌≡◌, refl, Bool, true, false, ◌||◌, some, [], arith, ◌==◌, bit_and, bit_and_disjoint, has_flag,
  Bool-cases, inl, inr,
}
use external_minigbm.Drm.{drm_format_mod_linear}
use external_minigbm.Resolve.{clear_flags}
use external_minigbm.Combinations.{Combination, supports, drv_get_combination}
use external_minigbm.Combinations.All.{all, get_combination-passes}
use external_minigbm.Msm.Tables.{sw_flags, msm_init}

-- A combination is linear, or none of its uses is one of software.
abbrev is_apart : Combination → Bool
is_apart c = c.metadata.modifier == drm_format_mod_linear || bit_and c.use_flags sw_flags == 0

table_apart :
    (avoid_ubwc compression : Bool) → all is_apart (msm_init avoid_ubwc compression []) ≡ true
unfolding msm_init clear_flags
table_apart true compression = refl
table_apart false true = refl
table_apart false false = refl

-- What is found for a request has all of its uses.
supported_linear :
    (format use_flags : ℕ) (c : Combination)
    → is_apart c ≡ true
    → supports format use_flags c ≡ true
    → has_flag use_flags sw_flags ≡ true
    → c.metadata.modifier ≡ drm_format_mod_linear
unfolding supports
supported_linear format use_flags c apart sup asked =
    elim (Bool-cases (bit_and c.use_flags sw_flags == 0)) [
      | inl none_there ↦
          let gone : bit_and use_flags sw_flags ≡ 0 =
            bit_and_disjoint use_flags c.use_flags sw_flags (ground arith) (ground arith) in
          absurd (ground (arith, gone))
      | inr some_there ↦ ground arith
    ]

-- Whether compression is on or not, what drv_get_combination finds in the table of msm_init for a
-- request with one of the uses of `sw_flags` (software access, linear, RenderScript, front
-- rendering) is a linear layout.
pub get_combination-linear :
    (avoid_ubwc compression : Bool) (format use_flags : ℕ) (c : Combination)
    → drv_get_combination (msm_init avoid_ubwc compression []) format use_flags ≡ some c
    → has_flag use_flags sw_flags ≡ true
    → c.metadata.modifier ≡ drm_format_mod_linear
get_combination-linear avoid_ubwc compression format use_flags c e asked =
    let (apart, sup) =
      get_combination-passes is_apart (msm_init avoid_ubwc compression []) format use_flags c
        (table_apart avoid_ubwc compression) e in
    supported_linear format use_flags c apart sup asked
