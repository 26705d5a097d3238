-- ===== src/Handles/Tests.antt =====
-- Runs of the import of handles.
use external_minigbm.Base.{ℕ, ◌≡◌, ◌≢◌, refl, false, ◌⊎◌, inl, inr, ◌==◌, arith, if◌then◌else◌}
use external_minigbm.Handles.{Handles, drv_prime_bo_import}
use external_minigbm.Handles.Import.{Outcome, prime_bo_import-Outcome}

-- The kernel knows the descriptor of plane 0 alone.
abbrev one_known : ℕ → ℕ ⊎ ℕ
one_known plane = if plane == 0 then inr 5 else inl 9

abbrev three_open : Handles
three_open h = h == 3

one_known-errors : (plane errno : ℕ) → one_known plane ≡ inl errno → errno ≢ 0
one_known-errors plane errno e = ground arith

one_known-fresh : (plane h : ℕ) → one_known plane ≡ inr h → three_open h ≡ false
one_known-fresh plane h e = ground arith

prime_bo_import-Outcome_example :
    Outcome three_open 0 1 (drv_prime_bo_import one_known (λ h. 0) 0 1 2 three_open)
prime_bo_import-Outcome_example =
    prime_bo_import-Outcome one_known (λ h. 0) 0 1 three_open (λ h. refl) one_known-errors
      one_known-fresh 1

second_plane_failed : (drv_prime_bo_import one_known (λ h. 0) 0 1 2 three_open).ret ≡ 9
unfolding drv_prime_bo_import
second_plane_failed = refl
