-- ===== src/Handles/Import.antt =====
-- An import that fails leaves no handle open.
use external_minigbm.Base.{
  ℕ, zero, suc, ◌+◌, ◌≤◌, ◌≡◌, ◌≢◌, refl, ◌∙◌, true, false, ◌⊎◌, inl, inr, arith, ◌==◌, ==_iff, ltb,
  if◌then◌else◌, Bool-cases,
}
use external_minigbm.Errors.{einval}
use external_minigbm.Handles.{
  Handles, set_open, drv_gem_close, Imported, give_up, import_handles, drv_prime_bo_import,
}

-- After an import either one handle more is open, the buffer's, or the call failed and the open
-- handles are those from before.
pub data Outcome (before : Handles) (old new : ℕ) (imported : Imported) : Type 0 where
  done :
      imported.ret ≡ 0
      → imported.tiling ≡ new
      → ((j : ℕ) → imported.handles j ≡ (if j == imported.handle then true else before j))
      → Outcome before old new imported
  undone :
      imported.ret ≢ 0
      → imported.tiling ≡ old
      → ((j : ℕ) → imported.handles j ≡ before j)
      → Outcome before old new imported

sum_cases : (o : ℕ ⊎ ℕ) → ((a : ℕ) × (o ≡ inl a)) ⊎ ((b : ℕ) × (o ≡ inr b))
sum_cases (inl a) = inl (a, refl)
sum_cases (inr b) = inr (b, refl)

==_sound : {a b : ℕ} → (a == b) ≡ true → a ≡ b
==_sound {a} {b} = (==_iff a b).0

module _ (fd_to_handle : ℕ → ℕ ⊎ ℕ) (close : ℕ → ℕ) (old new : ℕ) (before : Handles)
    (closes : (h : ℕ) → close h ≡ 0)
    (errors : (plane errno : ℕ) → fd_to_handle plane ≡ inl errno → errno ≢ 0)
    (fresh : (plane h : ℕ) → fd_to_handle plane ≡ inr h → before h ≡ false) where
  -- One handle is open beside those from before.
  abbrev OneMore : Handles → ℕ → Type 0
  OneMore handles handle = (j : ℕ) → handles j ≡ (if j == handle then true else before j)

  -- A close of the buffer's handle restores the set.
  give_up-Outcome :
      (handles : Handles) (handle plane ret : ℕ)
      → ((j : ℕ) → (j == handle) ≡ false → handles j ≡ before j)
      → before handle ≡ false
      → 1 ≤ plane
      → ret ≢ 0
      → Outcome before old new (give_up close old handles handle plane ret)
  unfolding give_up drv_gem_close set_open
  give_up-Outcome handles handle plane ret same unused later failed =
      let after : ltb 0 plane ≡ true = ground arith in
      let works : (close handle == 0) ≡ true = ground (arith, closes handle) in
      undone failed refl (λ j.
        rw (after, works)
          (elim (Bool-cases (j == handle)) [
            | inl here ↦ rw (here, ==_sound here, unused) refl
            | inr there ↦ rw there (same j there)
          ]))

  -- Where the plane's handle is another one than the buffer's, both are closed.
  other-Outcome :
      (handles : Handles) (handle h plane : ℕ)
      → OneMore handles handle
      → before handle ≡ false
      → before h ≡ false
      → 1 ≤ plane
      → Outcome before old new (
          give_up close old (drv_gem_close close (set_open handles h true) h).0 handle plane einval)
  unfolding drv_gem_close set_open
  other-Outcome handles handle h plane more unused closed later =
      let works : (close h == 0) ≡ true = ground (arith, closes h) in
      give_up-Outcome _ handle plane einval
        (λ j other. rw works (elim (Bool-cases (j == h)) [
          | inl here ↦ rw (here, ==_sound here, closed) refl
          | inr there ↦ rw (there, more j, other) refl
        ]))
        unused later (ground arith)

  same-OneMore :
      (handles : Handles) (handle h : ℕ)
      → OneMore handles handle
      → handle ≡ h
      → OneMore (set_open handles h true) h
  unfolding set_open
  same-OneMore handles handle h more e = λ j. elim (Bool-cases (j == h)) [
    | inl here ↦ rw here refl
    | inr there ↦ rw (there, more j, e, there) refl
  ]

  rest-Outcome :
      (n plane : ℕ) (handles : Handles) (handle : ℕ)
      → OneMore handles handle
      → before handle ≡ false
      → 1 ≤ plane
      → Outcome before old new (import_handles fd_to_handle close old new n plane handles handle)
  unfolding import_handles
  rest-Outcome zero plane handles handle more unused later = done refl refl more
  rest-Outcome (suc n) plane handles handle more unused later =
      let after : ltb 0 plane ≡ true = ground arith in
      elim (sum_cases (fd_to_handle plane)) [
        | inl (errno, e) ↦
            rw (import_handles, e)
              (give_up-Outcome handles handle plane errno (λ j other. more j ∙ rw other refl) unused
                later (errors plane errno e))
        | inr (h, e) ↦ elim (Bool-cases (handle == h)) [
          | inl same ↦
              rw (import_handles, e, after, same)
                (rest-Outcome n (plane + 1) (set_open handles h true) h
                  (same-OneMore handles handle h more (==_sound same)) (fresh plane h e)
                  (ground arith))
          | inr other ↦
              rw (import_handles, e, after, other)
                (other-Outcome handles handle h plane more unused (fresh plane h e) later)
        ]
      ]

  first-Outcome :
      (n : ℕ)
      → Outcome before old new (import_handles fd_to_handle close old new (suc n) 0 before 0)
  unfolding import_handles give_up set_open
  first-Outcome n = elim (sum_cases (fd_to_handle 0)) [
    | inl (errno, e) ↦ rw (import_handles, e) (undone (errors 0 errno e) refl (λ j. refl))
    | inr (h, e) ↦
        rw (import_handles, e)
          (rest-Outcome n 1 (set_open before h true) h (λ j. refl) (fresh 0 h e) (ground arith))
  ]

  -- For a buffer of at least one plane, where every close works, the kernel's errors are not 0 and the
  -- handles that the kernel answers were not open before: drv_prime_bo_import either succeeds, and one
  -- handle more is open, the buffer's; and the buffer has the new tiling; or it fails, and the open handles and the tiling are
  -- those from before.
  pub prime_bo_import-Outcome :
      (n : ℕ)
      → Outcome before old new (drv_prime_bo_import fd_to_handle close old new (suc n) before)
  unfolding drv_prime_bo_import
  prime_bo_import-Outcome n = first-Outcome n
