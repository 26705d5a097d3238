-- ===== src/Mappings/Release.antt =====
-- The release of one reference to a vma.
use external_minigbm.Base.{
  ℕ, ◌+◌, ◌^◌, ◌≤◌, ◌<◌, ◌≡◌, ◌≢◌, refl, sym, ◌∙◌, ap, ◌⊎◌, inl, inr, Option, none, some, ◌∷◌,
  arith, ◌==◌, ==_ne, if◌then◌else◌, Bool-cases, sub32, Returns,
}
use external_minigbm.Mappings.{Vma, MapState, store, update_vma, lower_vma, release_vma}
use external_minigbm.Mappings.Sound.{refs}

-- The vmas count `count'`, the other vmas are as they were, and the answer is 0 or the backend's.
pub record Released (unmap : ℕ → ℕ) (s : MapState) (v : ℕ) (count' : ℕ → ℕ) (after : MapState × ℕ)
    : Type 0 where
  pub kept : after.0.mappings ≡ s.mappings
  pub counted : (w : ℕ) → refs (after.0.vmas w) ≡ count' w
  pub others : (w : ℕ) → w ≢ v → after.0.vmas w ≡ s.vmas w
  pub answer : (after.1 ≡ 0) ⊎ ((addr : ℕ) × (after.1 ≡ unmap addr))

pub used_vma : (o : Option Vma) → 1 ≤ refs o → (vma : Vma) × (o ≡ some vma)
used_vma none h = absurd (omega arith)
used_vma (some vma) h = (vma, refl)

-- With one user less, the counts are right again after the release.
pub release_vma-Released :
    (unmap : ℕ → ℕ) (s : MapState) (v : ℕ) (count count' : ℕ → ℕ)
    → ((w : ℕ) → refs (s.vmas w) ≡ count w)
    → ((w : ℕ) → count' w + (if v == w then 1 else 0) ≡ count w)
    → 1 ≤ count v
    → count v < 2 ^ 31
    → Returns (Released unmap s v count') (release_vma unmap s v)
unfolding release_vma update_vma store
release_vma-Released unmap s v count count' counted less used few =
    let (vma, found) = used_vma (s.vmas v) (omega (arith, counted v)) in
    let known : vma.refcount ≡ count v = sym (ap refs found) ∙ counted v in
    elim (Bool-cases (sub32 vma.refcount 1 == 0)) [
      | inl last ↦ (
        (record s { vmas = store s.vmas v none; unmapped = vma.addr ∷ s.unmapped }, unmap vma.addr),
        rw (found, last),
        record {
          kept = refl;
          counted = λ w. elim (Bool-cases (w == v)) [
            | inl here ↦
                let e : w ≡ v = ground arith in
                rw here (ground (arith, less w, ap count e, known, last))
            | inr other ↦ rw other (ground (arith, less w, counted w))
          ];
          others = λ w ne. rw (==_ne w v ne);
          answer = inr (vma.addr, refl);
        },
      )
      | inr more ↦ (
        (record s { vmas = update_vma v lower_vma s.vmas }, 0),
        rw (found, more),
        record {
          kept = refl;
          counted = λ w. elim (Bool-cases (w == v)) [
            | inl here ↦
                let e : w ≡ v = ground arith in
                rw (found, here, update_vma) (ground (arith, less w, ap count e, known, more))
            | inr other ↦ rw (found, other, update_vma) (ground (arith, less w, counted w))
          ];
          others = λ w ne. rw (found, ==_ne w v ne, update_vma);
          answer = inl refl;
        },
      )
    ]
