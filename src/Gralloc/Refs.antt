-- ===== src/Gralloc/Refs.antt =====
-- How many references the handles hold on a buffer.
use external_minigbm.Base.{
  ℕ, ◌+◌, ◌^◌, ◌≤◌, ◌<◌, ◌≡◌, sym, Option, none, some, List, [], ◌∷◌, arith, ◌==◌, if◌then◌else◌,
  sub32, Bool-cases, inl, inr,
}
use external_minigbm.Gralloc.{HandleInfo, find_handle, raise_handle, lower_handle}

-- The references of the handles to the buffer `id`, and those of all handles.
unfoldable pub refs : ℕ → List HandleInfo → ℕ
refs id [] = 0
refs id (info ∷ handles) = (if info.buffer == id then info.refcount else 0) + refs id handles

unfoldable pub total : List HandleInfo → ℕ
total [] = 0
total (info ∷ handles) = info.refcount + total handles

-- No handle stays without a reference.
abbrev pub Held : List HandleInfo → Type 0
Held [] = Unit
Held (info ∷ handles) = (1 ≤ info.refcount) × Held handles

abbrev pub count_of : Option ℕ → ℕ
count_of none = 0
count_of (some count) = count

pub refs-le-total : (id : ℕ) (handles : List HandleInfo) → refs id handles ≤ total handles
unfolding refs total
refs-le-total id [] = omega arith
refs-le-total id (info ∷ handles) = ground (arith, refs-le-total id handles)

some_injective : {a b : HandleInfo} → some a ≡ some b → a ≡ b
some_injective e = cc

pub count_injective : {a b : ℕ} → some a ≡ some b → a ≡ b
count_injective e = cc

pub no_count : {a : ℕ} → none ≡ some a → ⊥
no_count e = cc

nothing : {a : HandleInfo} → none ≡ some a → ⊥
nothing e = cc

-- One reference more, at the handle that is found.
pub record Raised (info : HandleInfo) (handles handles' : List HandleInfo) : Type 0 where
  pub refs_raised :
      (id : ℕ) → refs id handles' ≡ refs id handles + (if info.buffer == id then 1 else 0)
  pub total_raised : total handles' ≡ total handles + 1
  pub held_raised : Held handles → Held handles'

pub raise_handle-Raised :
    (handle : ℕ) (handles : List HandleInfo) {info : HandleInfo}
    → find_handle handle handles ≡ some info
    → total handles < 2 ^ 31
    → Raised info handles (raise_handle handle handles)
unfolding find_handle raise_handle refs total
raise_handle-Raised handle [] e few = absurd (nothing e)
raise_handle-Raised handle (first ∷ handles) {info} e few =
    elim (Bool-cases (first.handle == handle)) [
      | inl here ↦
          let same : first ≡ info = some_injective (rw here at e) in
          rw (here, sym same)
            (record {
              refs_raised = λ id. ground arith;
              total_raised = omega arith;
              held_raised = λ held. (omega arith, held.1);
            })
      | inr other ↦
          let ih = raise_handle-Raised handle handles (rw other at e) (omega arith) in
          rw other (record {
            refs_raised = λ id. omega (arith, ih.refs_raised id);
            total_raised = omega (arith, ih.total_raised);
            held_raised = λ held. (held.0, ih.held_raised held.1);
          })
    ]

-- One reference less.
pub record Lowered (info : HandleInfo) (handles handles' : List HandleInfo) : Type 0 where
  pub refs_lowered :
      (id : ℕ) → refs id handles ≡ refs id handles' + (if info.buffer == id then 1 else 0)
  pub total_lowered : total handles ≡ total handles' + 1
  pub held_lowered : Held handles'

lower_first :
    (first : HandleInfo) (handles : List HandleInfo)
    → Held (first ∷ handles)
    → first.refcount < 2 ^ 31
    → Lowered first (first ∷ handles) (
        if sub32 first.refcount 1 == 0
        then handles
        else record first { refcount = sub32 first.refcount 1 } ∷ handles)
unfolding refs total
lower_first first handles held few = elim (Bool-cases (sub32 first.refcount 1 == 0)) [
  | inl last ↦ rw last (record {
    refs_lowered = λ id. ground arith;
    total_lowered = ground arith;
    held_lowered = held.1;
  })
  | inr more ↦ rw more (record {
    refs_lowered = λ id. ground arith;
    total_lowered = ground arith;
    held_lowered = (ground arith, held.1);
  })
]

pub lower_handle-Lowered :
    (handle : ℕ) (handles : List HandleInfo) {info : HandleInfo}
    → find_handle handle handles ≡ some info
    → Held handles
    → total handles < 2 ^ 31
    → Lowered info handles (lower_handle handle handles)
unfolding find_handle lower_handle refs total
lower_handle-Lowered handle [] e held few = absurd (nothing e)
lower_handle-Lowered handle (first ∷ handles) {info} e held few =
    elim (Bool-cases (first.handle == handle)) [
      | inl here ↦
          let same : first ≡ info = some_injective (rw here at e) in
          rw (here, sym same) (lower_first first handles held (omega arith))
      | inr other ↦
          let ih = lower_handle-Lowered handle handles (rw other at e) held.1 (omega arith) in
          rw other (record {
            refs_lowered = λ id. omega (arith, ih.refs_lowered id);
            total_lowered = omega (arith, ih.total_lowered);
            held_lowered = (held.0, ih.held_lowered);
          })
    ]
