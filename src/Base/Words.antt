-- ===== src/Base/Words.antt =====
-- `uint32_t` arithmetic and the macros of util.h. A word is a native number; what wraps is written
-- out as a remainder.
use Prim.Native.Nat.{ℕ, zero, suc, ◌+◌, ◌-◌, ◌*◌, ◌/◌, ◌%◌, ◌^◌, ◌≤◌, ◌<◌, bit_and}
use mathlib.Core.Path.{◌≡◌, refl, ap, ◌∙◌}
use mathlib.Core.Bool.{Bool, not}
use native.Mathlib.Nat.{
  div-mul-le_self, lt-div-mul-add, mul-mod_left, mod-add-mod, mod-eq_of_lt, one-le-pow,
}
use native.Mathlib.Omega.{arith}
use external_minigbm.Base.Tests.{◌==◌}
use external_minigbm.Base.Bits.{bit_and_high}

abbrev pub wrap32 : ℕ → ℕ
wrap32 x = x % 2 ^ 32

abbrev pub wrap64 : ℕ → ℕ
wrap64 x = x % 2 ^ 64

-- `a - b` of `uint32_t` operands.
abbrev pub sub32 : ℕ → ℕ → ℕ
sub32 a b = (a + 2 ^ 32 - b) % 2 ^ 32

-- `flags & mask` as a condition.
abbrev pub has_flag : ℕ → ℕ → Bool
has_flag flags mask = not (bit_and flags mask == 0)

-- `DIV_ROUND_UP(n, d)`, a `uint32_t` sum that may wrap before the division.
unfoldable pub div_round_up : ℕ → ℕ → ℕ
div_round_up n d = wrap32 (n + d + (2 ^ 32 - 1)) / d

-- `ALIGN(a, b)`: `(a + b - 1) & ~(b - 1)` in `uint32_t`.
unfoldable pub align : ℕ → ℕ → ℕ
align a b = bit_and (wrap32 (a + b + (2 ^ 32 - 1))) (2 ^ 32 - 1 - wrap32 (b + (2 ^ 32 - 1)))

-- `IS_ALIGNED(a, b)`.
unfoldable pub is_aligned : ℕ → ℕ → Bool
unfolding align
is_aligned a b = align a b == a

-- The alignments for which `ALIGN` is meant: the powers of two of a `uint32_t`.
pub record IsAlignment (b : ℕ) : Type 0 where
  pub high : ℕ
  pub low : ℕ
  pub word : 2 ^ high * 2 ^ low ≡ 2 ^ 32
  pub power : b ≡ 2 ^ low

pred_mul : (m n : ℕ) → 0 < m → (m - 1) * n + n ≡ m * n
pred_mul zero n h = absurd (omega arith)
pred_mul (suc m) n h = let e : suc m - 1 ≡ m = omega arith in rw e (omega arith)

pub align_mask :
    (j k a : ℕ)
    → 2 ^ j * 2 ^ k ≡ 2 ^ 32
    → align a (2 ^ k) ≡ wrap32 (a + 2 ^ k + (2 ^ 32 - 1)) / 2 ^ k * 2 ^ k
unfolding align
align_mask j k a e =
    let x = wrap32 (a + 2 ^ k + (2 ^ 32 - 1)) in
    let mask : 2 ^ 32 - 1 - wrap32 (2 ^ k + (2 ^ 32 - 1)) ≡ (2 ^ j - 1) * 2 ^ k =
      omega
        (arith, e, pred_mul (2 ^ j) (2 ^ k) (one-le-pow j 2 (omega arith)), grow, one-le-pow k 2) in
    let fits : x < 2 ^ j * 2 ^ k = rw e (omega arith) in
    ap (bit_and x) mask ∙ bit_and_high j k x fits
  where
    grow : 2 ^ k ≤ 2 ^ j * 2 ^ k
    grow = grind (arith, one-le-pow j 2)

round_up_bounds :
    (a p : ℕ) → 0 < p → let y = (a + p - 1) / p * p in (a ≤ y) × (y < a + p) × (y % p ≡ 0)
round_up_bounds a p h =
    let up = lt-div-mul-add {a = a + p - 1} h in
    (omega (arith, up), omega (arith, div-mul-le_self (a + p - 1) p), mul-mod_left _ p)

-- A sum that does not wrap is rounded up to the next multiple.
pub align_bounds :
    {b : ℕ} (a : ℕ)
    → IsAlignment b
    → a + b ≤ 2 ^ 32
    → (a ≤ align a b) × (align a b < a + b) × (align a b % b ≡ 0)
align_bounds {b} a v h =
    let p = 2 ^ v.low in
    let pos : 0 < p = one-le-pow v.low 2 (omega arith) in
    let e : wrap32 (a + p + (2 ^ 32 - 1)) ≡ a + p - 1 = omega (arith, v.power, h, pos) in
    rw (v.power, align_mask v.high v.low a v.word, e) (round_up_bounds a p pos)

-- What is aligned stays as it is.
pub align_eq : {b : ℕ} (a : ℕ) → IsAlignment b → a + b ≤ 2 ^ 32 → a % b ≡ 0 → align a b ≡ a
align_eq {b} a v h e =
    let bounds = align_bounds a v h in
    let d = align a b - a in
    let split : align a b ≡ a + d = omega (arith, bounds) in
    let lead : 0 + d ≡ d = omega arith in
    let rest : d ≡ 0 = omega (
      arith,
      bounds,
      mod-add-mod a b d,
      ap (λ (t : ℕ). (t + d) % b) e,
      ap (λ (t : ℕ). t % b) split,
      ap (λ (t : ℕ). t % b) lead,
      mod-eq_of_lt {n = d} {m = b} (omega (arith, bounds)),
    ) in
    omega (arith, split, rest)

-- `DIV_ROUND_UP` without wrap: the least number of pieces of size `d` that cover `n`.
pub div_round_up_bounds :
    (n d : ℕ) → 0 < d → n + d ≤ 2 ^ 32 → (n ≤ div_round_up n d * d) × (div_round_up n d * d < n + d)
unfolding div_round_up
div_round_up_bounds n d pos h =
    let e : wrap32 (n + d + (2 ^ 32 - 1)) ≡ n + d - 1 = omega arith in
    rw e (let b = round_up_bounds n d pos in (b.0, b.1))

abbrev pub align_16 : IsAlignment 16
align_16 = record { high = 28; low = 4; word = refl; power = refl }

abbrev pub align_32 : IsAlignment 32
align_32 = record { high = 27; low = 5; word = refl; power = refl }

abbrev pub align_64 : IsAlignment 64
align_64 = record { high = 26; low = 6; word = refl; power = refl }

abbrev pub align_4096 : IsAlignment 4096
align_4096 = record { high = 20; low = 12; word = refl; power = refl }

-- Every power of two of a `uint32_t` is an alignment.
abbrev pub align_512 : IsAlignment 512
align_512 = record { high = 23; low = 9; word = refl; power = refl }

abbrev pub align_256 : IsAlignment 256
align_256 = record { high = 24; low = 8; word = refl; power = refl }

abbrev pub align_1024 : IsAlignment 1024
align_1024 = record { high = 22; low = 10; word = refl; power = refl }

abbrev pub align_128 : IsAlignment 128
align_128 = record { high = 25; low = 7; word = refl; power = refl }

abbrev pub align_8 : IsAlignment 8
align_8 = record { high = 29; low = 3; word = refl; power = refl }

abbrev pub align_4 : IsAlignment 4
align_4 = record { high = 30; low = 2; word = refl; power = refl }

abbrev pub align_1 : IsAlignment 1
align_1 = record { high = 32; low = 0; word = refl; power = refl }
