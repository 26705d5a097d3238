-- ===== src/Base/Masks.antt =====
-- Masks inside of masks.
use Prim.Native.Nat.{ℕ, zero, suc, ◌/◌, ◌≤◌, bit_and, bit_or, bit_and-bitwise}
use mathlib.Core.Path.{◌≡◌, ap}
use native.Mathlib.Omega.{arith}
use external_minigbm.Base.Bits.{bit_and_step, bit_or_step, bit_and-zero}

zero-bit_and : (y : ℕ) → bit_and 0 y ≡ 0
zero-bit_and y = bit_and-bitwise 0 y

bit_and_inside_fuel : (f u m c : ℕ) → u ≤ f → bit_and m u ≡ u → bit_and c m ≡ m → bit_and c u ≡ u
bit_and_inside_fuel zero u m c h inner outer = let e : u ≡ 0 = omega arith in rw e (bit_and-zero c)
bit_and_inside_fuel (suc f) u m c h inner outer =
    let a = bit_and_step m u in
    let b = bit_and_step c m in
    let rest =
      bit_and_inside_fuel f (u / 2) (m / 2) (c / 2) (omega arith) (omega (arith, a, inner))
        (omega (arith, b, outer)) in
    omega (arith, bit_and_step c u, a, b, inner, outer, rest)

-- What lies inside of a mask lies inside of a larger mask.
pub bit_and_inside : (u m c : ℕ) → bit_and m u ≡ u → bit_and c m ≡ m → bit_and c u ≡ u
bit_and_inside u m c = bit_and_inside_fuel u u m c (omega arith)

bit_and_both_fuel :
    (f u m k : ℕ) → u ≤ f → bit_and m u ≡ u → bit_and (bit_and m k) (bit_and u k) ≡ bit_and u k
bit_and_both_fuel zero u m k h inner =
    let e : u ≡ 0 = omega arith in rw (e, zero-bit_and k) (bit_and-zero (bit_and m k))
bit_and_both_fuel (suc f) u m k h inner =
    let a = bit_and_step m u in
    let rest =
      bit_and_both_fuel f (u / 2) (m / 2) (k / 2) (omega arith) (omega (arith, a, inner)) in
    let x = bit_and_step m k in
    let y = bit_and_step u k in
    let left : bit_and m k / 2 ≡ bit_and (m / 2) (k / 2) = omega (arith, x) in
    let right : bit_and u k / 2 ≡ bit_and (u / 2) (k / 2) = omega (arith, y) in
    omega (
      arith,
      bit_and_step (bit_and m k) (bit_and u k),
      x,
      y,
      a,
      inner,
      ap (λ (t : ℕ). bit_and t (bit_and u k / 2)) left,
      ap (λ (t : ℕ). bit_and (bit_and (m / 2) (k / 2)) t) right,
      rest,
    )

-- Clearing the same bits of both keeps the one inside of the other.
pub bit_and_both : (u m k : ℕ) → bit_and m u ≡ u → bit_and (bit_and m k) (bit_and u k) ≡ bit_and u k
bit_and_both u m k = bit_and_both_fuel u u m k (omega arith)

bit_and_without_fuel :
    (f u m s : ℕ) → u ≤ f → bit_and (bit_or m s) u ≡ u → bit_and u s ≡ 0 → bit_and m u ≡ u
bit_and_without_fuel zero u m s h inner apart = let e : u ≡ 0 = omega arith in rw e (bit_and-zero m)
bit_and_without_fuel (suc f) u m s h inner apart =
    let x = bit_or_step m s in
    let a = bit_and_step (bit_or m s) u in
    let b = bit_and_step u s in
    let half : bit_or m s / 2 ≡ bit_or (m / 2) (s / 2) = omega (arith, x) in
    let same = ap (λ (t : ℕ). bit_and t (u / 2)) half in
    let rest =
      bit_and_without_fuel f (u / 2) (m / 2) (s / 2) (omega arith) (omega (arith, a, inner, same))
        (omega (arith, b, apart)) in
    omega (arith, bit_and_step m u, x, a, b, inner, apart, rest)

-- What lies inside of two masks together and does not meet the second lies inside of the first.
pub bit_and_without : (u m s : ℕ) → bit_and (bit_or m s) u ≡ u → bit_and u s ≡ 0 → bit_and m u ≡ u
bit_and_without u m s = bit_and_without_fuel u u m s (omega arith)
