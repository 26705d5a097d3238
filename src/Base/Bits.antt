-- ===== src/Base/Bits.antt =====
-- The native bit operations at variables: one equation for the lowest digit, then the laws of
-- masks that the sources rely on.
use Prim.Native.Nat.{
  ℕ, zero, suc, ◌+◌, ◌-◌, ◌*◌, ◌/◌, ◌%◌, ◌^◌, ◌≤◌, ◌<◌, min, max, bit_and, bit_or, digits,
  bit_and-bitwise, bit_or-bitwise,
}
use mathlib.Core.Path.{◌≡◌, refl, ap}
use native.Mathlib.Nat.{pow-suc, one-le-pow, div-div-eq-div-mul}
use native.Mathlib.Omega.{arith}

-- Digits past the fuel are zero: any two amounts of fuel that cover `x` agree.
enough_fuel :
    (tail : ℕ → ℕ) (op : ℕ → ℕ → ℕ) (f g x y : ℕ)
    → x ≤ f
    → x ≤ g
    → digits tail op f x y ≡ digits tail op g x y
enough_fuel tail op zero zero x y p q = refl
enough_fuel tail op zero (suc g) zero y p q = refl
enough_fuel tail op (suc f) zero zero y p q = refl
enough_fuel tail op (suc f) (suc g) zero y p q = refl
enough_fuel tail op zero _ (suc x) y p q = absurd (omega arith)
enough_fuel tail op (suc f) zero (suc x) y p q = absurd (omega arith)
enough_fuel tail op (suc f) (suc g) (suc x) y p q =
    rw (enough_fuel tail op f g (suc x / 2) (y / 2) (omega arith) (omega arith))

pub bit_and_step : (x y : ℕ) → bit_and x y ≡ 2 * bit_and (x / 2) (y / 2) + min (x % 2) (y % 2)
bit_and_step zero y = omega (arith, bit_and-bitwise 0 y, bit_and-bitwise 0 (y / 2))
bit_and_step (suc x) y =
    let h = suc x / 2 in
    omega (
      arith,
      bit_and-bitwise (suc x) y,
      bit_and-bitwise h (y / 2),
      enough_fuel (λ _. 0) min x h h (y / 2) (omega arith) (omega arith),
    )

pub bit_or_step : (x y : ℕ) → bit_or x y ≡ 2 * bit_or (x / 2) (y / 2) + max (x % 2) (y % 2)
bit_or_step zero y = omega (arith, bit_or-bitwise 0 y, bit_or-bitwise 0 (y / 2))
bit_or_step (suc x) y =
    let h = suc x / 2 in
    omega (
      arith,
      bit_or-bitwise (suc x) y,
      bit_or-bitwise h (y / 2),
      enough_fuel (λ z. z) max x h h (y / 2) (omega arith) (omega arith),
    )

-- A mask of ones over all the bits of a number keeps it.
pub bit_and_ones : (n x : ℕ) → x < 2 ^ n → bit_and x (2 ^ n - 1) ≡ x
bit_and_ones zero zero h = refl
bit_and_ones zero (suc x) h = absurd (omega arith)
bit_and_ones (suc n) x h =
    let e : (2 ^ suc n - 1) / 2 ≡ 2 ^ n - 1 = omega (arith, pow-suc 2 n, one-le-pow n 2) in
    omega (
      arith,
      pow-suc 2 n,
      one-le-pow n 2,
      bit_and_step x (2 ^ suc n - 1),
      ap (bit_and (x / 2)) e,
      bit_and_ones n (x / 2) (omega (arith, pow-suc 2 n)),
    )

shift_twice : (x k : ℕ) → x / 2 ^ suc k * 2 ^ suc k ≡ 2 * (x / 2 / 2 ^ k * 2 ^ k)
shift_twice x k =
    let p = 2 ^ k in
    let e : 2 ^ suc k ≡ 2 * p = omega (arith, pow-suc 2 k) in
    rw (e, div-div-eq-div-mul x 2 p) (omega arith)

-- A mask of `n` ones above `k` zeros clears the `k` low bits.
pub bit_and_high :
    (n k x : ℕ) → x < 2 ^ n * 2 ^ k → bit_and x ((2 ^ n - 1) * 2 ^ k) ≡ x / 2 ^ k * 2 ^ k
bit_and_high n zero x h =
    let e : (2 ^ n - 1) * 1 ≡ 2 ^ n - 1 = omega arith in
    omega (arith, ap (bit_and x) e, bit_and_ones n x (omega arith))
bit_and_high n (suc k) x h =
    let m = 2 ^ n - 1 in
    let twice : m * 2 ^ suc k ≡ 2 * (m * 2 ^ k) =
      omega (arith, ap (λ (t : ℕ). m * t) (pow-suc 2 k)) in
    let half : m * 2 ^ suc k / 2 ≡ m * 2 ^ k = omega (arith, twice) in
    omega (
      arith,
      twice,
      bit_and_step x (m * 2 ^ suc k),
      ap (bit_and (x / 2)) half,
      bit_and_high n k (x / 2) (omega (arith, ap (λ (t : ℕ). 2 ^ n * t) (pow-suc 2 k))),
      shift_twice x k,
    )

bit_and-zero_fuel : (f x : ℕ) → x ≤ f → bit_and x 0 ≡ 0
bit_and-zero_fuel f zero h = refl
bit_and-zero_fuel zero (suc x) h = absurd (omega arith)
bit_and-zero_fuel (suc f) (suc x) h =
    omega (arith, bit_and_step (suc x) 0, bit_and-zero_fuel f (suc x / 2) (omega arith))

pub bit_and-zero : (x : ℕ) → bit_and x 0 ≡ 0
bit_and-zero x = bit_and-zero_fuel x x (omega arith)

-- Setting the bits of `y` makes a test for all of them succeed.
bit_or_absorb_fuel : (f x y : ℕ) → y ≤ f → bit_and (bit_or x y) y ≡ y
bit_or_absorb_fuel zero x zero h = bit_and-zero (bit_or x 0)
bit_or_absorb_fuel zero x (suc y) h = absurd (omega arith)
bit_or_absorb_fuel (suc f) x y h =
    let z = bit_or (x / 2) (y / 2) in
    let e : bit_or x y / 2 ≡ z = omega (arith, bit_or_step x y) in
    omega (
      arith,
      bit_or_step x y,
      bit_and_step (bit_or x y) y,
      ap (λ (t : ℕ). bit_and t (y / 2)) e,
      bit_or_absorb_fuel f (x / 2) (y / 2) (omega arith),
    )

pub bit_or_absorb : (x y : ℕ) → bit_and (bit_or x y) y ≡ y
bit_or_absorb x y = bit_or_absorb_fuel y x y (omega arith)

zero-bit_and : (y : ℕ) → bit_and 0 y ≡ 0
zero-bit_and y = bit_and-bitwise 0 y

bit_and_twice_fuel : (f x y : ℕ) → x ≤ f → bit_and (bit_and x y) y ≡ bit_and x y
bit_and_twice_fuel f zero y h = rw zero-bit_and (zero-bit_and y)
bit_and_twice_fuel zero (suc x) y h = absurd (omega arith)
bit_and_twice_fuel (suc f) (suc x) y h =
    let z = bit_and (suc x / 2) (y / 2) in
    let e : bit_and (suc x) y / 2 ≡ z = omega (arith, bit_and_step (suc x) y) in
    omega (
      arith,
      bit_and_step (suc x) y,
      bit_and_step (bit_and (suc x) y) y,
      ap (λ (t : ℕ). bit_and t (y / 2)) e,
      bit_and_twice_fuel f (suc x / 2) (y / 2) (omega arith),
    )

-- A mask applied twice is applied once.
pub bit_and_twice : (x y : ℕ) → bit_and (bit_and x y) y ≡ bit_and x y
bit_and_twice x y = bit_and_twice_fuel x x y (omega arith)

-- What lies inside of `c` has no bit of what `c` does not meet.
bit_and_disjoint_fuel : (f u c s : ℕ) → u ≤ f → bit_and c u ≡ u → bit_and c s ≡ 0 → bit_and u s ≡ 0
bit_and_disjoint_fuel zero u c s h inside apart =
    let e : u ≡ 0 = omega arith in rw (e, zero-bit_and s) refl
bit_and_disjoint_fuel (suc f) u c s h inside apart =
    let a = bit_and_step c u in
    let b = bit_and_step c s in
    let rest =
      bit_and_disjoint_fuel f (u / 2) (c / 2) (s / 2) (omega arith) (omega (arith, a, inside))
        (omega (arith, b, apart)) in
    omega (arith, bit_and_step u s, a, b, inside, apart, rest)

pub bit_and_disjoint : (u c s : ℕ) → bit_and c u ≡ u → bit_and c s ≡ 0 → bit_and u s ≡ 0
bit_and_disjoint u c s = bit_and_disjoint_fuel u u c s (omega arith)
