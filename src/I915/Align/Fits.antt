-- ===== src/I915/Align/Fits.antt =====
-- Aligned dimensions hold the plane, and satisfy the tiling.
use external_minigbm.Base.{
  ℕ, zero, suc, ◌+◌, ◌*◌, ◌%◌, ◌^◌, ◌≤◌, ◌<◌, ◌≡◌, refl, ap, ◌⊎◌, inl, inr, Bool, true, false,
  Option, some, arith, ltb, leb, ◌==◌, ◌&&◌, ◌||◌, if◌then◌else◌, ◌>>=◌, wrap32, align, has_flag,
  Returns, Bool-cases, IsAlignment, align_bounds, align_512, align_128, align_64, align_32, align_8,
  align_4, align_1,
}
use native.Mathlib.Nat.{one-le-pow, two-pow-succ}
use external_minigbm.Drm.{drm_format_r8}
use external_minigbm.Flags.{bo_use_hw_video_encoder}
use external_minigbm.I915.{I915Device}
use external_minigbm.I915.Tables.{i915_tiling_x, i915_tiling_y, i915_tiling_4}
use external_minigbm.I915.Align.{
  Aligned, rejected, aligned, horizontal_alignment, vertical_alignment, fit_stride,
  i915_align_dimensions,
}

-- The value is the least multiple of the alignment that is not below the start.
pub record RoundedUp (start alignment end : ℕ) : Type 0 where
  pub covers : start ≤ end
  pub least : end < start + alignment
  pub multiple : end % alignment ≡ 0

rounded :
    {b : ℕ} (start : ℕ)
    → IsAlignment b
    → start ≤ 2 ^ 31
    → b ≤ 2 ^ 31
    → RoundedUp start b (align start b)
rounded start v h k =
    let bounds = align_bounds start v (omega arith) in
    record { covers = bounds.0; least = bounds.1; multiple = bounds.2 }

rounded_if :
    {a b : ℕ} (t : Bool) (start : ℕ)
    → RoundedUp start a (align start a)
    → RoundedUp start b (align start b)
    → let c = if t then a else b in RoundedUp start c (align start c)
rounded_if true start x y = x
rounded_if false start x y = y

horizontal-RoundedUp :
    (i915 : I915Device) (tiling stride : ℕ)
    → stride ≤ 2 ^ 31
    → let a = horizontal_alignment i915 tiling in RoundedUp stride a (align stride a)
unfolding horizontal_alignment
horizontal-RoundedUp i915 tiling stride h =
    let by_512 = rounded stride align_512 (omega arith) (omega arith) in
    let by_128 = rounded stride align_128 (omega arith) (omega arith) in
    rounded_if (tiling == i915_tiling_x) stride by_512 (
      rounded_if (tiling == i915_tiling_y || tiling == i915_tiling_4) stride
        (rounded_if (i915.graphics_version == 3) stride by_512 by_128)
        (rounded stride align_64 (omega arith) (omega arith)))

vertical-RoundedUp :
    (i915 : I915Device) (use_flags format tiling height : ℕ)
    → height ≤ 2 ^ 31
    → let a = vertical_alignment i915 use_flags format tiling height in
      RoundedUp height a (align height a)
unfolding vertical_alignment
vertical-RoundedUp i915 use_flags format tiling height h =
    let by_8 = rounded height align_8 (omega arith) (omega arith) in
    let by_32 = rounded height align_32 (omega arith) (omega arith) in
    rounded_if (tiling == i915_tiling_x) height by_8 (
      rounded_if (tiling == i915_tiling_y || tiling == i915_tiling_4) height
        (rounded_if (i915.graphics_version == 3) height by_8 by_32)
        (rounded_if (has_flag use_flags bo_use_hw_video_encoder) height by_8 (
          rounded_if (format == drm_format_r8 && height == 1) height
            (rounded height align_1 (omega arith) (omega arith))
            (rounded height align_4 (omega arith) (omega arith)))))

-- The dimensions on a device with a graphics version above 3.
abbrev pub Fitting : I915Device → ℕ → ℕ → ℕ → ℕ → ℕ → Aligned → Type 0
Fitting i915 use_flags format tiling stride height rejected = ⊥
Fitting i915 use_flags format tiling stride height (aligned pitch rows) =
    RoundedUp stride (horizontal_alignment i915 tiling) pitch
    × RoundedUp height (vertical_alignment i915 use_flags format tiling height) rows

-- On a device of a graphics version above 3, for a stride and a height of at most 2^31,
-- `i915_align_dimensions` accepts, and rounds the stride and the height up to the least multiples of
-- the alignments of the tiling.
pub align_dimensions-Fitting :
    (i915 : I915Device) (use_flags format tiling stride height : ℕ)
    → 3 < i915.graphics_version
    → stride ≤ 2 ^ 31
    → height ≤ 2 ^ 31
    → Returns
        (Fitting i915 use_flags format tiling stride height)
        (i915_align_dimensions i915 use_flags format tiling stride height)
unfolding i915_align_dimensions
align_dimensions-Fitting i915 use_flags format tiling stride height new h k =
    let above : ltb 3 i915.graphics_version ≡ true = ground arith in
    let below : leb i915.graphics_version 3 ≡ false = ground arith in
    (
      aligned (align stride (horizontal_alignment i915 tiling))
          (align height (vertical_alignment i915 use_flags format tiling height)),
      rw (above, below),
      (
        horizontal-RoundedUp i915 tiling stride h,
        vertical-RoundedUp i915 use_flags format tiling height k,
      ),
    )

-- The power of two that the loop ends at is the start, or less than twice the stride.
abbrev Fitted : ℕ → ℕ → ℕ → Type 0
Fitted stride h pitch = (stride ≤ pitch) × ((pitch ≡ h) ⊎ (pitch < 2 * stride))

fit_stop : (n stride h : ℕ) → ltb h stride ≡ false → fit_stride n stride h ≡ some h
unfolding fit_stride
fit_stop zero stride h stop = rw stop
fit_stop (suc n) stride h stop = rw stop

pow_step : (h k : ℕ) → h * 2 ^ suc k ≡ h * 2 * 2 ^ k
pow_step h k = omega (arith, ap (λ (t : ℕ). h * t) (two-pow-succ k))

pow_grows : (h k : ℕ) → h ≤ h * 2 ^ k
pow_grows h k = grind (arith, one-le-pow k 2)

-- What is fitted from the doubled alignment is fitted from the alignment that was too small.
widen :
    {stride h : ℕ} {o : Option ℕ}
    → ltb h stride ≡ true
    → Returns (Fitted stride (h * 2)) o
    → Returns (Fitted stride h) o
widen more (pitch, e, (fit, least)) = (pitch, e, (fit, inr (ground arith)))

fit_stride-Fitted :
    (n k stride h : ℕ)
    → k ≤ n
    → stride ≤ h * 2 ^ k
    → h * 2 ^ k ≤ 2 ^ 31
    → Returns (Fitted stride h) (fit_stride n stride h)
unfolding fit_stride
fit_stride-Fitted n zero stride h le covers fits =
    let stop : ltb h stride ≡ false = ground arith in
    (h, fit_stop n stride h stop, (omega arith, inl refl))
fit_stride-Fitted zero (suc k) stride h le covers fits = absurd (omega arith)
fit_stride-Fitted (suc n) (suc k) stride h le covers fits = elim (Bool-cases (ltb h stride)) [
  | inl more ↦
      let word : wrap32 (h * 2) ≡ h * 2 = omega (arith, pow_step h k, pow_grows (h * 2) k) in
      rw (more, word)
        (widen more (
          fit_stride-Fitted n k stride (h * 2) (omega arith) (omega (arith, pow_step h k))
            (omega (arith, pow_step h k))))
  | inr stop ↦ (h, rw stop, (ground arith, inl refl))
]

-- The dimensions on a device of graphics version 3.
pub record Fenced (i915 : I915Device) (tiling stride : ℕ) (answer : Aligned) : Type 0 where
  pub pitch : ℕ
  pub rows : ℕ
  pub decided : answer ≡ (if ltb 8192 pitch then rejected else aligned pitch rows)
  pub covers : stride ≤ pitch
  pub least : (pitch ≡ horizontal_alignment i915 tiling) ⊎ (pitch < 2 * stride)

fence_stride :
    (i915 : I915Device) (tiling stride : ℕ)
    → i915.graphics_version ≡ 3
    → stride ≤ 2 ^ 31
    → let h = horizontal_alignment i915 tiling in Returns (Fitted stride h) (fit_stride 32 stride h)
unfolding horizontal_alignment
fence_stride i915 tiling stride old h =
    let by_512 = fit_stride-Fitted 32 22 stride 512 (omega arith) (omega arith) (omega arith) in
    let by_64 = fit_stride-Fitted 32 25 stride 64 (omega arith) (omega arith) (omega arith) in
    let v3 : (i915.graphics_version == 3) ≡ true = ground arith in
    rw v3 (
      fitted_if (tiling == i915_tiling_x) stride by_512
        (fitted_if (tiling == i915_tiling_y || tiling == i915_tiling_4) stride by_512 by_64))
  where
    fitted_if :
        {a b : ℕ} (t : Bool) (stride : ℕ)
        → Returns (Fitted stride a) (fit_stride 32 stride a)
        → Returns (Fitted stride b) (fit_stride 32 stride b)
        → let c = if t then a else b in Returns (Fitted stride c) (fit_stride 32 stride c)
    fitted_if true stride x y = x
    fitted_if false stride x y = y

-- On a device of graphics version 3, for a stride of at most 2^31, the loop of
-- `i915_align_dimensions` ends: the pitch holds the stride and is the alignment itself or less than
-- twice the stride; the call is refused exactly where the pitch exceeds 8192.
pub align_dimensions-Fenced :
    (i915 : I915Device) (use_flags format tiling stride height : ℕ)
    → i915.graphics_version ≡ 3
    → stride ≤ 2 ^ 31
    → Returns
        (Fenced i915 tiling stride)
        (i915_align_dimensions i915 use_flags format tiling stride height)
unfolding i915_align_dimensions
align_dimensions-Fenced i915 use_flags format tiling stride height old h =
    let above : ltb 3 i915.graphics_version ≡ false = ground arith in
    let below : leb i915.graphics_version 3 ≡ true = ground arith in
    rw (above, below) (fence _ (fence_stride i915 tiling stride old h))
  where
    rows : ℕ
    rows = align height (vertical_alignment i915 use_flags format tiling height)

    fence :
        (o : Option ℕ)
        → Returns (Fitted stride (horizontal_alignment i915 tiling)) o
        → Returns
            (Fenced i915 tiling stride)
            (o >>= (λ pitch. some (if ltb 8192 pitch then rejected else aligned pitch rows)))
    fence o (pitch, e, (fit, least)) = (
      if ltb 8192 pitch then rejected else aligned pitch rows,
      rw e,
      record { pitch = pitch; rows = rows; decided = refl; covers = fit; least = least },
    )
