-- ===== src/I915/Device.antt =====
-- What `i915_init` learns of the device is consistent.
use external_minigbm.Base.{
  ℕ, ◌≤◌, ◌≡◌, ◌≢◌, refl, Bool, true, false, List, ◌⊎◌, inr, some, arith, leb, ◌==◌, if◌then◌else◌,
}
use external_minigbm.Layout.{one_of}
use external_minigbm.I915.{
  I915Device, mark, set_version, set_xelpd, set_mtl, mark_generations, i915_info_from_device_id,
  i915_get_modifier_order, i915_init_device, zeroed_device,
}

-- A version that the driver knows, and no display generation yet.
record IsPlain (i915 : I915Device) : Type 0 where
  pub least : 3 ≤ i915.graphics_version
  pub most : i915.graphics_version ≤ 12
  pub gap : i915.graphics_version ≢ 10
  pub no_xelpd : i915.is_xelpd ≡ false
  pub no_mtl : i915.is_mtl ≡ false

-- The version is one of 3 to 9, 11 and 12, and 12 on the newer platforms.
pub record IsKnown (i915 : I915Device) : Type 0 where
  pub least : 3 ≤ i915.graphics_version
  pub most : i915.graphics_version ≤ 12
  pub gap : i915.graphics_version ≢ 10
  pub xelpd : i915.is_xelpd ≡ true → i915.graphics_version ≡ 12
  pub mtl : i915.is_mtl ≡ true → i915.graphics_version ≡ 12

if-keeps :
    {x y : I915Device} (P : I915Device → Type 0) (t : Bool) → P x → P y → P (if t then x else y)
if-keeps P true on off = on
if-keeps P false on off = off

mark-keeps :
    {i915 : I915Device} (P : I915Device → Type 0) (ids : List ℕ) (update : I915Device → I915Device)
    → P i915
    → P (update i915)
    → P (mark ids update i915)
unfolding mark
mark-keeps {i915} P ids update before after = if-keeps P (one_of i915.device_id ids) after before

versioned :
    {i915 : I915Device} (version : ℕ) (ids : List ℕ)
    → 3 ≤ version
    → version ≤ 12
    → version ≢ 10
    → IsPlain i915
    → IsPlain (mark ids (set_version version) i915)
versioned version ids lower upper ne plain =
    mark-keeps IsPlain ids (set_version version) plain (record {
      least = lower;
      most = upper;
      gap = ne;
      no_xelpd = plain.no_xelpd;
      no_mtl = plain.no_mtl;
    })

mark_generations-IsPlain : (i915 : I915Device) → IsPlain i915 → IsPlain (mark_generations i915)
unfolding mark_generations
mark_generations-IsPlain i915 plain = versioned 12 _ (omega arith) (omega arith) (omega arith) (
    versioned 11 _ (omega arith) (omega arith) (omega arith) (
      versioned 9 _ (omega arith) (omega arith) (omega arith) (
        versioned 8 _ (omega arith) (omega arith) (omega arith) (
          versioned 7 _ (omega arith) (omega arith) (omega arith) (
            versioned 6 _ (omega arith) (omega arith) (omega arith) (
              versioned 5 _ (omega arith) (omega arith) (omega arith) (
                versioned 4 _ (omega arith) (omega arith) (omega arith)
                  (versioned 3 _ (omega arith) (omega arith) (omega arith) plain))))))))

plain-IsKnown : {i915 : I915Device} → IsPlain i915 → IsKnown i915
plain-IsKnown plain = record {
  least = plain.least;
  most = plain.most;
  gap = plain.gap;
  xelpd = λ on. let off = plain.no_xelpd in cc;
  mtl = λ on. let off = plain.no_mtl in cc;
}

newest : {i915 : I915Device} → i915.graphics_version ≡ 12 → IsKnown i915
newest e = record {
  least = omega (arith, e);
  most = omega (arith, e);
  gap = omega (arith, e);
  xelpd = λ _. e;
  mtl = λ _. e;
}

info-IsKnown : (i915 : I915Device) → IsKnown (i915_info_from_device_id i915)
unfolding i915_info_from_device_id
info-IsKnown i915 =
    mark-keeps IsKnown _ set_mtl
      (mark-keeps IsKnown _ set_xelpd
        (mark-keeps IsKnown _ set_xelpd
          (plain-IsKnown (
            mark_generations-IsPlain _ (record {
              least = omega arith;
              most = omega arith;
              gap = omega arith;
              no_xelpd = refl;
              no_mtl = refl;
            })))
          (newest refl))
        (newest refl))
      (newest refl)

with_order :
    {i915 : I915Device} (order : List ℕ)
    → IsKnown i915
    → IsKnown (record i915 { modifier_order = order })
with_order order known = record {
  least = known.least;
  most = known.most;
  gap = known.gap;
  xelpd = known.xelpd;
  mtl = known.mtl;
}

order-IsKnown : (i915 : I915Device) → IsKnown i915 → IsKnown (i915_get_modifier_order i915)
unfolding i915_get_modifier_order
order-IsKnown i915 known = if-keeps IsKnown i915.is_mtl (with_order _ known) (
    if-keeps IsKnown (i915.graphics_version == 12) (with_order _ known)
      (if-keeps IsKnown (i915.graphics_version == 11) (with_order _ known) (with_order _ known)))

-- The device of `i915_init` is known, and has hardware protection from version 12 on.
pub record IsReady (answer : ℕ ⊎ I915Device) : Type 0 where
  pub device : I915Device
  pub made : answer ≡ inr device
  pub known : IsKnown device
  pub protection : device.has_hw_protection ≡ (device.graphics_version == 12)

protected_lem : (version : ℕ) → version ≤ 12 → leb 12 version ≡ (version == 12)
protected_lem version h = ground arith

-- Where memory suffices and the kernel answers all four questions, `i915_init` gets a device, for
-- every identifier of a chipset: its version is one of 3 to 9, 11 and 12, it is 12 on the newer
-- platforms, and hardware protection is on exactly for version 12.
pub init_device-IsReady :
    (id llc fences gtt : ℕ)
    → IsReady (
        i915_init_device true (record {
          chipset_id = some id;
          has_llc = some llc;
          num_fences_avail = some fences;
          mmap_gtt_version = some gtt;
        }))
unfolding i915_init_device
init_device-IsReady id llc fences gtt =
    let known = order-IsKnown _ (info-IsKnown (record zeroed_device { device_id = id })) in
    record {
      device = _;
      made = refl;
      known = record {
        least = known.least;
        most = known.most;
        gap = known.gap;
        xelpd = known.xelpd;
        mtl = known.mtl;
      };
      protection = protected_lem _ known.most;
    }
