-- ===== src/Memory/Copy.antt =====
-- What a copy from one region to another changes.
use external_minigbm.Base.{
  ℕ, ◌+◌, ◌-◌, ◌≤◌, ◌<◌, ◌≡◌, ap, ◌⊎◌, inl, inr, arith, ◌&&◌, true, false, refl, leb, ltb,
}
use external_minigbm.Memory.{World, memcpy}

-- Two regions of `n` bytes have no byte in common.
abbrev pub Apart : ℕ → ℕ → ℕ → Type 0
Apart a b n = (a + n ≤ b) ⊎ (b + n ≤ a)

pub memcpy-copied :
    (bytes : ℕ → ℕ) (dst src n i : ℕ) → i < n → memcpy bytes dst src n (dst + i) ≡ bytes (src + i)
unfolding memcpy
memcpy-copied bytes dst src n i lt =
    let inside : (leb dst (dst + i) && ltb (dst + i) (dst + n)) ≡ true = ground arith in
    let back : src + (dst + i - dst) ≡ src + i = omega arith in rw inside (ap bytes back)

pub memcpy-kept :
    (bytes : ℕ → ℕ) (dst src n b i : ℕ)
    → Apart dst b n
    → i < n
    → memcpy bytes dst src n (b + i) ≡ bytes (b + i)
unfolding memcpy
memcpy-kept bytes dst src n b i apart lt =
    let outside : (leb dst (b + i) && ltb (b + i) (dst + n)) ≡ false = ground (arith, apart) in
    rw outside refl

-- What the client sees at offset `i` of the mapping, and what the object holds there.
pub record Carried (w flushed invalidated : World) (addr object i : ℕ) : Type 0 where
  pub published : flushed.bytes (object + i) ≡ w.bytes (addr + i)
  pub kept : flushed.bytes (addr + i) ≡ w.bytes (addr + i)
  pub fetched : invalidated.bytes (addr + i) ≡ w.bytes (object + i)
  pub untouched : invalidated.bytes (object + i) ≡ w.bytes (object + i)

pub Apart-sym : (a b n : ℕ) → Apart a b n → Apart b a n
Apart-sym a b n (inl before) = inr before
Apart-sym a b n (inr behind) = inl behind
