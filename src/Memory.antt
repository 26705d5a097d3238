-- ===== src/Memory.antt =====
-- What the backends' mappings work on: the memory of the process, its open file descriptors, its
-- mapped regions and the blocks of its heap.
pub mod Copy
pub mod Held
use external_minigbm.Base.{
  ℕ, ◌+◌, ◌-◌, ◌&&◌, ◌≡◌, refl, Option, List, [], ◌∷◌, ltb, leb, ◌==◌, ==_refl, if◌then◌else◌,
  bit_or, has_flag,
}
use external_minigbm.Flags.{bo_map_write}

-- The byte at each address, and what is held, the latest first. Addresses are numbers that do not
-- wrap.
pub record World : Type 0 where
  pub bytes : ℕ → ℕ
  pub fds : List ℕ
  pub maps : List ℕ
  pub blocks : List ℕ

-- `memcpy(dst, src, n)`
unfoldable pub memcpy : (ℕ → ℕ) → ℕ → ℕ → ℕ → ℕ → ℕ
memcpy bytes dst src n a = if leb dst a && ltb a (dst + n) then bytes (src + (a - dst)) else bytes a

-- The `n` bytes of a block that calloc has cleared.
unfoldable pub cleared : (ℕ → ℕ) → ℕ → ℕ → ℕ → ℕ
cleared bytes dst n a = if leb dst a && ltb a (dst + n) then 0 else bytes a

-- A region, a file descriptor or a block is given back.
unfoldable pub drop : ℕ → List ℕ → List ℕ
drop x [] = []
drop x (y ∷ ys) = let rest = drop x ys in if y == x then ys else y ∷ rest

pub drop-latest : (x : ℕ) (ys : List ℕ) → drop x (x ∷ ys) ≡ ys
unfolding drop
drop-latest x ys = rw (==_refl x) refl

-- `struct vma` as `drv_bo_map` fills it in, with the backend's private data.
pub record BackendVma (Priv : Type 0) : Type 0 where
  pub addr : ℕ
  pub length : ℕ
  pub map_flags : ℕ
  pub priv : Option Priv

abbrev pub prot_read : ℕ
prot_read = 1

abbrev pub prot_write : ℕ
prot_write = 2

unfoldable pub drv_get_prot : ℕ → ℕ
drv_get_prot map_flags =
    if has_flag map_flags bo_map_write then bit_or prot_write prot_read else prot_read
