-- ===== src/Array.antt =====
-- drv_array_helpers.c: the growing array of pointers to copied items. `none` is a failed assertion
-- or a write through a null pointer.
mod Tests
pub mod Refine
use external_minigbm.Base.{
  ℕ, zero, suc, ◌+◌, ◌-◌, ◌*◌, Bool, true, ◌&&◌, Option, none, some, List, [], ◌∷◌, ltb, leb,
  if◌then◌else◌, get_or, set, replicate, wrap32, div_round_up, sub32,
}

module _ {ℓ} (A : Type ℓ) where
  -- `struct drv_array`. `items` holds the allocated slots: `none` is a slot with no item.
  pub record DrvArray : Type ℓ where
    pub items : List (Option A)
    pub size : ℕ
    pub item_size : ℕ
    pub allocations : ℕ

-- The allocator's answers during one call.
pub record Memory : Type 0 where
  pub first : Bool
  pub second : Bool

abbrev pub plenty : Memory
plenty = record { first = true; second = true }

-- `first` and `second` answer the two calls of `calloc`.
unfoldable pub init {ℓ} : (A : Type ℓ) → Memory → ℕ → Option (DrvArray A)
init A mem item_size =
    if mem.first && mem.second
    then some
        (record { items = replicate 2 none; size = 0; item_size = item_size; allocations = 2 })
    else none

module _ {ℓ} {A : Type ℓ} where
  -- The slots behind `realloc`: what fits is kept, new slots hold no item.
  unfoldable pub realloc : List (Option A) → ℕ → List (Option A)
  realloc items zero = []
  realloc [] (suc n) = none ∷ realloc [] n
  realloc (item ∷ items) (suc n) = item ∷ realloc items n

  -- `array->allocations` set to `n`, and the slots moved.
  unfoldable pub resize : DrvArray A → ℕ → DrvArray A
  unfolding realloc
  resize array n = record array { items = realloc array.items n; allocations = n }

  -- The write of a new item behind the last one.
  unfoldable pub store_item : DrvArray A → A → DrvArray A
  store_item array item = record array {
    items = set array.items array.size (some item);
    size = wrap32 (array.size + 1);
  }

  -- `first` answers `realloc`, `second` the `calloc` of the item.
  unfoldable pub append : Memory → DrvArray A → A → Option (DrvArray A)
  unfolding resize store_item
  append mem array item =
      if leb array.allocations array.size
      then (if mem.first && mem.second
          then some (store_item (resize array (wrap32 (array.allocations * 2))) item)
          else none)
      else (if mem.second then some (store_item array item) else none)

  -- for (i = idx + 1; i < size; i++) items[i - 1] = items[i], with the rounds left.
  unfoldable pub shift : ℕ → ℕ → List (Option A) → List (Option A)
  shift zero i items = items
  shift (suc n) i items = shift n (i + 1) (set items (i - 1) (get_or items i none))

  -- The array without the item at `idx`, before it gives slots back.
  unfoldable pub take_out : DrvArray A → ℕ → DrvArray A
  unfolding shift
  take_out array idx = record array {
    items = shift (array.size - (idx + 1)) (idx + 1) (set array.items idx none);
    size = sub32 array.size 1;
  }

  -- `first` answers `realloc`.
  unfoldable pub remove : Memory → DrvArray A → ℕ → Option (DrvArray A)
  unfolding take_out resize
  remove mem array idx =
      if ltb idx array.size
      then (let left = take_out array idx in
          let half = div_round_up array.allocations 2 in
          if ltb left.size half && ltb 2 array.allocations
          then (if mem.first then some (resize left half) else none)
          else some left)
      else none

  unfoldable pub at_idx : DrvArray A → ℕ → Option A
  at_idx array idx = if ltb idx array.size then get_or array.items idx none else none

  unfoldable pub size_of : DrvArray A → ℕ
  size_of array = array.size
