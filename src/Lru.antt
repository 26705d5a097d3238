-- ===== src/Lru.antt =====
-- drv_helpers.c: the ring of entries in the order of their last use. An entry is its address; the
-- head of the ring has the address 0.
mod Tests
mod Links
pub mod Refine
use external_minigbm.Base.{ℕ, zero, suc, ◌+◌, Bool, Option, none, some, ◌==◌, if◌then◌else◌}

-- `struct lru`, with the `next` and `prev` of every entry.
pub record Lru : Type 0 where
  pub next : ℕ → ℕ
  pub prev : ℕ → ℕ
  pub count : ℕ
  pub max : ℕ

abbrev pub head : ℕ
head = 0

-- A write through a pointer.
unfoldable pub put : (ℕ → ℕ) → ℕ → ℕ → ℕ → ℕ
put f p v q = if q == p then v else f q

-- The first write of `lru_remove_entry`, then both.
unfoldable pub lru_remove_entry : Lru → ℕ → Lru
unfolding put
lru_remove_entry lru entry =
    let next' = put lru.next (lru.prev entry) (lru.next entry) in
    record lru { next = next'; prev = put lru.prev (next' entry) (lru.prev entry) }

-- The four writes of `lru_link_entry`, in their order.
unfoldable pub lru_link_entry : Lru → ℕ → Lru
unfolding put
lru_link_entry lru entry =
    let prev' = put lru.prev entry head in
    let next' = put lru.next entry (lru.next head) in
    record lru { prev = put prev' (next' head) entry; next = put next' head entry }

-- The loop of `lru_find`, with the rounds left; `none` where they do not suffice.
unfoldable pub find_from : (ℕ → Bool) → ℕ → Lru → ℕ → Option (Lru × Option ℕ)
unfolding lru_remove_entry lru_link_entry
find_from eq zero lru cur = if cur == head then some (lru, none) else none
find_from eq (suc n) lru cur =
    let rest = find_from eq n lru (lru.next cur) in
    if cur == head
    then some (lru, none)
    else if eq cur
    then some (lru_link_entry (lru_remove_entry lru cur) cur, some cur)
    else rest

-- `lru_find`; as many rounds as there are entries suffice.
unfoldable pub lru_find : (ℕ → Bool) → Lru → Option (Lru × Option ℕ)
unfolding find_from
lru_find eq lru = find_from eq lru.count lru (lru.next head)

unfoldable pub lru_insert : Lru → ℕ → Lru
unfolding lru_remove_entry lru_link_entry
lru_insert lru entry =
    lru_link_entry
      (if lru.count == lru.max
        then lru_remove_entry lru (lru.prev head)
        else record lru { count = lru.count + 1 })
      entry

-- `lru_init`: what the other addresses hold is as before.
unfoldable pub lru_init : (ℕ → ℕ) → (ℕ → ℕ) → ℕ → Lru
unfolding put
lru_init next prev max = record {
  next = put next head head;
  prev = put prev head head;
  count = 0;
  max = max;
}
