-- ===== src/Gralloc/Counted.antt =====
-- Each buffer counts the references of the handles that refer to it.
use external_minigbm.Base.{
  ℕ, ◌+◌, ◌^◌, ◌≤◌, ◌<◌, ◌≡◌, ◌≢◌, true, none, some, List, arith, ltb, ◌==◌, ==_iff, ==_refl,
  if◌then◌else◌, wrap32, sub32, Bool-cases, Option-cases, inl, inr,
}
use external_minigbm.Gralloc.{HandleInfo, Registry, set_buffer, find_handle, lower_handle}
use external_minigbm.Gralloc.Refs.{
  refs, total, Held, count_of, refs-le-total, count_injective, no_count, Lowered,
  lower_handle-Lowered,
}

pub record Counted (s : Registry) : Type 0 where
  pub counted : (id : ℕ) → count_of (s.buffers id) ≡ refs id s.handles
  pub live : (id : ℕ) → s.buffers id ≢ some 0
  pub held : Held s.handles

-- What a call leaves: the counts are right, and there is at most one reference more.
pub record Kept (s : Registry) (after : Registry × ℕ) : Type 0 where
  pub counted : Counted after.0
  pub few : total after.0.handles ≤ total s.handles + 1

pub same-Kept : (s : Registry) (ret : ℕ) → Counted s → Kept s (s, ret)
same-Kept s ret c = record { counted = c; few = omega arith }

-- A buffer and a handle of it gain a reference.
pub gain-Counted :
    (s : Registry) (handles' : List HandleInfo) (b count : ℕ)
    → Counted s
    → total s.handles < 2 ^ 31
    → count_of (s.buffers b) ≡ count
    → ((id : ℕ) → refs id handles' ≡ refs id s.handles + (if b == id then 1 else 0))
    → Held handles'
    → Counted (record s {
      handles = handles';
      buffers = set_buffer s.buffers b (some (wrap32 (count + 1)));
    })
unfolding set_buffer
gain-Counted s handles' b count c few found grown held =
    let size = refs-le-total b s.handles in
    record {
      counted = λ id. elim (Bool-cases (id == b)) [
        | inl here ↦
            let e : id ≡ b = (==_iff id b).0 here in
            rw here (ground (arith, c.counted b, grown id, size, found, e))
        | inr other ↦ rw other (ground (arith, c.counted id, grown id))
      ];
      live = λ id. elim (Bool-cases (id == b)) [
        | inl here ↦ rw here (λ e.
            let zero : wrap32 (count + 1) ≡ 0 = count_injective e in
            absurd (omega (arith, zero, c.counted b, found, size)))
        | inr other ↦ rw other (c.live id)
      ];
      held = held;
    }

-- A buffer and a handle of it lose a reference, the buffer perhaps its last one.
lose-Counted :
    (s : Registry) (info : HandleInfo) (handles' : List HandleInfo) (count : ℕ)
    → Counted s
    → total s.handles < 2 ^ 31
    → s.buffers info.buffer ≡ some count
    → Lowered info s.handles handles'
    → Counted (record s {
      handles = handles';
      buffers =
          set_buffer s.buffers info.buffer
            (if sub32 count 1 == 0 then none else some (sub32 count 1));
    })
unfolding set_buffer
lose-Counted s info handles' count c few found lower =
    let size = refs-le-total info.buffer s.handles in
    let counts : count ≡ refs info.buffer s.handles = rw found at (c.counted info.buffer) in
    record {
      counted = λ id. elim (Bool-cases (id == info.buffer)) [
        | inl here ↦
            let e : id ≡ info.buffer = (==_iff id info.buffer).0 here in
            rw (here, e) (ground (arith, counts, lower.refs_lowered info.buffer, size))
        | inr other ↦ rw other (ground (arith, c.counted id, lower.refs_lowered id))
      ];
      live = λ id. elim (Bool-cases (id == info.buffer)) [
        | inl here ↦ rw here (left_live (sub32 count 1))
        | inr other ↦ rw other (c.live id)
      ];
      held = lower.held_lowered;
    }
  where
    left_live : (left : ℕ) → (if left == 0 then none else some left) ≢ some 0
    left_live left = elim (Bool-cases (left == 0)) [
      | inl last ↦ rw last no_count
      | inr more ↦ rw more (λ e. absurd (ground (arith, count_injective e)))
    ]

pub release_found :
    (s : Registry) (handle : ℕ) (info : HandleInfo) (count : ℕ)
    → find_handle handle s.handles ≡ some info
    → s.buffers info.buffer ≡ some count
    → Counted s
    → total s.handles < 2 ^ 31
    → (ltb 0 count ≡ true)
      × Kept s (
        record s {
          handles = lower_handle handle s.handles;
          buffers =
              set_buffer s.buffers info.buffer
                (if sub32 count 1 == 0 then none else some (sub32 count 1));
        },
        0,
      )
release_found s handle info count e found c few =
    let lower = lower_handle-Lowered handle s.handles e c.held few in
    let counts : count ≡ refs info.buffer s.handles = rw found at (c.counted info.buffer) in
    (
      ground (arith, counts, lower.refs_lowered info.buffer, ==_refl info.buffer),
      record {
        counted = lose-Counted s info (lower_handle handle s.handles) count c few found lower;
        few = omega (arith, lower.total_lowered);
      },
    )

-- A handle in the list has a buffer.
pub found_buffer :
    (s : Registry) (handle : ℕ) (info : HandleInfo)
    → find_handle handle s.handles ≡ some info
    → Counted s
    → total s.handles < 2 ^ 31
    → (count : ℕ) × (s.buffers info.buffer ≡ some count)
found_buffer s handle info e c few =
    let lower = lower_handle-Lowered handle s.handles e c.held few in
    elim (Option-cases (s.buffers info.buffer)) [
      | inl missing ↦
          let zero : 0 ≡ refs info.buffer s.handles = rw missing at (c.counted info.buffer) in
          absurd (ground (arith, zero, lower.refs_lowered info.buffer, ==_refl info.buffer))
      | inr found ↦ found
    ]
